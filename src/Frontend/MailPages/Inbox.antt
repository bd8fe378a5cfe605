-- ===== src/Frontend/MailPages/Inbox.antt =====
-- The pages of mails of frontend/response.cc, on what a storage node replies.
use cis505_penn_cloud.Prelude.{◌≡◌, refl, true, List, [], ◌∷◌, ◌++◌, All}
use cis505_penn_cloud.Prelude.Text.{Bytes, codes, crlf}
use cis505_penn_cloud.Kv.Outcome.{Outcome, ok}
use cis505_penn_cloud.Frontend.Text.{c_str}
use cis505_penn_cloud.Frontend.Pages.{HttpResponse}
use cis505_penn_cloud.Frontend.World.{World, ask}
use cis505_penn_cloud.Frontend.Mails.Listing.{
  Item, IsItem, listing, list_line, item_rows, mail_rows-listing,
}
use cis505_penn_cloud.Frontend.MailPages.{inbox, filled}

-- What the inbox asks of the user's storage node.
abbrev pub list_message : World → Bytes
list_message w = codes "getlist " ++ w.user_name ++ codes ",email" ++ crlf

-- The inbox page shows every mail that the node lists, in their order and numbered from 1, with its
-- key, sender, title and date, and changes nothing but what has been asked. Neither a key nor a sender
-- holds a comma or a zero byte, and no line of a content is a dot.
pub inbox-listing :
    (backend : Bytes → Bytes → Outcome (List Bytes)) (w : World) (res : HttpResponse)
    (ms : List Item)
    → All IsItem ms
    → backend (list_message w) w.user_name ≡ ok (list_line ∷ listing true ms)
    → let w' = record w { asked = w.asked ++ (c_str (list_message w), w.user_name) ∷ [] } in
      inbox backend w res
      ≡ ok (filled w' (codes "html/inbox.html") ((codes "$maillist", item_rows 1 ms) ∷ []) res, w')
unfolding inbox ask
inbox-listing backend w res ms h sent = rw (sent, mail_rows-listing ms h) refl
