-- ===== src/Delivery/Inbox.antt =====
-- The listing of a user's mails by kvstore/lrucache.cc, as the inbox of frontend/response.cc reads it.
use cis505_penn_cloud.Prelude.{
  ℕ, ◌+◌, ◌≤◌, ◌≡◌, refl, sym, ap, ◌∙◌, true, false, some, none, List, [], ◌∷◌, ◌++◌, arith, All,
  ◌==◌, length, append_assoc,
}
use cis505_penn_cloud.Prelude.Text.{Bytes, codes, crlf, starts_with}
use cis505_penn_cloud.Prelude.Int.{ℤ}
use cis505_penn_cloud.Prelude.Ordered.{bytes_ordered}
use cis505_penn_cloud.StdMap.{StdMap, lookup}
use cis505_penn_cloud.Kv.Outcome.{ok}
use cis505_penn_cloud.Kv.Nodes.{Heap}
use cis505_penn_cloud.Kv.Nodes.Chain.{Avoids}
use cis505_penn_cloud.Kv.Nodes.Relink.{IsList}
use cis505_penn_cloud.Kv.Store.{Store}
use cis505_penn_cloud.Kv.Cache.{files_of}
use cis505_penn_cloud.Kv.Cache.Reply
use cis505_penn_cloud.Kv.Ops.{is_email, getlist}
use cis505_penn_cloud.Kv.Ops.Hits.{with_nodes}
use cis505_penn_cloud.Kv.Ops.Lists.{listed, is_listed, item_text, sends, AllIn, getlist-listed}
use cis505_penn_cloud.Frontend.Text.{c_str}
use cis505_penn_cloud.Frontend.Backend.{
  done, end_mark, lines_text, IsReply, read_reply, read_reply-lines,
}
use cis505_penn_cloud.Frontend.Mails.Lines.{dot, head_lines, lines_text-append}
use cis505_penn_cloud.Frontend.Mails.Listing.{
  Item, item_lines, item_line, listing, list_line, IsItem, item_rows,
}
use cis505_penn_cloud.Frontend.Pages.{HttpResponse}
use cis505_penn_cloud.Frontend.World.{World}
use cis505_penn_cloud.Frontend.MailPages.{inbox, filled}
use cis505_penn_cloud.Frontend.MailPages.Inbox.{list_message, inbox-listing}
use cis505_penn_cloud.Delivery.{joined}

-- The files of a user with these mails, of which each stands under its key.
abbrev pub stored_text : Item → Bytes
stored_text m = lines_text (head_lines m.from m.to m.date m.title ++ m.content) ++ dot

abbrev pub mail_files : List Item → StdMap Bytes Bytes
mail_files [] = []
mail_files (m ∷ ms) = (codes "##" ++ m.key, stored_text m ++ crlf) ∷ mail_files ms

abbrev pub mail_texts : List Item → List Bytes
mail_texts [] = []
mail_texts (m ∷ ms) = item_text (codes "##" ++ m.key) (stored_text m ++ crlf) ∷ mail_texts ms

abbrev pub IsOther : Bytes × Bytes → Type 0
IsOther file = is_email file.0 ≡ false

listed-others :
    (k : ℕ) (others : StdMap Bytes Bytes)
    → All IsOther others
    → listed (is_listed (codes "email")) item_text k others ≡ []
listed-others k [] h = refl
listed-others k ((filename, value) ∷ others) h = rw h.0 (listed-others (k + 1) others h.1)

listed-later :
    (k : ℕ) (ms : List Item) (others : StdMap Bytes Bytes)
    → (k == 0) ≡ false
    → All IsOther others
    → listed (is_listed (codes "email")) item_text k (mail_files ms ++ others) ≡ mail_texts ms
unfolding starts_with
listed-later k [] others later h = listed-others k others h
listed-later k (m ∷ ms) others later h = rw later (
    ap (λ l. item_text (codes "##" ++ m.key) (stored_text m ++ crlf) ∷ l)
      (listed-later (k + 1) ms others (ground arith) h))

listed-mails :
    (m : Item) (ms : List Item) (others : StdMap Bytes Bytes)
    → All IsOther others
    → listed (is_listed (codes "email")) item_text 0 (mail_files (m ∷ ms) ++ others)
      ≡ Reply.list_follows ∷ mail_texts (m ∷ ms)
unfolding starts_with
listed-mails m ms others h =
    ap (λ l. Reply.list_follows ∷ item_text (codes "##" ++ m.key) (stored_text m ++ crlf) ∷ l)
      (listed-later 1 ms others refl h)

-- What is sent for a mail is its lines and a comma.
mail_text_lines :
    (m : Item)
    → item_text (codes "##" ++ m.key) (stored_text m ++ crlf)
      ≡ lines_text (item_lines true m) ++ b',' ∷ []
mail_text_lines m =
    let name = codes "##" ++ m.key in
    let sender = codes "From: <" ++ (m.from ++ codes ">") in
    let rest =
      (codes "To: <" ++ (m.to ++ codes ">"))
      ∷ (codes "Date: " ++ m.date)
      ∷ (codes "Subject: " ++ m.title)
      ∷ m.content in
    let behind = lines_text rest ++ (dot ++ crlf) in
    let value : stored_text m ++ crlf ≡ sender ++ (crlf ++ behind) =
      append_assoc ((sender ++ crlf) ++ lines_text rest) dot crlf
      ∙ append_assoc (sender ++ crlf) (lines_text rest) (dot ++ crlf)
      ∙ append_assoc sender crlf behind in
    let lines : lines_text (item_lines true m) ≡ name ++ b',' ∷ (sender ++ (crlf ++ behind)) =
      ap (λ l. (item_line m ++ crlf) ++ l) (lines_text-append rest (codes "." ∷ [] ∷ []))
      ∙ append_assoc (item_line m) crlf behind
      ∙ append_assoc name (b',' ∷ sender) (crlf ++ behind) in
    ap (λ l. (name ++ b',' ∷ l) ++ b',' ∷ []) value ∙ ap (λ l. l ++ b',' ∷ []) (sym lines)

-- The bytes behind a mail: a comma, the mails that follow, and the line that ends the reply.
abbrev end_lines : List Bytes
end_lines = (b',' ∷ done) ∷ []

mail_texts_behind :
    (m : Item) (texts : List Bytes)
    → joined (item_text (codes "##" ++ m.key) (stored_text m ++ crlf) ∷ texts) ++ (done ++ crlf)
      ≡ lines_text (item_lines true m) ++ b',' ∷ (joined texts ++ (done ++ crlf))
mail_texts_behind m texts =
    let lines = lines_text (item_lines true m) in
    ap (λ l. (l ++ joined texts) ++ (done ++ crlf)) (mail_text_lines m)
    ∙ append_assoc (lines ++ b',' ∷ []) (joined texts) (done ++ crlf)
    ∙ append_assoc lines (b',' ∷ []) (joined texts ++ (done ++ crlf))

lines_text-listing :
    (ms : List Item)
    → lines_text (listing false ms ++ end_lines) ≡ b',' ∷ (joined (mail_texts ms) ++ (done ++ crlf))
lines_text-listing [] = refl
lines_text-listing (m ∷ ms) =
    ap lines_text (append_assoc (item_lines false m) (listing false ms) end_lines)
    ∙ lines_text-append (item_lines false m) (listing false ms ++ end_lines)
    ∙ ap (λ l. lines_text (item_lines false m) ++ l) (lines_text-listing ms)
    ∙ ap (λ l. b',' ∷ l) (sym (mail_texts_behind m (mail_texts ms)))

-- The texts that a node sends for the mails are the bytes of the listing's lines.
joined-mail_texts :
    (m : Item) (ms : List Item)
    → joined (Reply.list_follows ∷ mail_texts (m ∷ ms)) ++ (done ++ crlf)
      ≡ lines_text (list_line ∷ listing true (m ∷ ms) ++ end_lines)
joined-mail_texts m ms =
    append_assoc Reply.list_follows (joined (mail_texts (m ∷ ms))) (done ++ crlf)
    ∙ ap (λ l. Reply.list_follows ++ l)
        (mail_texts_behind m (mail_texts ms)
          ∙ ap (λ l. lines_text (item_lines true m) ++ l) (sym (lines_text-listing ms))
          ∙ sym (lines_text-append (item_lines true m) (listing false ms ++ end_lines))
          ∙ ap lines_text (sym (append_assoc (item_lines true m) (listing false ms) end_lines)))

-- The reader of the frontend finds the lines of the listing in what the node sends.
read_reply-listing :
    (reads : ℕ) (w : World) (m : Item) (ms : List Item)
    → IsReply (b',' ∷ done) (list_line ∷ listing true (m ∷ ms))
    → length (listing true (m ∷ ms)) + 2 ≤ reads
    → read_reply reads
        (list_message w)
        (joined (Reply.list_follows ∷ mail_texts (m ∷ ms)) ++ (done ++ crlf))
      ≡ ok (list_line ∷ listing true (m ∷ ms))
unfolding end_mark starts_with
read_reply-listing reads w m ms r f =
    ap (read_reply reads (list_message w)) (joined-mail_texts m ms)
    ∙ read_reply-lines reads (list_message w) list_line (listing true (m ∷ ms)) r refl f

module _ (float_ceil : ℕ → ℕ) (fuel reads : ℕ) (fd : ℤ) (n : ℕ) (s : Store) (xs ys : List ℕ)
    (w : World) (res : HttpResponse) where
  -- The inbox of a user in memory shows exactly the mails that the node keeps for him, in the order of
  -- their keys and numbered from 1: the listing that the node sends, with the line that ends the reply,
  -- is read as these mails. At least one mail stands before the user's other files, each name stands
  -- once, and no line is the mark that ends the reply or holds a line end.
  pub inbox-getlist :
      (m : Item) (ms : List Item) (others : StdMap Bytes Bytes)
      → lookup w.user_name s.tablets ≡ some n
      → lookup w.user_name s.virmem_meta ≡ none
      → Avoids n xs
      → Avoids n ys
      → IsList s.nodes (xs ++ n ∷ ys)
      → files_of n s ≡ mail_files (m ∷ ms) ++ others
      → AllIn (files_of n s) (files_of n s)
      → All IsOther others
      → All IsItem (m ∷ ms)
      → IsReply (b',' ∷ done) (list_line ∷ listing true (m ∷ ms))
      → length (listing true (m ∷ ms)) + 2 ≤ reads
      → let w' = record w { asked = w.asked ++ (c_str (list_message w), w.user_name) ∷ [] } in
        (h : Heap) × (texts : List Bytes) × (getlist float_ceil fuel w.user_name
            (codes "email")
            fd
            s
          ≡ ok (sends fd texts (with_nodes h s)))
        × (inbox (λ message user. read_reply reads message (joined texts ++ (done ++ crlf))) w res
            ≡ ok (
              filled w'
                  (codes "html/inbox.html")
                  ((codes "$maillist", item_rows 1 (m ∷ ms)) ∷ [])
                  res,
              w',
            ))
  inbox-getlist m ms others here not_there vx vy list files all ho hi hr f =
      let (h, ran, values) =
        getlist-listed float_ceil fuel w.user_name fd n (codes "email") s xs ys here not_there vx vy
          list all in
      let texts = Reply.list_follows ∷ mail_texts (m ∷ ms) in
      let listed_texts : listed (is_listed (codes "email")) item_text 0 (files_of n s) ≡ texts =
        ap (listed (is_listed (codes "email")) item_text 0) files ∙ listed-mails m ms others ho in
      (
        h,
        texts,
        ran ∙ ap (λ l. ok (sends fd l (with_nodes h s))) listed_texts,
        inbox-listing (λ message user. read_reply reads message (joined texts ++ (done ++ crlf))) w
            res (m ∷ ms) hi (read_reply-listing reads w m ms hr f),
      )
