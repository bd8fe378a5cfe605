-- ===== src/Tests/OnDelivery.antt =====
-- A run of a mail through all parts.
use cis505_penn_cloud.Prelude.{◌≡◌, refl, Bool, true, false, none, List, [], ◌∷◌, ◌++◌, arith}
use cis505_penn_cloud.Prelude.Int.{pos}
use cis505_penn_cloud.Prelude.Ordered.{bytes_ordered}
use cis505_penn_cloud.Prelude.Text.{Bytes, codes, crlf, has, starts_with}
use cis505_penn_cloud.StdMap.{lookup}
use cis505_penn_cloud.Kv.Outcome.{Outcome, ok, fault, ◌>>=◌}
use cis505_penn_cloud.Kv.Nodes.{init_nodes}
use cis505_penn_cloud.Kv.Store.{Store}
use cis505_penn_cloud.Kv.Commands.Lines.{turn_of}
use cis505_penn_cloud.Kv.Ops.Lists.{sent_to}
use cis505_penn_cloud.Kv.Worker.{worker_round}
use cis505_penn_cloud.Frontend.Backend.{read_reply}
use cis505_penn_cloud.Frontend.Text.{c_str}
use cis505_penn_cloud.Frontend.Mails.{mail_message, read_mail}
use cis505_penn_cloud.Frontend.Mails.Reading.{get_mail}
use cis505_penn_cloud.Webmail.Client.{Arrival}
use cis505_penn_cloud.Webmail.Send.{stored}
use cis505_penn_cloud.Webmail.Send.Addresses.{local_address}
use cis505_penn_cloud.Webmail.Session.{Session, worker_loop, greeted}
use cis505_penn_cloud.Webmail.Session.Frontends.{quit_line, bye}
use cis505_penn_cloud.Delivery.{joined, read_mail-mail_message}
use cis505_penn_cloud.StdMap.{StdMap}
use cis505_penn_cloud.Kv.Nodes.{Heap, update}
use cis505_penn_cloud.Kv.Ops.{getlist}
use cis505_penn_cloud.Kv.Ops.Hits.{with_nodes}
use cis505_penn_cloud.Kv.Ops.Lists.{sends}
use cis505_penn_cloud.Frontend.Backend.{done}
use cis505_penn_cloud.Frontend.Mails.Listing.{Item, item_rows}
use cis505_penn_cloud.Frontend.Pages.{HttpResponse}
use cis505_penn_cloud.Frontend.World.{World}
use cis505_penn_cloud.Frontend.MailPages.{inbox, filled}
use cis505_penn_cloud.Frontend.MailPages.Inbox.{list_message}
use cis505_penn_cloud.Delivery.Inbox.{mail_files, inbox-getlist}
use cis505_penn_cloud.Tests.OnNodes.{bob, two_users, three_nodes, two_users-IsList}
use cis505_penn_cloud.Tests.OnDisk.{empty_store, one_chunk}

abbrev zero_behind : Bytes → Bytes → Bool
zero_behind command line = true

abbrev md5 : Bytes → Bytes
md5 text = codes "d41d8"

abbrev backend : Bytes → Bytes → Outcome (List Bytes)
backend message user = ok (codes "+OK value stored" ∷ [])

abbrev connect_to : Bytes → Outcome (List Arrival)
connect_to server = fault

abbrev is_mailbox : Bytes → Bool
is_mailbox name = false

abbrev unset_string : Outcome Bytes
unset_string = ok (codes "?")

read_mail-mail_message_example :
    (session : Session) × (message : Bytes) × (s' : Store) × (s'' : Store) × (texts : List Bytes)
    × (worker_loop zero_behind
          (0, 0)
          (0, 0)
          9
          md5
          backend
          connect_to
          is_mailbox
          unset_string
          3
          (greeted (
            mail_message
              (codes "ann")
              (local_address (codes "bob"))
              (codes "today")
              (codes "hi")
              (codes "hello")
            ++ quit_line))
        ≡ ok session)
    × (session.deliveries ≡ stored message (codes "bob") ∷ [])
    × (session.written ≡ codes "220 localhost *" ++ crlf ++ (codes "250 OK" ++ crlf) ++ bye)
    × (worker_round one_chunk 1 message (pos 7) empty_store ≡ ok (turn_of (pos 7) empty_store, s'))
    × (worker_round one_chunk 0 (get_mail (codes "bob") (codes "d41d8")) (pos 8) s'
        ≡ ok (turn_of (pos 8) s', s''))
    × (s''.sent ≡ s'.sent ++ sent_to (pos 8) texts)
    × ((read_reply 9 (get_mail (codes "bob") (codes "d41d8")) (joined texts) >>= read_mail)
        ≡ ok (record {
          from = codes "ann@localhost.com";
          date = codes "today";
          title = codes "hi";
          content = codes "hello" ++ crlf;
        }))
unfolding has starts_with lookup init_nodes
read_mail-mail_message_example =
    read_mail-mail_message zero_behind (0, 0) (0, 0) 9 md5 backend connect_to is_mailbox
      unset_string one_chunk 0 0 1 9 (codes "ann") (codes "bob") (codes "today") (codes "hi")
      (codes "hello") (codes "hello" ∷ []) (codes "+OK value stored" ∷ []) (pos 7) (pos 8)
      empty_store 0 [] refl refl refl refl refl (ground arith) (refl, refl) (refl, refl)
      ((refl, refl), tt) (refl, tt) (ground arith) refl refl refl (omega arith) (omega arith) refl
      refl refl refl refl (ground arith) (ground arith) (ground arith) (ground arith) (ground arith)
      tt (ground arith)

abbrev letter_to_bob : Item
letter_to_bob = record {
  key = codes "d41d8";
  from = codes "ann@localhost.com";
  to = codes "bob@localhost.com";
  date = codes "today";
  title = codes "hi";
  content = codes "hello" ∷ [];
}

abbrev password : StdMap Bytes Bytes
password = (codes "pwd", codes "secret") ∷ []

-- Bob, at the node 3, has a mail and a password.
abbrev with_mail : Store
with_mail = record two_users {
  nodes = record three_nodes {
    value = update three_nodes.value 3 (mail_files (letter_to_bob ∷ []) ++ password);
  };
}

abbrev bobs : World
bobs = record {
  user_name = bob;
  curr_user = none;
  sessions = [];
  frontend_servers = [];
  backend_servers = [];
  files = [];
  asked = [];
  mailed = [];
}

abbrev blank : HttpResponse
blank = record { http_version = codes "HTTP/1.1"; status = []; headers = []; body = [] }

inbox-getlist_example :
    let w' = record bobs { asked = (c_str (list_message bobs), bob) ∷ [] } in
    (h : Heap) × (texts : List Bytes) × (getlist one_chunk 1 bob (codes "email") (pos 7) with_mail
      ≡ ok (sends (pos 7) texts (with_nodes h with_mail)))
    × (inbox (λ message user. read_reply 9 message (joined texts ++ (done ++ crlf))) bobs blank
        ≡ ok (
          filled w'
              (codes "html/inbox.html")
              ((codes "$maillist", item_rows 1 (letter_to_bob ∷ [])) ∷ [])
              blank,
          w',
        ))
unfolding has starts_with lookup c_str
inbox-getlist_example =
    inbox-getlist one_chunk 1 9 (pos 7) 3 with_mail (2 ∷ []) [] bobs blank letter_to_bob [] password
      refl refl (ground arith) tt two_users-IsList refl (refl, (refl, tt)) (refl, tt) (ground arith)
      (ground arith) (omega arith)
