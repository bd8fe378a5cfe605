-- ===== src/Delivery.antt =====
-- The way of a mail through the parts: frontend/response.cc writes it, webmail/webmail_utils.cc has it
-- stored, kvstore/kvstore.cc keeps it, and frontend/response.cc reads it in the reply to a `get`.
pub mod Inbox
use cis505_penn_cloud.Prelude.{
  ℕ, suc, ◌+◌, ◌≤◌, ◌<◌, ◌^◌, ◌≡◌, ap, ◌∙◌, ◌≢◌, Bool, true, false, none, List, [], ◌∷◌, ◌++◌, All,
  length, append_assoc, append-nil,
}
use cis505_penn_cloud.Prelude.Int.{ℤ, pos}
use cis505_penn_cloud.Prelude.Ordered.{bytes_ordered}
use cis505_penn_cloud.Prelude.Text.{Bytes, codes, crlf, has}
use cis505_penn_cloud.StdMap.{lookup}
use cis505_penn_cloud.Kv.Outcome.{Outcome, ok, ◌>>=◌}
use cis505_penn_cloud.Kv.Nodes.{head, tail}
use cis505_penn_cloud.Kv.Nodes.Chain.{Avoids}
use cis505_penn_cloud.Kv.Nodes.Relink.{IsList}
use cis505_penn_cloud.Kv.Store.{Store}
use cis505_penn_cloud.Kv.Cache.Reply
use cis505_penn_cloud.Kv.Commands.Lines.{put_text, get_text, turn_of}
use cis505_penn_cloud.Kv.Commands.Fetched.{worker_round-stored}
use cis505_penn_cloud.Kv.Ops.Lists.{sent_to}
use cis505_penn_cloud.Kv.Worker.{worker_round}
use cis505_penn_cloud.Frontend.Text.{c_str}
use cis505_penn_cloud.Frontend.Backend.{IsReply, done, lines_text, read_reply}
use cis505_penn_cloud.Frontend.Mails.{mail_text, mail_message, read_mail}
use cis505_penn_cloud.Frontend.Mails.Lines.{head_lines}
use cis505_penn_cloud.Frontend.Mails.Reading.{
  IsContent, mail_lines, get_mail, mail_reply, read_reply-mail_text,
}
use cis505_penn_cloud.Webmail.Client.{Arrival}
use cis505_penn_cloud.Webmail.Input.Lines.{IsOpen}
use cis505_penn_cloud.Webmail.Send.{stored, store_message}
use cis505_penn_cloud.Webmail.Send.Addresses.{IsAddress, local_address}
use cis505_penn_cloud.Webmail.Send.Letters.{IsMailLine}
use cis505_penn_cloud.Webmail.Send.Local.{IsBody, local_message}
use cis505_penn_cloud.Webmail.Session.{Session, worker_loop, greeted}
use cis505_penn_cloud.Webmail.Session.Frontends.{
  send_line, quit_line, bye, worker_loop-mail_message,
}

-- The texts that a node sends to one client, one behind the other.
abbrev pub joined : List Bytes → Bytes
joined [] = []
joined (text ∷ texts) = text ++ joined texts

-- The text of a mail between two users of this server, and its key in the receiver's store.
abbrev pub local_text : Bytes → Bytes → Bytes → Bytes → Bytes → Bytes
local_text name user date title content =
    mail_text (local_address name) (local_address user) date title content

abbrev pub mail_key : (Bytes → Bytes) → Bytes → Bytes
mail_key md5 text = md5 (c_str text)

-- A command on a mail, with its name taken together.
named_line :
    (command user key rest : Bytes)
    → command ++ user ++ codes ",##" ++ key ++ rest
      ≡ command ++ (user ++ b',' ∷ ((codes "##" ++ key) ++ rest))
named_line command user key rest =
    append_assoc (command ++ user ++ codes ",##") key rest
    ∙ append_assoc (command ++ user) (codes ",##") (key ++ rest)
    ∙ append_assoc command user (codes ",##" ++ (key ++ rest))

-- The mail server's message is a put of the mail's text under its digest.
store_message-put_text :
    (md5 : Bytes → Bytes) (user text : Bytes)
    → store_message md5 user text ≡ put_text user (codes "##" ++ mail_key md5 text) (text ++ crlf)
unfolding store_message
store_message-put_text md5 user text =
    named_line (codes "put ") user (mail_key md5 text) (b',' ∷ (text ++ crlf))

get_mail-get_text : (user key : Bytes) → get_mail user key ≡ get_text user (codes "##" ++ key)
get_mail-get_text user key = named_line (codes "get ") user key crlf

module _ (float_ceil : ℕ → ℕ) (fuel more : ℕ) (md5 : Bytes → Bytes) (user text : Bytes) (fd fd' : ℤ)
    (s : Store) (m : ℕ) (xs : List ℕ) where
  -- The node that takes the mail server's message sends the mail to the client who asks for its key.
  worker_round-store_message :
      has b',' user ≡ false
      → has b',' (mail_key md5 text) ≡ false
      → lookup user s.tablets ≡ none
      → lookup user s.virmem_meta ≡ none
      → lookup user s.user_size ≡ none
      → s.memory_used ≡ pos m
      → m + length (text ++ crlf) ≤ s.capacity
      → length (text ++ crlf) < s.capacity
      → s.capacity < 2 ^ 31
      → s.nodes.fresh ≢ head
      → s.nodes.fresh ≢ tail
      → Avoids s.nodes.fresh xs
      → IsList s.nodes xs
      → (s' : Store) × (s'' : Store) × (texts : List Bytes) × (worker_round float_ceil
            (suc fuel)
            (store_message md5 user text)
            fd
            s
          ≡ ok (turn_of fd s, s'))
        × (worker_round float_ceil more (get_mail user (mail_key md5 text)) fd' s'
            ≡ ok (turn_of fd' s', s''))
        × (s''.sent ≡ s'.sent ++ sent_to fd' texts)
        × (joined texts ≡ mail_reply text)
  unfolding has
  worker_round-store_message hu hk ht hv hz used room below small nh nt v list =
      let (s', s'', first, second, sent) =
        worker_round-stored float_ceil fuel more user (codes "##" ++ mail_key md5 text)
          (text ++ crlf) fd fd' s m xs hu hk ht hv hz used room below small nh nt v list in
      (
        s',
        s'',
        Reply.value_follows ∷ (text ++ crlf) ∷ (done ++ crlf) ∷ [],
        ap (λ line. worker_round float_ceil (suc fuel) line fd s)
              (store_message-put_text md5 user text)
            ∙ first,
        ap (λ line. worker_round float_ceil more line fd' s')
              (get_mail-get_text user (mail_key md5 text))
            ∙ second,
        sent,
        ap (λ l. Reply.value_follows ++ ((text ++ crlf) ++ l)) (append-nil (done ++ crlf)),
      )

-- The parameters of the mail server and of the storage node.
module _ (zero_behind : Bytes → Bytes → Bool) (before data_before : ℕ × ℕ) (lines : ℕ)
    (md5 : Bytes → Bytes) (backend : Bytes → Bytes → Outcome (List Bytes))
    (connect_to : Bytes → Outcome (List Arrival)) (is_mailbox : Bytes → Bool)
    (unset_string : Outcome Bytes) (float_ceil : ℕ → ℕ) (fuel more : ℕ) where
  -- From the form to the page: the message that the frontend sends for a user makes the mail server
  -- store one mail, greet, answer and close; the storage node takes the mail server's very message, and
  -- what it sends to a client who then asks for the mail's key is read back as the sender, the date, the title and the content
  -- that the frontend wrote. The receiver is new to a node with room, the conditions on the lines are
  -- those of the two servers, and no comma stands in the receiver's name or in the digest.
  pub read_mail-mail_message :
      (rounds reads : ℕ) (name user date title content : Bytes) (cs rep : List Bytes) (fd fd' : ℤ)
      (s : Store) (m : ℕ) (xs : List ℕ)
      → zero_behind (codes "SEND") send_line ≡ true
      → zero_behind quit_line quit_line ≡ true
      → IsOpen before.0 before.1
      → IsOpen data_before.0 data_before.1
      → content ++ crlf ≡ lines_text cs
      → All
          (IsMailLine 1024)
          (head_lines (local_address name) (local_address user) date title ++ cs)
      → IsAddress (local_address name)
      → IsAddress (local_address user)
      → All IsBody cs
      → IsContent cs
      → IsReply done (mail_lines (local_address name) (local_address user) date title cs)
      → has b'@' user ≡ false
      → has b',' user ≡ false
      → has b',' (mail_key md5 (local_text name user date title content)) ≡ false
      → length cs + 4 < lines
      → length cs + 8 ≤ reads
      → backend (local_message md5 (local_address name) user date title content) user ≡ ok rep
      → lookup user s.tablets ≡ none
      → lookup user s.virmem_meta ≡ none
      → lookup user s.user_size ≡ none
      → s.memory_used ≡ pos m
      → m + length (local_text name user date title content ++ crlf) ≤ s.capacity
      → length (local_text name user date title content ++ crlf) < s.capacity
      → s.capacity < 2 ^ 31
      → s.nodes.fresh ≢ head
      → s.nodes.fresh ≢ tail
      → Avoids s.nodes.fresh xs
      → IsList s.nodes xs
      → (session : Session) × (message : Bytes) × (s' : Store) × (s'' : Store) × (texts : List
          Bytes)
        × (worker_loop zero_behind before data_before lines md5 backend connect_to is_mailbox
              unset_string
              (suc (suc rounds))
              (greeted (mail_message name (local_address user) date title content ++ quit_line))
            ≡ ok session)
        × (session.deliveries ≡ stored message user ∷ [])
        × (session.written ≡ codes "220 localhost *" ++ crlf ++ (codes "250 OK" ++ crlf) ++ bye)
        × (worker_round float_ceil (suc fuel) message fd s ≡ ok (turn_of fd s, s'))
        × (worker_round float_ceil more
              (get_mail user (mail_key md5 (local_text name user date title content)))
              fd'
              s'
            ≡ ok (turn_of fd' s', s''))
        × (s''.sent ≡ s'.sent ++ sent_to fd' texts)
        × ((read_reply reads
                (get_mail user (mail_key md5 (local_text name user date title content)))
                (joined texts)
              >>= read_mail)
            ≡ ok (record {
              from = local_address name;
              date = date;
              title = title;
              content = lines_text cs;
            }))
  read_mail-mail_message rounds reads name user date title content cs rep fd fd' s m xs zs zq o od e
        hl hf ht hb hc hr hu hcomma hk hlines hreads put tb vm us used room below small nh nt v
        list =
      let text = local_text name user date title content in
      let key = mail_key md5 text in
      let (session, ran, delivered, written) =
        worker_loop-mail_message zero_behind before data_before lines md5 backend connect_to
          is_mailbox unset_string rounds name user date title content cs rep zs zq o od e hl hf ht
          hb hu hlines put in
      let (s', s'', texts, first, second, sent, reply) =
        worker_round-store_message float_ceil fuel more md5 user text fd fd' s m xs hcomma hk tb vm
          us used room below small nh nt v list in
      let read =
        read_reply-mail_text reads user key (local_address name) (local_address user) date title
          content cs e hc hr hreads in
      (
        session,
        local_message md5 (local_address name) user date title content,
        s',
        s'',
        texts,
        ran,
        delivered,
        written,
        first,
        second,
        sent,
        ap (λ bytes. read_reply reads (get_mail user key) bytes >>= read_mail) reply ∙ read,
      )
