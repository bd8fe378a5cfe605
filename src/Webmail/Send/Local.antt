-- ===== src/Webmail/Send/Local.antt =====
-- A mail of the frontend to a local user, through `handle_send` of webmail/webmail_utils.cc.
use cis505_penn_cloud.Prelude.{
  ℕ, ◌+◌, ◌<◌, ◌≡◌, refl, sym, ap, ◌∙◌, false, List, [], ◌∷◌, ◌++◌, arith, All, length,
  append_assoc, append-nil,
}
use cis505_penn_cloud.Prelude.Text.{Bytes, codes, crlf, has, starts_with}
use cis505_penn_cloud.Kv.Outcome.{Outcome, ok, ◌>>=◌}
use cis505_penn_cloud.Frontend.Backend.{lines_text}
use cis505_penn_cloud.Webmail.Client.{Arrival}
use cis505_penn_cloud.Webmail.Input.Lines.{IsOpen}
use cis505_penn_cloud.Webmail.Send.{
  Letter, add_line, stored, store_message, deliver, handle_send, read_letter, zeros, answer_to,
}
use cis505_penn_cloud.Webmail.Send.Letters.{IsMailLine, add_lines, read_letter-lines}
use cis505_penn_cloud.Frontend.Mails.{mail_text}
use cis505_penn_cloud.Frontend.Mails.Lines.{head_lines, mail_text-lines, dot}
use cis505_penn_cloud.Webmail.Send.Addresses.{
  IsAddress, add_line-from, add_line-to, local_address, server_of-local, user_of-local,
}

-- A line that names no sender and no receiver.
abbrev pub IsBody : Bytes → Type 0
IsBody t =
    (starts_with (codes "From:") (t ++ crlf) ≡ false)
    × (starts_with (codes "To:") (t ++ crlf) ≡ false)

add_line-body :
    (t : Bytes) (m : Letter)
    → IsBody t
    → add_line (t ++ crlf) m ≡ ok (record m { text = m.text ++ (t ++ crlf) })
unfolding add_line
add_line-body t m h = rw (h.0, h.1) refl

add_lines-body :
    (ts : List Bytes) (m : Letter)
    → All IsBody ts
    → add_lines ts m ≡ ok (record m { text = m.text ++ lines_text ts })
add_lines-body [] m h = ap (λ text. ok (record m { text = text })) (sym (append-nil m.text))
add_lines-body (t ∷ ts) m h =
    ap (λ o. o >>= add_lines ts) (add_line-body t m h.0)
    ∙ add_lines-body ts (record m { text = m.text ++ (t ++ crlf) }) h.1
    ∙ ap (λ text. ok (record m { text = text })) (append_assoc m.text (t ++ crlf) (lines_text ts))

module _ (md5 : Bytes → Bytes) (backend : Bytes → Bytes → Outcome (List Bytes))
    (connect_to : Bytes → Outcome (List Arrival)) where
  -- A mail whose first receiver is at this server is put into his store, under the digest of its text,
  -- and the receivers behind him do not get it.
  pub deliver-local :
      (m : Letter) (user : Bytes) (queue : List Bytes)
      → has b'@' user ≡ false
      → deliver md5 backend connect_to m (local_address user ∷ queue) ≡ (
          backend (store_message md5 user m.text) user >>= λ _.
          ok (stored (store_message md5 user m.text) user ∷ []))
  unfolding deliver starts_with
  deliver-local m user queue h = rw (server_of-local user h, user_of-local user h) refl

-- The message for a mail to a user at this server.
abbrev pub local_message : (Bytes → Bytes) → Bytes → Bytes → Bytes → Bytes → Bytes → Bytes
local_message md5 from user date title content =
    store_message md5 user (mail_text from (local_address user) date title content)

add_lines-mail :
    (from to date title : Bytes) (cs : List Bytes)
    → IsAddress from
    → IsAddress to
    → All IsBody cs
    → add_lines
        (head_lines from to date title ++ cs)
        (record { text = []; sender = []; queue = [] })
      ≡ ok (record {
        text = lines_text (head_lines from to date title ++ cs);
        sender = from;
        queue = to ∷ [];
      })
unfolding starts_with
add_lines-mail from to date title cs hf ht hc =
    let first = codes "From: <" ++ (from ++ codes ">") ++ crlf in
    let second = codes "To: <" ++ (to ++ codes ">") ++ crlf in
    let rest = (codes "Date: " ++ date) ∷ (codes "Subject: " ++ title) ∷ cs in
    let m1 : Letter = record { text = first; sender = from; queue = [] } in
    let m2 : Letter = record { text = first ++ second; sender = from; queue = to ∷ [] } in
    ap (λ o. o >>= add_lines ((codes "To: <" ++ (to ++ codes ">")) ∷ rest))
      (add_line-from from _ hf)
    ∙ ap (λ o. o >>= add_lines rest) (add_line-to to m1 ht (omega arith))
    ∙ add_lines-body rest m2 ((refl, refl), ((refl, refl), hc))
    ∙ ap (λ text. ok (record m2 { text = text })) (append_assoc first second (lines_text rest))

module _ (md5 : Bytes → Bytes) (backend : Bytes → Bytes → Outcome (List Bytes))
    (connect_to : Bytes → Outcome (List Arrival)) (fuel : ℕ) (before : ℕ × ℕ) where
  -- A mail of the frontend, from any address to a user at this server: it is read to its dot, put whole
  -- into the user's store under the digest of its text, and answered, and what stands behind it is left.
  -- The content is a list of lines, none of which begins like one that names a sender or a receiver; no line is a dot
  -- or holds a newline or a zero byte, each fits into the buffer, and no name holds a bracket or a second @.
  pub handle_send-mail :
      (from user date title content rest : Bytes) (cs : List Bytes) (rep : List Bytes)
      → content ++ crlf ≡ lines_text cs
      → IsOpen before.0 before.1
      → All (IsMailLine 1024) (head_lines from (local_address user) date title ++ cs)
      → IsAddress from
      → IsAddress (local_address user)
      → All IsBody cs
      → has b'@' user ≡ false
      → length cs + 4 < fuel
      → backend (local_message md5 from user date title content) user ≡ ok rep
      → handle_send md5 backend connect_to fuel before
          (mail_text from (local_address user) date title content ++ rest)
        ≡ ok (
          stored (local_message md5 from user date title content) user ∷ [],
          codes "250 OK" ++ crlf,
          rest,
        )
  unfolding handle_send
  handle_send-mail from user date title content rest cs rep e o lines hf ht hc hu f put =
      let to = local_address user in
      let ts = head_lines from to date title ++ cs in
      let text = mail_text from to date title content in
      let message = store_message md5 user text in
      let empty : Letter = record { text = []; sender = []; queue = [] } in
      let m : Letter = record { text = text; sender = from; queue = to ∷ [] } in
      let whole : text ≡ lines_text ts ++ dot = mail_text-lines from to date title content cs e in
      let later =
        (codes "To: <" ++ (to ++ codes ">"))
        ∷ (codes "Date: " ++ date)
        ∷ (codes "Subject: " ++ title)
        ∷ cs in
      let read : read_letter fuel before 0 (zeros 1024) (text ++ rest) empty ≡ ok (m, rest) =
        ap (λ l. read_letter fuel before 0 (zeros 1024) (l ++ rest) empty) whole
        ∙ read_letter-lines fuel before (codes "From: <" ++ (from ++ codes ">")) later rest empty o
            lines (omega (arith, f))
        ∙ ap (λ m'. m' >>= λ m1. ok (record m1 { text = m1.text ++ dot }, rest))
            (add_lines-mail from to date title cs hf ht hc)
        ∙ ap (λ l. ok (record m { text = l }, rest)) (sym whole) in
      let delivered : deliver md5 backend connect_to m (to ∷ []) ≡ ok (stored message user ∷ []) =
        deliver-local md5 backend connect_to m user [] hu
        ∙ ap (λ o. o >>= λ _. ok (stored message user ∷ [])) put in
      ap
        (λ o. o >>= λ p.
          deliver md5 backend connect_to p.0 p.0.queue >>= λ ds. ok (ds, answer_to ds, p.1))
        read
      ∙ ap (λ o. o >>= λ ds. ok (ds, answer_to ds, rest)) delivered
