-- ===== src/Frontend/Mails/Reading.antt =====
-- What the mail pages of frontend/response.cc read out of a storage node's reply to a `get`.
use cis505_penn_cloud.Prelude.{
  ℕ, ◌+◌, ◌-◌, ◌≤◌, ◌≡◌, refl, sym, ap, ◌∙◌, false, List, [], ◌∷◌, ◌++◌, arith, All, length, take,
  drop, length-append, append_assoc, take-length-append, drop-length-append,
}
use cis505_penn_cloud.Prelude.Ordered.{bytes_ordered, same}
use cis505_penn_cloud.Prelude.Text.{Bytes, codes, crlf, has, starts_with}
use cis505_penn_cloud.Kv.Outcome.{ok, ◌>>=◌}
use cis505_penn_cloud.Kv.Cache.Reply
use cis505_penn_cloud.Frontend.Backend.{
  done, end_mark, IsReply, lines_text, read_reply, read_reply-lines,
}
use cis505_penn_cloud.Frontend.Mails.Lines.{dot, head_lines, lines_text-append, mail_text-lines}
use cis505_penn_cloud.Frontend.Mails.{address_in, substr, content_lines, read_mail, mail_text}

-- A content line: it is not the dot that ends a mail.
abbrev pub IsContent : List Bytes → Type 0
IsContent cs = All (λ c. same c (codes ".") ≡ false) cs

-- The content of a mail is its lines up to the dot and the empty line behind it.
pub content_lines-lines :
    (cs rest : List Bytes)
    → IsContent cs
    → content_lines (cs ++ codes "." ∷ [] ∷ rest) ≡ ok (lines_text cs, rest)
unfolding content_lines
content_lines-lines [] rest h = refl
content_lines-lines (c ∷ []) rest h = rw h.0 refl
content_lines-lines (c ∷ d ∷ cs) rest h =
    rw h.0 (ap (λ o. o >>= λ p. ok (c ++ crlf ++ p.0, p.1)) (content_lines-lines (d ∷ cs) rest h.1))

-- What stands between the brackets of a line whose first seven bytes are another text.
pub address_in-closed :
    (a s : Bytes) → drop 7 s ≡ a ++ codes ">" → length s ≡ length a + 8 → address_in s ≡ ok a
address_in-closed a s e n =
    let front : take (length s - 8) (a ++ codes ">") ≡ a =
      let k : length s - 8 ≡ length a = omega (arith, n) in
      ap (λ i. take i (a ++ codes ">")) k ∙ take-length-append a (codes ">") in
    ground (arith, n, e, front)

pub first_address : (from : Bytes) → address_in (codes "From: <" ++ (from ++ codes ">")) ≡ ok from
first_address from =
    address_in-closed from (codes "From: <" ++ (from ++ codes ">")) refl
      (omega (arith, length-append {0} from (codes ">")))

abbrev pub mail_lines : Bytes → Bytes → Bytes → Bytes → List Bytes → List Bytes
mail_lines from to date title cs =
    (codes "From: <" ++ (from ++ codes ">"))
      ∷ (codes "To: <" ++ (to ++ codes ">"))
      ∷ (codes "Date: " ++ date)
      ∷ (codes "Subject: " ++ title)
      ∷ cs
    ++ codes "." ∷ [] ∷ []

pub substr-append : (front s : Bytes) → substr (length front) (front ++ s) ≡ ok s
substr-append front s =
    let n : length (front ++ s) ≡ length front + length s = length-append front s in
    ground (arith, n, drop-length-append front s)

read_mail-lines :
    (line from to date title : Bytes) (cs : List Bytes)
    → IsContent cs
    → read_mail (line ∷ mail_lines from to date title cs)
      ≡ ok (record { from = from; date = date; title = title; content = lines_text cs })
unfolding read_mail
read_mail-lines line from to date title cs h =
    rw
      (
        first_address from,
        substr-append (codes "Date: ") date,
        substr-append (codes "Subject: ") title,
        content_lines-lines cs [] h,
      )
      refl

-- The bytes of a reply to the `get` of a mail: the stored text and the line end that its `put` ended in.
abbrev pub mail_reply : Bytes → Bytes
mail_reply text = Reply.value_follows ++ ((text ++ crlf) ++ (done ++ crlf))

abbrev pub get_mail : Bytes → Bytes → Bytes
get_mail user_name key = codes "get " ++ user_name ++ codes ",##" ++ key ++ crlf

-- A mail that `mail_text` writes, and that a node sends in its reply, is read back out of it: the
-- sender, the date, the title and the content, each line of the content with its end. No line holds a
-- line end, is a dot, or is the mark that ends a reply.
pub read_reply-mail_text :
    (fuel : ℕ) (user_name key from to date title content : Bytes) (cs : List Bytes)
    → content ++ crlf ≡ lines_text cs
    → IsContent cs
    → IsReply done (mail_lines from to date title cs)
    → length cs + 8 ≤ fuel
    → (read_reply fuel (get_mail user_name key) (mail_reply (mail_text from to date title content))
        >>= read_mail)
      ≡ ok (record { from = from; date = date; title = title; content = lines_text cs })
unfolding end_mark starts_with has
read_reply-mail_text fuel user_name key from to date title content cs e h r f =
    let line = codes "+OK value as follows: " in
    let lines = mail_lines from to date title cs in
    let front = head_lines from to date title ++ cs in
    let sent : mail_reply (mail_text from to date title content)
        ≡ lines_text (line ∷ lines ++ done ∷ []) =
      ap (λ x. Reply.value_follows ++ ((x ++ crlf) ++ (done ++ crlf)))
        (mail_text-lines from to date title content cs e)
      ∙ ap (λ x. Reply.value_follows ++ (x ++ (done ++ crlf)))
          (append_assoc (lines_text front) dot crlf
            ∙ sym (lines_text-append front (codes "." ∷ [] ∷ [])))
      ∙ ap (λ x. Reply.value_follows ++ x) (sym (lines_text-append lines (done ∷ []))) in
    ap (λ s. read_reply fuel (get_mail user_name key) s >>= read_mail) sent
    ∙ ap (λ o. o >>= read_mail)
        (read_reply-lines fuel (get_mail user_name key) line lines (refl, refl, refl, r) refl
          (omega (arith, f, length-append {0} cs (codes "." ∷ [] ∷ []))))
    ∙ read_mail-lines line from to date title cs h
