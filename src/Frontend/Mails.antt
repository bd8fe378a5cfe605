-- ===== src/Frontend/Mails.antt =====
-- The mails of frontend/response.cc: what the pages send to a storage node and to the mail server,
-- and what they read out of a node's reply.
pub mod Lines
pub mod Reading
pub mod Listing
use cis505_penn_cloud.Prelude.{
  ℕ, zero, suc, ◌+◌, ◌-◌, none, some, List, [], ◌∷◌, ◌++◌, if◌then◌else◌, leb, length, take, drop,
  get_elem?, ◌==◌,
}
use cis505_penn_cloud.Prelude.Ordered.{bytes_ordered, same}
use cis505_penn_cloud.Prelude.Text.{Bytes, codes, crlf, starts_with}
use cis505_penn_cloud.Prelude.Decimal.{print_nat}
use cis505_penn_cloud.Kv.Outcome.{Outcome, ok, fault, timeout, ◌>>=◌}
use cis505_penn_cloud.Kv.Ops.{is_empty}
use cis505_penn_cloud.Frontend.Text.{c_str, split, replace_all, url_decode}
use cis505_penn_cloud.Frontend.Requests.{HttpRequest}
use cis505_penn_cloud.Frontend.Backend.{lines_text}
use cis505_penn_cloud.Frontend.Pages.{HttpResponse, with_body, html, value_at}

-- `rep.at(i)` throws behind the end.
abbrev pub at : List Bytes → ℕ → Outcome Bytes
at lines i = elim (get_elem? lines i) [ none ↦ fault | some line ↦ ok line ]

-- `s.substr(n)` throws where it starts past the end.
abbrev pub substr : ℕ → Bytes → Outcome Bytes
substr n s = if leb n (length s) then ok (drop n s) else fault

-- `s.substr(7, s.length() - 8)`: what stands between "From: <" and the last byte.
abbrev pub address_in : Bytes → Outcome Bytes
address_in s = substr 7 s >>= λ rest. ok (take (length s - 8) rest)

-- The text up to a line that is a dot and is followed by an empty line, and what stands behind that.
unfoldable pub content_lines : List Bytes → Outcome (Bytes × List Bytes)
content_lines [] = fault
content_lines (line ∷ []) = fault
content_lines (line ∷ next ∷ lines) =
    let later = content_lines (next ∷ lines) in
    let longer : Outcome (Bytes × List Bytes) = later >>= λ p. ok (line ++ crlf ++ p.0, p.1) in
    let ended : Outcome (Bytes × List Bytes) = if is_empty next then ok ([], lines) else longer in
    if same line (codes ".") then ended else longer

pub record Mail : Type 0 where
  pub from : Bytes
  pub date : Bytes
  pub title : Bytes
  pub content : Bytes

-- A mail in the reply to a `get`.
unfoldable pub read_mail : List Bytes → Outcome Mail
unfolding content_lines
read_mail rep = do
  first ← at rep 1
  from ← address_in first
  third ← at rep 3
  date ← substr 6 third
  fourth ← at rep 4
  title ← substr 9 fourth
  content ← content_lines (drop 5 rep)
  ok (record { from = from; date = date; title = title; content = content.0 })

-- A row of the inbox, and what stands behind its mail.
unfoldable pub mail_row : ℕ → Bytes → List Bytes → Outcome (Bytes × List Bytes)
unfolding content_lines
mail_row count line lines = do
  let tokens = split (c_str line) b','
  first ← at tokens 1
  address ← address_in first
  content ← content_lines (drop 3 lines)
  name ← at tokens 0
  key ← substr 2 name
  third ← at lines 2
  subject ← substr 9 third
  second ← at lines 1
  date ← substr 6 second
  ok (
    codes "<tr>\n<th scope=\" row \"><a href=\"viewemail?key="
        ++ key
        ++ codes "\">"
        ++ print_nat count
        ++ codes "</a></th>\n<td>"
        ++ address
        ++ codes "</td>\n<td>"
        ++ subject
        ++ codes "</td>\n<td>"
        ++ date
        ++ codes "</td>\n</tr>\n",
    content.1,
  )

-- `line.at(0)` throws on an empty line.
abbrev pub without_comma : Bytes → Outcome Bytes
without_comma [] = fault
without_comma (c ∷ s) = if c == b',' then ok s else ok (c ∷ s)

-- The loop of `inbox`, on fuel, with the number of mails so far.
unfoldable pub mail_rows : ℕ → ℕ → List Bytes → Outcome Bytes
unfolding mail_row
mail_rows zero count rep = timeout
mail_rows (suc fuel) count [] = ok []
mail_rows (suc fuel) count (line0 ∷ lines) = do
  line ← without_comma line0
  let later = mail_rows fuel count lines
  let listed : Outcome Bytes = mail_row (count + 1) line lines >>= λ r.
      mail_rows fuel (count + 1) r.1 >>= λ rows. ok (r.0 ++ rows)
  if starts_with (codes "##") line then listed else later

-- The mail that a user sends, line by line.
abbrev pub mail_text : Bytes → Bytes → Bytes → Bytes → Bytes → Bytes
mail_text from sent_to curr_time title content = lines_text (
    (codes "From: <" ++ (from ++ codes ">"))
    ∷ (codes "To: <" ++ (sent_to ++ codes ">"))
    ∷ (codes "Date: " ++ curr_time)
    ∷ (codes "Subject: " ++ title)
    ∷ content
    ∷ codes "."
    ∷ [])

-- What goes to the mail server.
unfoldable pub mail_message : Bytes → Bytes → Bytes → Bytes → Bytes → Bytes
mail_message user_name sent_to curr_time title content =
    codes "Send"
    ++ crlf
    ++ mail_text (user_name ++ codes "@localhost.com") sent_to curr_time title content

-- The receiver, the title and the content that a form names.
unfoldable pub mail_params : List Bytes → Outcome (Bytes × Bytes × Bytes)
mail_params (p ∷ q ∷ r ∷ _) = do
  sent_to ← value_at (split p b'=')
  title ← value_at (split q b'=')
  content ← value_at (split r b'=')
  ok (
    sent_to,
    replace_all title (codes "+") (codes " "),
    replace_all content (codes "+") (codes " "),
  )
mail_params _ = fault
