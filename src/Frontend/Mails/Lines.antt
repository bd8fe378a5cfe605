-- ===== src/Frontend/Mails/Lines.antt =====
-- The lines of a mail that frontend/response.cc writes.
use cis505_penn_cloud.Prelude.{◌≡◌, refl, sym, ap, ◌∙◌, List, [], ◌∷◌, ◌++◌, append_assoc}
use cis505_penn_cloud.Prelude.Text.{Bytes, codes, crlf}
use cis505_penn_cloud.Frontend.Backend.{lines_text}
use cis505_penn_cloud.Frontend.Mails.{mail_text}

-- The end of a mail.
abbrev pub dot : Bytes
dot = codes "." ++ crlf

pub lines_text-append :
    (xs ys : List Bytes) → lines_text (xs ++ ys) ≡ lines_text xs ++ lines_text ys
lines_text-append [] ys = refl
lines_text-append (x ∷ xs) ys =
    ap (λ l. (x ++ crlf) ++ l) (lines_text-append xs ys)
    ∙ sym (append_assoc (x ++ crlf) (lines_text xs) (lines_text ys))

-- The lines of a mail of the frontend before its content.
abbrev pub head_lines : Bytes → Bytes → Bytes → Bytes → List Bytes
head_lines from to date title =
    (codes "From: <" ++ (from ++ codes ">"))
    ∷ (codes "To: <" ++ (to ++ codes ">"))
    ∷ (codes "Date: " ++ date)
    ∷ (codes "Subject: " ++ title)
    ∷ []

pub mail_text-lines :
    (from to date title content : Bytes) (cs : List Bytes)
    → content ++ crlf ≡ lines_text cs
    → mail_text from to date title content ≡ lines_text (head_lines from to date title ++ cs) ++ dot
mail_text-lines from to date title content cs e =
    let head = head_lines from to date title in
    lines_text-append head (content ∷ codes "." ∷ [])
    ∙ ap (λ l. lines_text head ++ (l ++ dot)) e
    ∙ sym (append_assoc (lines_text head) (lines_text cs) dot)
    ∙ ap (λ l. l ++ dot) (sym (lines_text-append head cs))
