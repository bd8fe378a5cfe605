-- ===== src/Webmail/Send/Letters.antt =====
-- How `handle_send` of webmail/webmail_utils.cc reads a mail line by line.
use cis505_penn_cloud.Prelude.{
  ℕ, zero, suc, ◌+◌, ◌<◌, ◌≡◌, refl, sym, ap, ◌∙◌, true, false, not, ◌&&◌, List, [], ◌∷◌, ◌++◌,
  arith, All, ◌==◌, length, length-append, append_assoc,
}
use cis505_penn_cloud.Prelude.Ordered.{bytes_ordered, same}
use cis505_penn_cloud.Prelude.Text.{Bytes, codes, crlf, has, has-append}
use cis505_penn_cloud.Kv.Outcome.{Outcome, ok, ◌>>=◌, >>=-ext, >>=_assoc}
use cis505_penn_cloud.Frontend.Text.{c_str}
use cis505_penn_cloud.Frontend.Backend.{lines_text}
use cis505_penn_cloud.Frontend.Mails.Lines.{dot}
use cis505_penn_cloud.Webmail.Input.{read_command, is_end}
use cis505_penn_cloud.Webmail.Input.Lines.{IsOpen, end_line, read_from-line, is_end-line}
use cis505_penn_cloud.Webmail.Send.{Letter, add_line, read_letter, zeros}

pub c_str-zero : (t s : Bytes) → has 0 t ≡ false → c_str (t ++ 0 ∷ s) ≡ t
unfolding has c_str
c_str-zero [] s h = refl
c_str-zero (c ∷ t) s h = ground (arith, c_str-zero t s)

-- A buffer with room for a line and a zero byte.
pub split_buffer :
    (n : ℕ) (buffer : Bytes)
    → n < length buffer
    → (over : Bytes) × (z : ℕ) × (stale : Bytes) × (buffer ≡ over ++ z ∷ stale) × (length over ≡ n)
split_buffer n [] h = absurd (omega (arith, h))
split_buffer zero (z ∷ stale) h = ([], z, stale, refl, refl)
split_buffer (suc n) (c ∷ buffer) h =
    let (over, z, stale, e, l) = split_buffer n buffer (omega (arith, h)) in
    (c ∷ over, z, stale, ap (◌∷◌ c) e, omega (arith, l))

-- A line that fits into the buffer, and can be read as a text.
abbrev pub IsLine : ℕ → Bytes → Type 0
IsLine size t = (has 10 t ≡ false) × (has 0 t ≡ false) × (length t + 2 < size)

after_line :
    (fuel : ℕ) (before : ℕ × ℕ) (currlen : ℕ) (buffer t coming left : Bytes) (z : ℕ) (stale : Bytes)
    (m : Letter)
    → has 10 t ≡ false
    → has 0 t ≡ false
    → (not (currlen == 0) && same t (codes ".")) ≡ false
    → read_command before buffer coming ≡ ok (end_line t (z ∷ stale) left)
    → read_letter (suc fuel) before currlen buffer coming m ≡ (
        add_line (t ++ crlf) m >>= λ m'.
        read_letter fuel before (length (t ++ crlf)) ((t ++ crlf) ++ 0 ∷ stale) left m')
unfolding read_letter
after_line fuel before currlen buffer t coming left z stale m h10 h0 goes read =
    let text : c_str ((t ++ crlf) ++ 0 ∷ stale) ≡ t ++ crlf =
      c_str-zero (t ++ crlf) stale (has-append 0 t crlf ∙ unfold has in rw h0 refl) in
    let more : is_end currlen (end_line t (z ∷ stale) left) ≡ false =
      is_end-line currlen t (z ∷ stale) left h10 ∙ goes in
    rw (read, more, text) refl

pub read_letter-line :
    (fuel : ℕ) (before : ℕ × ℕ) (currlen : ℕ) (buffer t rest : Bytes) (m : Letter)
    → IsOpen before.0 before.1
    → IsLine (length buffer) t
    → (not (currlen == 0) && same t (codes ".")) ≡ false
    → (buffer' : Bytes) × (length buffer' ≡ length buffer)
      × (read_letter (suc fuel) before currlen buffer (t ++ crlf ++ rest) m ≡ (
          add_line (t ++ crlf) m >>= λ m'.
          read_letter fuel before (length (t ++ crlf)) buffer' rest m'))
unfolding read_command
read_letter-line fuel before currlen buffer t rest m o l goes =
    let (over, z, stale, e, n) = split_buffer (length t + 2) buffer l.2 in
    let read : read_command before buffer (t ++ crlf ++ rest) ≡ ok (end_line t (z ∷ stale) rest) =
      ap (λ b. read_command before b (t ++ crlf ++ rest)) e
      ∙ read_from-line before.0 before.1 t rest over (z ∷ stale) o l.0 n in
    (
      (t ++ crlf) ++ 0 ∷ stale,
      omega (
        arith,
        ap length e,
        n,
        length-append {0} over (z ∷ stale),
        length-append {0} (t ++ crlf) (0 ∷ stale),
        length-append {0} t crlf,
      ),
      after_line fuel before currlen buffer t (t ++ crlf ++ rest) rest z stale m l.0 l.1 goes read,
    )

read_letter-dot :
    (fuel : ℕ) (before : ℕ × ℕ) (currlen : ℕ) (buffer rest : Bytes) (m : Letter)
    → IsOpen before.0 before.1
    → 3 < length buffer
    → (currlen == 0) ≡ false
    → read_letter (suc fuel) before currlen buffer (dot ++ rest) m
      ≡ ok (record m { text = m.text ++ dot }, rest)
unfolding read_letter read_command has c_str
read_letter-dot fuel before currlen buffer rest m o l more =
    let (over, z, stale, e, n) = split_buffer 3 buffer l in
    let read : read_command before buffer (dot ++ rest)
        ≡ ok (end_line (codes ".") (z ∷ stale) rest) =
      ap (λ b. read_command before b (dot ++ rest)) e
      ∙ read_from-line before.0 before.1 (codes ".") rest over (z ∷ stale) o refl n in
    let is_dot : is_end currlen (end_line (codes ".") (z ∷ stale) rest) ≡ true =
      is_end-line currlen (codes ".") (z ∷ stale) rest refl ∙ rw more refl in
    rw (read, is_dot) refl

-- The lines of a mail one after the other.
abbrev pub add_lines : List Bytes → Letter → Outcome Letter
add_lines [] m = ok m
add_lines (t ∷ ts) m = add_line (t ++ crlf) m >>= add_lines ts

abbrev pub IsMailLine : ℕ → Bytes → Type 0
IsMailLine size t = IsLine size t × (same t (codes ".") ≡ false)

abbrev finished : Bytes → Letter → Outcome (Letter × Bytes)
finished rest m = ok (record m { text = m.text ++ dot }, rest)

length-crlf : (t : Bytes) → (length (t ++ crlf) == 0) ≡ false
length-crlf t = ground (arith, length-append t crlf)

lines_text-cons :
    (t : Bytes) (ts : List Bytes) (rest : Bytes)
    → lines_text (t ∷ ts) ++ dot ++ rest ≡ t ++ crlf ++ (lines_text ts ++ dot ++ rest)
lines_text-cons t ts rest =
    ap (λ l. l ++ rest) (append_assoc (t ++ crlf) (lines_text ts) dot)
    ∙ append_assoc (t ++ crlf) (lines_text ts ++ dot) rest

read_letter_from :
    (fuel : ℕ) (before : ℕ × ℕ) (currlen size : ℕ) (buffer : Bytes) (ts : List Bytes) (rest : Bytes)
    (m : Letter)
    → IsOpen before.0 before.1
    → 3 < size
    → length buffer ≡ size
    → All (IsMailLine size) ts
    → (currlen == 0) ≡ false
    → length ts < fuel
    → read_letter fuel before currlen buffer (lines_text ts ++ dot ++ rest) m
      ≡ (add_lines ts m >>= finished rest)
read_letter_from zero before currlen size buffer ts rest m o b sized l more f =
    absurd (omega (arith, f))
read_letter_from (suc fuel) before currlen size buffer [] rest m o b sized l more f =
    read_letter-dot fuel before currlen buffer rest m o (omega (arith, b, sized)) more
read_letter_from (suc fuel) before currlen size buffer (t ∷ ts) rest m o b sized l more f =
    let fits : IsLine (length buffer) t = (l.0.0.0, l.0.0.1, omega (arith, l.0.0.2, sized)) in
    let (buffer', sized', step) =
      read_letter-line fuel before currlen buffer t (lines_text ts ++ dot ++ rest) m o fits
        (rw (more, l.0.1) refl) in
    ap (λ text. read_letter (suc fuel) before currlen buffer text m) (lines_text-cons t ts rest)
    ∙ step
    ∙ >>=-ext (add_line (t ++ crlf) m) _ _ (λ m'.
      read_letter_from fuel before (length (t ++ crlf)) size buffer' ts rest m' o b (sized' ∙ sized)
        l.1 (length-crlf t) (omega (arith, f)))
    ∙ sym (>>=_assoc (add_line (t ++ crlf) m) (add_lines ts) (finished rest))

-- A mail of one or more lines up to a dot is read line by line, and what stands behind it is left: no
-- line but the last is a dot, none holds a newline or a zero byte, and each fits into the buffer with
-- its end and a zero byte.
pub read_letter-lines :
    (fuel : ℕ) (before : ℕ × ℕ) (t : Bytes) (ts : List Bytes) (rest : Bytes) (m : Letter)
    → IsOpen before.0 before.1
    → All (IsMailLine 1024) (t ∷ ts)
    → length ts + 1 < fuel
    → read_letter fuel before 0 (zeros 1024) (lines_text (t ∷ ts) ++ dot ++ rest) m
      ≡ (add_lines (t ∷ ts) m >>= λ m'. ok (record m' { text = m'.text ++ dot }, rest))
read_letter-lines zero before t ts rest m o l f = absurd (omega (arith, f))
read_letter-lines (suc fuel) before t ts rest m o l f =
    let (buffer', sized, step) =
      read_letter-line fuel before 0 (zeros 1024) t (lines_text ts ++ dot ++ rest) m o l.0.0 refl in
    ap (λ text. read_letter (suc fuel) before 0 (zeros 1024) text m) (lines_text-cons t ts rest)
    ∙ step
    ∙ >>=-ext (add_line (t ++ crlf) m) _ _ (λ m'.
      read_letter_from fuel before (length (t ++ crlf)) 1024 buffer' ts rest m' o (omega arith)
        sized l.1 (length-crlf t) (omega (arith, f)))
    ∙ sym (>>=_assoc (add_line (t ++ crlf) m) (add_lines ts) (finished rest))
