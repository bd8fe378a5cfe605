-- ===== src/Webmail/Input/Bounds.antt =====
-- The bounds of the buffer that webmail/webmail_utils.cc reads a line into.
use cis505_penn_cloud.Prelude.{
  ℕ, zero, suc, ◌+◌, ◌<◌, ◌≤◌, ◌≡◌, refl, sym, ap, ◌∙◌, false, inl, inr, [], ◌∷◌, ◌++◌, arith, ltb,
  length, take, drop, if◌then◌else◌, length-append, take-append-drop, length-drop, Bool-cases, leb,
}
use cis505_penn_cloud.Prelude.Text.{Bytes, crlf, has}
use cis505_penn_cloud.Kv.Outcome.{ok, fault, ◌>>=◌}
use cis505_penn_cloud.Webmail.Input.{longer, read_from, read_command, ended}
use cis505_penn_cloud.Webmail.Input.Lines.{IsOpen, end_line, read_from-line, read_from_byte}

read_from_end : (second : ℕ) (coming : Bytes) → read_from second 13 [] coming ≡ fault
unfolding read_from
read_from_end second coming = refl

read_from-full :
    (second last : ℕ) (t rest buffer : Bytes)
    → IsOpen second last
    → has 10 t ≡ false
    → length buffer < length t + 2
    → read_from second last buffer (t ++ crlf ++ rest) ≡ fault
unfolding has read_from
read_from-full second last t rest [] o h e = rw o refl
read_from-full second last [] rest (x ∷ []) o h e =
    read_from_byte second last x 13 [] (10 ∷ rest) o
    ∙ ap (λ m. m >>= λ r. ok (longer 13 r)) (read_from_end last (10 ∷ rest))
read_from-full second last [] rest (x ∷ y ∷ buffer) o h e = absurd (omega (arith, e))
read_from-full second last (c ∷ t) rest (x ∷ buffer) o h e =
    read_from_byte second last x c buffer (t ++ crlf ++ rest) o
    ∙ ap (λ m. m >>= λ r. ok (longer c r))
        (read_from-full last c t rest buffer (ground arith) (ground arith) (omega (arith, e)))

read_from-fits :
    (second last : ℕ) (t rest buffer : Bytes)
    → IsOpen second last
    → has 10 t ≡ false
    → length t + 2 ≤ length buffer
    → read_from second last buffer (t ++ crlf ++ rest)
      ≡ ok (end_line t (drop (length t + 2) buffer) rest)
read_from-fits second last t rest buffer o h e =
    let n = length t + 2 in
    let parts : take n buffer ++ drop n buffer ≡ buffer = take-append-drop n buffer in
    let sized : length (take n buffer) ≡ n = omega (
      arith,
      e,
      ap length parts,
      length-append (take n buffer) (drop n buffer),
      length-drop n buffer,
    ) in
    ap (λ b. read_from second last b (t ++ crlf ++ rest)) (sym parts)
    ∙ read_from-line second last t rest (take n buffer) (drop n buffer) o h sized

-- The zero byte behind a line takes the next place, if there is one.
ended_line :
    (n : ℕ) (t rest buffer : Bytes)
    → n ≤ length buffer
    → ended (end_line t (drop n buffer) rest) ≡ (
        if ltb n (length buffer)
        then ok (record { line = t ++ crlf; stale = 0 ∷ drop (n + 1) buffer; coming = rest })
        else fault)
ended_line zero t rest [] e = refl
ended_line zero t rest (x ∷ buffer) e = ground arith
ended_line (suc n) t rest [] e = absurd (omega (arith, e))
ended_line (suc n) t rest (x ∷ buffer) e =
    ground (arith, ended_line n t rest buffer (omega (arith, e)))

-- A line and the zero byte behind it are written into the buffer exactly if it has room for them: a
-- line that is as long as the buffer or longer is written past its end. The line holds no newline but
-- its last byte, and the bytes before the buffer do not end a line.
pub ended-read_command :
    (before : ℕ × ℕ) (t rest buffer : Bytes)
    → IsOpen before.0 before.1
    → has 10 t ≡ false
    → (read_command before buffer (t ++ crlf ++ rest) >>= ended) ≡ (
        if ltb (length t + 2) (length buffer)
        then ok
            (record { line = t ++ crlf; stale = 0 ∷ drop (length t + 2 + 1) buffer; coming = rest })
        else fault)
unfolding read_command
ended-read_command (second, last) t rest buffer o h =
    elim (Bool-cases (leb (length t + 2) (length buffer))) [
      | inl fits ↦
          ap (λ m. m >>= ended) (read_from-fits second last t rest buffer o h (ground arith))
          ∙ ended_line (length t + 2) t rest buffer (ground arith)
      | inr full ↦
          let long : length buffer < length t + 2 = ground arith in
          ap (λ m. m >>= ended) (read_from-full second last t rest buffer o h long) ∙ ground arith
    ]
