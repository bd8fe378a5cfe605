-- ===== src/Webmail/Input/Lines.antt =====
-- What the readers of webmail/webmail_utils.cc make of a line on a connection, and of its end.
use cis505_penn_cloud.Prelude.{
  ℕ, ◌+◌, ◌≡◌, refl, ap, ◌∙◌, false, not, ◌&&◌, [], ◌∷◌, ◌++◌, arith, ◌==◌, length,
}
use cis505_penn_cloud.Prelude.Ordered.{bytes_ordered, same}
use cis505_penn_cloud.Prelude.Text.{Bytes, codes, crlf, has, starts_with}
use cis505_penn_cloud.Kv.Outcome.{ok, ◌>>=◌}
use cis505_penn_cloud.Webmail.Input.{Input, longer, read_from, is_end}

-- The two bytes before a place do not end a line.
abbrev pub IsOpen : ℕ → ℕ → Type 0
IsOpen second last = (last == 10 && second == 13) ≡ false

read_from_stop :
    (stale coming : Bytes)
    → read_from 13 10 stale coming ≡ ok (record { line = []; stale = stale; coming = coming })
unfolding read_from
read_from_stop [] coming = refl
read_from_stop (old ∷ stale) [] = refl
read_from_stop (old ∷ stale) (c ∷ coming) = refl

pub read_from_byte :
    (second last old c : ℕ) (stale coming : Bytes)
    → IsOpen second last
    → read_from second last (old ∷ stale) (c ∷ coming)
      ≡ (read_from last c stale coming >>= λ r. ok (longer c r))
unfolding read_from
read_from_byte second last old c stale coming h = rw h refl

-- At the end of the connection the buffer's old byte is taken for a new one.
read_from_old :
    (second last old : ℕ) (stale : Bytes)
    → IsOpen second last
    → read_from second last (old ∷ stale) []
      ≡ (read_from last old stale [] >>= λ r. ok (longer old r))
unfolding read_from
read_from_old second last old stale h = rw h refl

abbrev pub end_line : Bytes → Bytes → Bytes → Input
end_line t stale coming = record { line = t ++ crlf; stale = stale; coming = coming }

pub read_from-line :
    (second last : ℕ) (t rest over stale : Bytes)
    → IsOpen second last
    → has 10 t ≡ false
    → length over ≡ length t + 2
    → read_from second last (over ++ stale) (t ++ crlf ++ rest) ≡ ok (end_line t stale rest)
unfolding has
read_from-line second last t rest [] stale o h e = absurd (omega (arith, e))
read_from-line second last t rest (x ∷ []) stale o h e = absurd (omega (arith, e))
read_from-line second last [] rest (x ∷ y ∷ []) stale o h e =
    read_from_byte second last x 13 (y ∷ stale) (10 ∷ rest) o
    ∙ ap (λ m. m >>= λ r. ok (longer 13 r))
        (read_from_byte last 13 y 10 stale rest refl
          ∙ ap (λ m. m >>= λ r. ok (longer 10 r)) (read_from_stop stale rest))
read_from-line second last [] rest (x ∷ y ∷ z ∷ over) stale o h e = absurd (omega (arith, e))
read_from-line second last (c ∷ t) rest (x ∷ y ∷ over) stale o h e =
    read_from_byte second last x c ((y ∷ over) ++ stale) (t ++ crlf ++ rest) o
    ∙ ap (λ m. m >>= λ r. ok (longer c r))
        (read_from-line last c t rest (y ∷ over) stale (ground arith) (ground arith)
          (omega (arith, e)))

pub read_from-closed :
    (second last : ℕ) (t stale : Bytes)
    → IsOpen second last
    → has 10 t ≡ false
    → read_from second last (t ++ crlf ++ stale) [] ≡ ok (end_line t stale [])
unfolding has
read_from-closed second last [] stale o h =
    read_from_old second last 13 (10 ∷ stale) o
    ∙ ap (λ m. m >>= λ r. ok (longer 13 r))
        (read_from_old last 13 10 stale refl
          ∙ ap (λ m. m >>= λ r. ok (longer 10 r)) (read_from_stop stale []))
read_from-closed second last (c ∷ t) stale o h =
    read_from_old second last c (t ++ crlf ++ stale) o
    ∙ ap (λ m. m >>= λ r. ok (longer c r))
        (read_from-closed last c t stale (ground arith) (ground arith))

-- A line that is read ends a mail exactly if it is a dot.
starts_with-dot :
    (t stale : Bytes)
    → has 10 t ≡ false
    → starts_with (codes "." ++ crlf) ((t ++ crlf) ++ stale) ≡ same t (codes ".")
unfolding has starts_with
starts_with-dot [] stale h = refl
starts_with-dot (c ∷ []) stale h = ground arith
starts_with-dot (c ∷ d ∷ []) stale h = ground arith
starts_with-dot (c ∷ d ∷ e ∷ t) stale h = ground arith

pub is_end-line :
    (currlen : ℕ) (t stale coming : Bytes)
    → has 10 t ≡ false
    → is_end currlen (end_line t stale coming) ≡ (not (currlen == 0) && same t (codes "."))
is_end-line currlen t stale coming h = ap (λ b. not (currlen == 0) && b) (starts_with-dot t stale h)
