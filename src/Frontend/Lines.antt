-- ===== src/Frontend/Lines.antt =====
-- What frontend/utils.cc makes of a line on a connection.
use cis505_penn_cloud.Prelude.{
  ℕ, ◌≡◌, refl, sym, ap, ◌∙◌, ◌≢◌, false, List, [], ◌∷◌, ◌++◌, arith, append_assoc, append-nil,
  if◌then◌else◌, ◌==◌,
}
use cis505_penn_cloud.Prelude.Text.{Bytes, crlf, has, fields, fields-append, fields_rest}
use cis505_penn_cloud.Kv.Ops.{is_empty}
use cis505_penn_cloud.Frontend.Text.{
  c_str, line_from, read_line, rep_line_from, read_rep_line, split,
}

line_from-append :
    (line t r : Bytes)
    → has 13 t ≡ false
    → has 10 t ≡ false
    → line_from false line (t ++ crlf ++ r) ≡ (line ++ t, r)
unfolding line_from has
line_from-append line [] r h k = ground (arith, append-nil line)
line_from-append line (c ∷ t) r h k =
    ground (arith, line_from-append (line ++ c ∷ []) t r, append_assoc line (c ∷ []) t)

rep_line_from-append :
    (line t r : Bytes)
    → has 13 t ≡ false
    → rep_line_from false line (t ++ crlf ++ r) ≡ (line ++ t, r)
unfolding rep_line_from has
rep_line_from-append line [] r h = ground (arith, append-nil line)
rep_line_from-append line (c ∷ t) r h =
    ground (arith, rep_line_from-append (line ++ c ∷ []) t r, append_assoc line (c ∷ []) t)

-- Up to a carriage return without a newline.
rep_line_from_return :
    (line t r : Bytes) (c : ℕ)
    → has 13 t ≡ false
    → c ≢ 10
    → rep_line_from false line (t ++ 13 ∷ c ∷ r) ≡ rep_line_from false (line ++ t ++ 13 ∷ []) r
unfolding rep_line_from has
rep_line_from_return line [] r c h k =
    let e : (c == 10) ≡ false = ground arith in
    ap (λ b. if b then (line, r) else rep_line_from false (line ++ 13 ∷ []) r) e
    ∙ ap (λ l. rep_line_from false (l ++ 13 ∷ []) r) (sym (append-nil line))
rep_line_from_return line (d ∷ t) r c h k =
    ground (arith, rep_line_from_return (line ++ d ∷ []) t r c, append_assoc line (d ∷ []) t)

-- Both readers give back a line that ends in a carriage return and a newline and holds neither, and
-- leave exactly what stands behind it.
pub read_line-append :
    (t r : Bytes)
    → has 13 t ≡ false
    → has 10 t ≡ false
    → (read_line (t ++ crlf ++ r) ≡ (t, r)) × (read_rep_line (t ++ crlf ++ r) ≡ (t, r))
unfolding read_line read_rep_line
read_line-append t r h k = (line_from-append [] t r h k, rep_line_from-append [] t r h)

-- A byte that follows a carriage return within a line, and is no newline, is lost.
pub read_rep_line_loses :
    (t u r : Bytes) (c : ℕ)
    → has 13 t ≡ false
    → has 13 u ≡ false
    → c ≢ 10
    → read_rep_line (t ++ 13 ∷ c ∷ (u ++ crlf ++ r)) ≡ (t ++ 13 ∷ u, r)
unfolding read_rep_line
read_rep_line_loses t u r c ht hu k =
    rep_line_from_return [] t (u ++ crlf ++ r) c ht k
    ∙ rep_line_from-append (t ++ 13 ∷ []) u r hu
    ∙ ap (λ l. (l, r)) (append_assoc t (13 ∷ []) u)

-- The pieces joined again, each with the delimiter behind it.
abbrev pub joined : ℕ → List Bytes → Bytes
joined d [] = []
joined d (t ∷ ts) = t ++ d ∷ joined d ts

abbrev pub Plain : ℕ → List Bytes → Type 0
Plain d [] = Unit
Plain d (t ∷ ts) = (has d t ≡ false) × Plain d ts

fields-joined :
    (d : ℕ) (ts : List Bytes) (r : Bytes)
    → Plain d ts
    → has d r ≡ false
    → fields d (joined d ts ++ r) ≡ (ts, r)
fields-joined d [] r p h = fields_rest d r h
fields-joined d (t ∷ ts) r p h = ground (
  arith,
  append_assoc t (d ∷ joined d ts) r,
  fields-append d t (joined d ts ++ r),
  fields-joined d ts r p.1 h,
)

-- `split` gives back the pieces that were joined by the delimiter, where none of them holds it and
-- the last is not empty; an empty last piece is left out.
pub split-joined :
    (d : ℕ) (ts : List Bytes) (r : Bytes)
    → Plain d ts
    → has d r ≡ false
    → split (joined d ts ++ r) d ≡ (if is_empty r then ts else ts ++ r ∷ [])
unfolding split
split-joined d ts r p h =
    ap (λ f. if is_empty f.1 then f.0 else f.0 ++ f.1 ∷ []) (fields-joined d ts r p h)

-- A text without a zero byte is read to its end.
pub c_str-plain : (t : Bytes) → has 0 t ≡ false → c_str t ≡ t
unfolding has c_str
c_str-plain [] h = refl
c_str-plain (c ∷ t) h = ground (arith, c_str-plain t)
