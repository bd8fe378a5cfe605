-- ===== src/Kv/Meta/Records.antt =====
-- The text of one record of the metadata of kvstore/chunkserver.cc, and of a list of records.
use cis505_penn_cloud.Prelude.{
  ℕ, ◌<◌, ◌^◌, ◌≡◌, refl, ap, ◌∙◌, ◌≢◌, false, some, List, [], ◌∷◌, ◌++◌, arith, map,
}
use cis505_penn_cloud.Prelude.Int.{pos}
use cis505_penn_cloud.Prelude.Ordered.{bytes_ordered}
use cis505_penn_cloud.Prelude.Text.{has, fields, fields-append, fields_rest, has-append}
use cis505_penn_cloud.Prelude.Decimal.{
  print_nat, print_int, stoi, has-print_nat, stoi-print_int, is_digit,
}
use cis505_penn_cloud.Kv.Outcome.{ok}
use cis505_penn_cloud.Kv.Store.{Extent}
use cis505_penn_cloud.Kv.Meta.{extent_text, extents_text, rebuild_vector, numbers}

-- The numbers of an extent are those of an `int`.
abbrev pub IsBounded : Extent → Type 0
IsBounded e = (e.chunk < 2 ^ 31) × (e.start < 2 ^ 31) × (e.len < 2 ^ 31)

stoi-print_nat : (n : ℕ) → n < 2 ^ 31 → stoi (print_nat n) ≡ some (pos n)
unfolding print_int
stoi-print_nat n h = stoi-print_int (pos n) (ground arith)

fields-extent_text :
    (e : Extent)
    → fields b',' (extent_text e) ≡ (print_nat e.chunk ∷ print_nat e.start ∷ [], print_nat e.len)
fields-extent_text e = ground (
  arith,
  fields-append b',' (print_nat e.chunk) (print_nat e.start ++ b',' ∷ print_nat e.len),
  fields-append b',' (print_nat e.start) (print_nat e.len),
  fields_rest b',' (print_nat e.len),
  has-print_nat b',' e.chunk,
  has-print_nat b',' e.start,
  has-print_nat b',' e.len,
)

numbers-print_nat :
    (e : Extent)
    → IsBounded e
    → numbers (print_nat e.chunk ∷ print_nat e.start ∷ []) (print_nat e.len) ≡ ok e
numbers-print_nat e (hc, hs, hl) =
    rw (stoi-print_nat e.chunk hc, stoi-print_nat e.start hs, stoi-print_nat e.len hl, numbers) refl

-- A record reads back.
pub rebuild_vector-extent_text : (e : Extent) → IsBounded e → rebuild_vector (extent_text e) ≡ ok e
unfolding rebuild_vector
rebuild_vector-extent_text e h =
    ap (λ f. numbers f.0 f.1) (fields-extent_text e) ∙ numbers-print_nat e h

-- A byte that no number and no delimiter is stands in no record.
has-extent_text :
    (d : ℕ) (e : Extent) → is_digit d ≡ false → d ≢ b',' → has d (extent_text e) ≡ false
unfolding has
has-extent_text d e h k = ground (
  arith,
  has-append d (print_nat e.chunk) (b',' ∷ (print_nat e.start ++ b',' ∷ print_nat e.len)),
  has-append d (print_nat e.start) (b',' ∷ print_nat e.len),
  has-print_nat d e.chunk,
  has-print_nat d e.start,
  has-print_nat d e.len,
)

pub has-extents_text :
    (d : ℕ) (es : List Extent)
    → is_digit d ≡ false
    → d ≢ b','
    → d ≢ b';'
    → has d (extents_text es) ≡ false
unfolding has extents_text
has-extents_text d [] h k l = refl
has-extents_text d (e ∷ es) h k l = ground (
  arith,
  has-append d (extent_text e) (b';' ∷ extents_text es),
  has-extent_text d e h k,
  has-extents_text d es h k l,
)

pub fields-extents_text :
    (es : List Extent) → fields b';' (extents_text es) ≡ (map extent_text es, [])
unfolding extents_text
fields-extents_text [] = unfold fields in refl
fields-extents_text (e ∷ es) =
    fields-append b';' (extent_text e) (extents_text es)
      (has-extent_text b';' e refl (ground arith))
    ∙ ap (λ f. (extent_text e ∷ f.0, f.1)) (fields-extents_text es)
