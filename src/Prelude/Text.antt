-- ===== src/Prelude/Text.antt =====
-- Byte strings: `std::string` and the `char*` lines of the program, and what the C++ library does
-- with them. A loop `while ((pos = s.find(d)) != npos)` that takes `s.substr(0, pos)` and erases it
-- with the delimiter runs through the pieces of `fields`.
use Prim.Native.Char.{code}
use Prim.Native.Nat.{ℕ, ◌+◌}
use Prim.Native.String.{String}
use mathlib.Core.Path.{◌≡◌, refl}
use mathlib.Core.Bool.{Bool, true, false, ◌&&◌, ◌||◌}
use mathlib.Core.Option.{Option, none, some}
use mathlib.Core.List.{List, [], ◌∷◌, ◌++◌}
use native.Mathlib.Omega.{arith}
use cis505_penn_cloud.Prelude.Tests.{leb, ◌==◌, if◌then◌else◌}

abbrev pub Bytes : Type 0
Bytes = List ℕ

-- The bytes of an ASCII literal.
abbrev pub codes : String → Bytes
codes String.[] = []
codes (String.◌∷◌ c s) = code c ∷ codes s

abbrev pub crlf : Bytes
crlf = 13 ∷ 10 ∷ []

-- `s.find(d) != npos` for one byte.
unfoldable pub has : ℕ → Bytes → Bool
has d [] = false
has d (c ∷ s) = c == d || has d s

-- `s.substr(0, s.find(d))` and what stands behind the delimiter.
unfoldable pub cut : ℕ → Bytes → Option (Bytes × Bytes)
cut d [] = none
cut d (c ∷ s) =
    if c == d
    then some ([], s)
    else (elim (cut d s) [ none ↦ none | some (t, r) ↦ some (c ∷ t, r) ])

abbrev pub push_byte : ℕ → List Bytes × Bytes → List Bytes × Bytes
push_byte c ([], r) = ([], c ∷ r)
push_byte c (t ∷ ts, r) = ((c ∷ t) ∷ ts, r)

-- The pieces that end in the delimiter, and the rest behind the last one.
unfoldable pub fields : ℕ → Bytes → List Bytes × Bytes
fields d [] = ([], [])
fields d (c ∷ s) = let (ts, r) = fields d s in if c == d then ([] ∷ ts, r) else push_byte c (ts, r)

pub cut-append : (d : ℕ) (t r : Bytes) → has d t ≡ false → cut d (t ++ d ∷ r) ≡ some (t, r)
unfolding has cut
cut-append d [] r h = ground arith
cut-append d (c ∷ t) r h = ground (arith, cut-append d t r)

pub cut-none : (d : ℕ) (t : Bytes) → has d t ≡ false → cut d t ≡ none
unfolding has cut
cut-none d [] h = refl
cut-none d (c ∷ t) h = ground (arith, cut-none d t)

pub fields-append :
    (d : ℕ) (t r : Bytes)
    → has d t ≡ false
    → fields d (t ++ d ∷ r) ≡ (t ∷ (fields d r).0, (fields d r).1)
unfolding has fields
fields-append d [] r h = ground arith
fields-append d (c ∷ t) r h = ground (arith, fields-append d t r)

pub fields_rest : (d : ℕ) (t : Bytes) → has d t ≡ false → fields d t ≡ ([], t)
unfolding has fields
fields_rest d [] h = refl
fields_rest d (c ∷ t) h = ground (arith, fields_rest d t)

pub has-append : (d : ℕ) (s t : Bytes) → has d (s ++ t) ≡ (has d s || has d t)
unfolding has
has-append d [] t = refl
has-append d (c ∷ s) t = ground (arith, has-append d s t)

-- `s.compare(0, p.size(), p) == 0`
unfoldable pub starts_with : Bytes → Bytes → Bool
starts_with [] s = true
starts_with (p ∷ ps) [] = false
starts_with (p ∷ ps) (c ∷ s) = p == c && starts_with ps s

-- `tolower`
unfoldable pub to_lower : ℕ → ℕ
to_lower c = if leb 65 c && leb c 90 then c + 32 else c
