-- ===== src/Prelude/Positions.antt =====
-- Positions of bytes in a `std::string`; `none` is `npos`.
use Prim.Native.Nat.{ℕ, suc, ◌+◌, ◌≤◌}
use mathlib.Core.Path.{◌≡◌, refl, ap}
use mathlib.Core.Bool.{false, ◌&&◌}
use mathlib.Core.Option.{Option, none, some}
use mathlib.Core.List.{[], ◌∷◌, ◌++◌}
use native.Mathlib.Omega.{arith}
use cis505_penn_cloud.Prelude.Tests.{leb, ◌==◌, if◌then◌else◌}
use cis505_penn_cloud.Prelude.Lists.{length}
use cis505_penn_cloud.Prelude.Text.{Bytes, has}

-- `s.find_first_of(d, n)`
unfoldable pub index_from : ℕ → ℕ → ℕ → Bytes → Option ℕ
index_from i n d [] = none
index_from i n d (c ∷ s) =
    let later = index_from (suc i) n d s in if leb n i && c == d then some i else later

abbrev pub find_first_of : ℕ → ℕ → Bytes → Option ℕ
find_first_of d n s = index_from 0 n d s

-- The position behind a byte that was found; behind `npos` it is 0.
abbrev pub next_of : Option ℕ → ℕ
next_of o = elim o [ none ↦ 0 | some k ↦ k + 1 ]

pub index_from-append :
    (i n d : ℕ) (t r : Bytes)
    → has d t ≡ false
    → n ≤ i
    → index_from i n d (t ++ d ∷ r) ≡ some (i + length t)
unfolding index_from has
index_from-append i n d [] r h l = ground arith
index_from-append i n d (c ∷ t) r h l = ground (arith, index_from-append (suc i) n d t r)

pub index_from-none : (i n d : ℕ) (t : Bytes) → has d t ≡ false → index_from i n d t ≡ none
unfolding index_from has
index_from-none i n d [] h = refl
index_from-none i n d (c ∷ t) h = ground (arith, index_from-none (suc i) n d t)

-- Bytes that are passed over: they lie before the start, or are other ones.
pub index_from_before :
    (i n d : ℕ) (t r : Bytes)
    → i + length t ≤ n
    → index_from i n d (t ++ r) ≡ index_from (i + length t) n d r
unfolding index_from
index_from_before i n d [] r h = ap (λ k. index_from k n d r) (omega arith)
index_from_before i n d (c ∷ t) r h =
    let k : suc i + length t ≡ i + suc (length t) = omega arith in
    ground (arith, index_from_before (suc i) n d t r, k)

pub index_from_other :
    (i n d : ℕ) (t r : Bytes)
    → has d t ≡ false
    → index_from i n d (t ++ r) ≡ index_from (i + length t) n d r
unfolding index_from has
index_from_other i n d [] r h = ap (λ k. index_from k n d r) (omega arith)
index_from_other i n d (c ∷ t) r h =
    let k : suc i + length t ≡ i + suc (length t) = omega arith in
    ground (arith, index_from_other (suc i) n d t r, k)
