-- ===== src/Prelude/Ordered.antt =====
-- `std::map` and `std::set`: association lists in the order of their keys.
-- An interface to the order of the keys, its two instances, and the laws of the operations.
use Prim.Native.Nat.{ℕ, ◌+◌, compare, Ordering}
use mathlib.Core.Path.{◌≡◌, refl}
use mathlib.Core.Logic.{◌↔◌}
use mathlib.Core.Bool.{Bool, true, false}
use mathlib.Core.List.{List, [], ◌∷◌}
use native.Mathlib.Omega.{arith}
use cis505_penn_cloud.Prelude.Int.{ℤ, pos_part, neg_part}

pub record Ordered {ℓ} (K : Type ℓ) : Type ℓ where
  pub cmp : K → K → Ordering
  pub cmp_iff : (a b : K) → (cmp a b ≡ Ordering.eq) ↔ (a ≡ b)

abbrev pub is_eq : Ordering → Bool
is_eq o = elim o [ Ordering.eq ↦ true | _ ↦ false ]

abbrev pub cmp_ℤ : ℤ → ℤ → Ordering
cmp_ℤ a b = compare (pos_part a + neg_part b) (pos_part b + neg_part a)

pub cmp_ℤ_iff : (a b : ℤ) → (cmp_ℤ a b ≡ Ordering.eq) ↔ (a ≡ b)
cmp_ℤ_iff a b = ground arith

instance abbrev pub int_ordered : Ordered ℤ
int_ordered = record { cmp = cmp_ℤ; cmp_iff = cmp_ℤ_iff }

-- The order of `std::string`: by bytes, a proper prefix first.
abbrev pub cmp_bytes : List ℕ → List ℕ → Ordering
cmp_bytes [] [] = Ordering.eq
cmp_bytes [] (y ∷ ys) = Ordering.lt
cmp_bytes (x ∷ xs) [] = Ordering.gt
cmp_bytes (x ∷ xs) (y ∷ ys) =
    let rest = cmp_bytes xs ys in
    elim (compare x y) [
      | Ordering.lt ↦ Ordering.lt
      | Ordering.gt ↦ Ordering.gt
      | Ordering.eq ↦ rest
    ]

pub cmp_bytes_iff : (a b : List ℕ) → (cmp_bytes a b ≡ Ordering.eq) ↔ (a ≡ b)
cmp_bytes_iff [] [] = (λ h. refl, λ h. refl)
cmp_bytes_iff [] (y ∷ ys) = (λ h. cc, λ h. cc)
cmp_bytes_iff (x ∷ xs) [] = (λ h. cc, λ h. cc)
cmp_bytes_iff (x ∷ xs) (y ∷ ys) = ground (arith, cmp_bytes_iff xs ys)

instance abbrev pub bytes_ordered : Ordered (List ℕ)
bytes_ordered = record { cmp = cmp_bytes; cmp_iff = cmp_bytes_iff }

-- Equality of keys.
abbrev pub same {ℓ} : {K : Type ℓ} ⦃o : Ordered K⦄ → K → K → Bool
same ⦃o⦄ a b = is_eq (o.cmp a b)

module _ {ℓ} {K : Type ℓ} ⦃o : Ordered K⦄ where
  pub same_iff : (a b : K) → (same a b ≡ true) ↔ (a ≡ b)
  same_iff a b = ground (arith, o.cmp_iff a b)

  pub same_refl : (a : K) → same a a ≡ true
  same_refl a = (same_iff a a).1 refl
