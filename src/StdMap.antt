-- ===== src/StdMap.antt =====
-- `std::map` and `std::set` of the C++ library, as the program uses them: association lists that
-- `insert` keeps in the order of their keys, which is the order of the program's iterations.
use Prim.Native.Nat.{Ordering}
use cis505_penn_cloud.Prelude.{
  ◌≡◌, refl, ◌≢◌, Bool, true, false, Option, none, some, List, [], ◌∷◌, arith, if◌then◌else◌,
}
use cis505_penn_cloud.Prelude.Ordered.{Ordered, same, same_iff}

abbrev pub StdMap {ℓ κ} : Type ℓ → Type κ → Type (ℓ ⊔ κ)
StdMap K V = List (K × V)

abbrev pub keys {ℓ κ} : {K : Type ℓ} {V : Type κ} → StdMap K V → List K
keys [] = []
keys ((k, v) ∷ m) = k ∷ keys m

module _ {ℓ κ} {K : Type ℓ} {V : Type κ} ⦃o : Ordered K⦄ where
  -- `m.find(k)`: the value, if the key is there.
  unfoldable pub lookup : K → StdMap K V → Option V
  lookup k [] = none
  lookup k ((j, v) ∷ m) = if same j k then some v else lookup k m

  -- `m[k] = v`
  unfoldable pub insert : K → V → StdMap K V → StdMap K V
  insert k v [] = (k, v) ∷ []
  insert k v ((j, w) ∷ m) =
      let rest = insert k v m in
      elim (o.cmp k j) [
        | Ordering.lt ↦ (k, v) ∷ (j, w) ∷ m
        | Ordering.eq ↦ (k, v) ∷ m
        | Ordering.gt ↦ (j, w) ∷ rest
      ]

  -- `m.erase(k)`
  unfoldable pub erase : K → StdMap K V → StdMap K V
  erase k [] = []
  erase k ((j, v) ∷ m) = let rest = erase k m in if same j k then rest else (j, v) ∷ rest

  -- `m.count(k)`, which is 0 or 1.
  abbrev pub contains : K → StdMap K V → Bool
  contains k m = elim (lookup k m) [ none ↦ false | some _ ↦ true ]

  -- `m[k]` where it is read: an absent key gives the value-initialised default.
  abbrev pub lookup_or : V → K → StdMap K V → V
  lookup_or d k m = elim (lookup k m) [ none ↦ d | some v ↦ v ]

  pub lookup-insert :
      (k j : K) (v : V) (m : StdMap K V)
      → lookup j (insert k v m) ≡ (if same k j then some v else lookup j m)
  unfolding lookup insert
  lookup-insert k j v [] = refl
  lookup-insert k j v ((i, w) ∷ m) =
      ground (arith, o.cmp_iff k i, o.cmp_iff i j, o.cmp_iff k j, lookup-insert k j v m)

  pub lookup-erase :
      (k j : K) (m : StdMap K V) → lookup j (erase k m) ≡ (if same k j then none else lookup j m)
  unfolding lookup erase
  lookup-erase k j [] = ground arith
  lookup-erase k j ((i, w) ∷ m) =
      ground (arith, o.cmp_iff i k, o.cmp_iff i j, o.cmp_iff k j, lookup-erase k j m)

  pub lookup-insert_self : (k : K) (v : V) (m : StdMap K V) → lookup k (insert k v m) ≡ some v
  lookup-insert_self k v m = ground (arith, lookup-insert k k v m, same_iff k k)

  -- The last value that is set for a key stays.
  pub insert_again : (k : K) (v w : V) (m : StdMap K V) → insert k w (insert k v m) ≡ insert k w m
  unfolding insert
  insert_again k v w [] = ground (arith, o.cmp_iff k k)
  insert_again k v w ((i, u) ∷ m) =
      ground (arith, o.cmp_iff k i, o.cmp_iff k k, insert_again k v w m)

  pub lookup-insert_ne :
      (k j : K) (v : V) (m : StdMap K V) → k ≢ j → lookup j (insert k v m) ≡ lookup j m
  lookup-insert_ne k j v m h = ground (arith, lookup-insert k j v m, same_iff k j)

  pub lookup-erase_self : (k : K) (m : StdMap K V) → lookup k (erase k m) ≡ none
  lookup-erase_self k m = ground (arith, lookup-erase k k m, same_iff k k)

  pub lookup-erase_ne : (k j : K) (m : StdMap K V) → k ≢ j → lookup j (erase k m) ≡ lookup j m
  lookup-erase_ne k j m h = ground (arith, lookup-erase k j m, same_iff k j)
