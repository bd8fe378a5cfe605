-- ===== src/Master/Ring.antt =====
-- The server table of master/master.cc and `get_server_id`, the successor on the ring.
use mathlib.Core.Path.{subst}
use cis505_penn_cloud.Prelude.{
  ◌≡◌, refl, sym, ◌⊎◌, inl, inr, Bool, false, ◌&&◌, List, [], ◌∷◌, arith, if◌then◌else◌, Bool-cases,
  All,
}
use cis505_penn_cloud.Prelude.Int.{ℤ, pos, negsuc, ◌≤ℤ◌, ◌<ℤ◌, ltb_ℤ, leb_ℤ}
use cis505_penn_cloud.Prelude.Text.{Bytes}
use cis505_penn_cloud.StdMap.{StdMap, keys}

-- An address whose port was never set holds no port.
pub record Server : Type 0 where
  pub id : ℤ
  pub ip : Bytes
  pub port : ℤ
  pub running : Bool

pub record Pair : Type 0 where
  pub primary : Server
  pub secondary : Server

-- The loop from the second entry on, with the id before it.
unfoldable pub next_id : ℤ → ℤ → ℤ → List ℤ → ℤ
next_id head key prev [] = head
next_id head key prev (current ∷ ids) =
    if leb_ℤ prev key && ltb_ℤ key current then current else next_id head key current ids

abbrev successor : ℤ → List ℤ → ℤ
successor key [] = negsuc 0
successor key (head ∷ ids) =
    if leb_ℤ (pos 0) key && ltb_ℤ key head then head else next_id head key head ids

-- get corresponding next-higher backend server id
unfoldable pub get_server_id : StdMap ℤ Pair → ℤ → ℤ
unfolding next_id
get_server_id servers key = successor key (keys servers)

-- The ids in strictly rising order, as the keys of a map are.
abbrev pub Above : ℤ → List ℤ → Type 0
Above a ids = All (λ b. a <ℤ b) ids

abbrev pub IsRising : List ℤ → Type 0
IsRising [] = Unit
IsRising (a ∷ ids) = Above a ids × IsRising ids

abbrev pub Among : ℤ → List ℤ → Type 0
Among a [] = ⊥
Among a (b ∷ ids) = (a ≡ b) ⊎ Among a ids

-- `r` owns `key`: it is the least id above the key, or the first id where none is above.
pub record Owns (head : ℤ) (ids : List ℤ) (key r : ℤ) : Type 0 where
  pub member : Among r ids
  pub nearest :
      ((key <ℤ r) × All (λ b. (b ≤ℤ key) ⊎ (r ≤ℤ b)) ids) ⊎ ((r ≡ head) × All (λ b. b ≤ℤ key) ids)

Above-nearest : (key a : ℤ) (ids : List ℤ) → Above a ids → All (λ b. (b ≤ℤ key) ⊎ (a ≤ℤ b)) ids
Above-nearest key a [] h = tt
Above-nearest key a (b ∷ ids) h = (inr (omega arith), Above-nearest key a ids h.1)

-- What the loop finds among the ids behind the current one.
abbrev Next : ℤ → ℤ → List ℤ → ℤ → Type 0
Next head key ids r =
    (Among r ids × (key <ℤ r) × All (λ b. (b ≤ℤ key) ⊎ (r ≤ℤ b)) ids)
    ⊎ ((r ≡ head) × All (λ b. b ≤ℤ key) ids)

Next-cons :
    (head key a r : ℤ) (ids : List ℤ) → a ≤ℤ key → Next head key ids r → Next head key (a ∷ ids) r
Next-cons head key a r ids low (inl (among, above, nearest)) =
    inl (inr among, above, (inl low, nearest))
Next-cons head key a r ids low (inr (back, all)) = inr (back, (low, all))

-- Behind an id that is not above the key, the loop finds the least id above it, or goes back to the
-- head.
next_id-Next :
    (head key prev : ℤ) (ids : List ℤ)
    → prev ≤ℤ key
    → IsRising (prev ∷ ids)
    → Next head key ids (next_id head key prev ids)
unfolding next_id
next_id-Next head key prev [] h up = inr (refl, tt)
next_id-Next head key prev (a ∷ ids) h up = elim (Bool-cases (ltb_ℤ key a)) [
  | inl above ↦
      let here : next_id head key prev (a ∷ ids) ≡ a = ground arith in
      subst (Next head key (a ∷ ids)) (sym here)
        (inl (inl refl, ground arith, (inr (omega arith), Above-nearest key a ids up.1.0)))
  | inr below ↦
      let low : a ≤ℤ key = ground arith in
      let further : next_id head key prev (a ∷ ids) ≡ next_id head key a ids = ground arith in
      subst (Next head key (a ∷ ids)) (sym further)
        (Next-cons head key a _ ids low (next_id-Next head key a ids low up.1))
]

-- Below the first id no test of the loop passes.
next_id_below :
    (head key prev : ℤ) (ids : List ℤ)
    → key <ℤ prev
    → IsRising (prev ∷ ids)
    → next_id head key prev ids ≡ head
unfolding next_id
next_id_below head key prev [] h up = refl
next_id_below head key prev (a ∷ ids) h up =
    let further : (leb_ℤ prev key && ltb_ℤ key a) ≡ false = ground arith in
    let above : prev <ℤ a = up.0.0 in
    let higher : key <ℤ a = omega arith in rw further (next_id_below head key a ids higher up.1)

Owns-first :
    (head key : ℤ) (ids : List ℤ) → key <ℤ head → Above head ids → Owns head (head ∷ ids) key head
Owns-first head key ids h up = record {
  member = inl refl;
  nearest = inl (h, (inr (omega arith), Above-nearest key head ids up));
}

Owns-Next :
    (head key r : ℤ) (ids : List ℤ)
    → head ≤ℤ key
    → Next head key ids r
    → Owns head (head ∷ ids) key r
Owns-Next head key r ids low (inl (among, above, nearest)) = record {
  member = inr among;
  nearest = inl (above, (inl low, nearest));
}
Owns-Next head key r ids low (inr (back, all)) = record {
  member = inl back;
  nearest = inr (back, (low, all));
}

successor-Owns :
    (head key : ℤ) (ids : List ℤ)
    → IsRising (head ∷ ids)
    → Owns head (head ∷ ids) key (successor key (head ∷ ids))
successor-Owns head key ids up = elim (Bool-cases (ltb_ℤ key head)) [
  | inl below ↦
      let low : key <ℤ head = ground arith in
      let first : successor key (head ∷ ids) ≡ head =
        ground (arith, next_id_below head key head ids low up) in
      subst (Owns head (head ∷ ids) key) (sym first) (Owns-first head key ids low up.0)
  | inr above ↦
      let low : head ≤ℤ key = ground arith in
      let loop : successor key (head ∷ ids) ≡ next_id head key head ids = ground arith in
      subst (Owns head (head ∷ ids) key) (sym loop)
        (Owns-Next head key _ ids low (next_id-Next head key head ids low up))
]

-- Consistent hashing: on a table with at least one server, `get_server_id` returns the id on the
-- ring that owns the key. This is an id of the table, the least one above the key if some id is above
-- it, and the first id otherwise.
pub get_server_id-Owns :
    (head : ℤ) (pair : Pair) (rest : StdMap ℤ Pair) (key : ℤ)
    → IsRising (head ∷ keys rest)
    → Owns head (head ∷ keys rest) key (get_server_id ((head, pair) ∷ rest) key)
unfolding get_server_id
get_server_id-Owns head pair rest key up = successor-Owns head key (keys rest) up
