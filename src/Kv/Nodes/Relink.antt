-- ===== src/Kv/Nodes/Relink.antt =====
-- What the relinking of nodes in kvstore/lrucache.cc does to the list of users.
use cis505_penn_cloud.Prelude.{
  All-append, ℕ, ◌≡◌, refl, sym, ◌≢◌, none, some, List, [], ◌∷◌, ◌++◌, arith, ◌==◌, if◌then◌else◌,
}
use cis505_penn_cloud.Kv.Outcome.{Outcome, ok, ◌>>=◌}
use cis505_penn_cloud.Kv.Nodes.{Heap, update, tail, head, move_to_tail, unlink}
use cis505_penn_cloud.Kv.Nodes.Chain.{
  IsChain, Avoids, next-last, appended, appended-IsChain, without, without-IsChain, next-prev,
  prev-next, prev_of_chain, next_of_chain, last_of_chain,
}

-- From head to tail through these nodes, none of which is a sentinel.
abbrev pub IsList : Heap → List ℕ → Type 0
IsList h xs = IsChain h head xs tail × Avoids head xs × Avoids tail xs

pub move_to_tail-appended :
    (n p : ℕ) (h : Heap) → n ≢ tail → h.prev tail ≡ some p → move_to_tail n h ≡ ok (appended h p n)
unfolding move_to_tail
move_to_tail-appended n p h nt last =
    let e : update (update h.prev n (h.prev tail)) tail (some n) n ≡ some p = ground arith in rw e

pub unlink-without :
    (n p q : ℕ) (h : Heap) → h.prev n ≡ some p → h.next n ≡ some q → unlink n h ≡ ok (without h p q)
unfolding unlink
unlink-without n p q h ep eq =
    let e : (if p == n then some q else some q) ≡ some q = ground arith in rw (ep, eq, e)

abbrev pub relink : ℕ → Heap → Outcome Heap
relink current h = do h1 ← unlink current h; move_to_tail current h1

Avoids-middle :
    (m n : ℕ) (xs ys : List ℕ) → Avoids m (xs ++ n ∷ ys) → (n ≢ m) × Avoids m xs × Avoids m ys
Avoids-middle m n [] ys v = (v.0, tt, v.1)
Avoids-middle m n (x ∷ xs) ys v =
    let (nm, vx, vy) = Avoids-middle m n xs ys v.1 in (nm, (v.0, vx), vy)

module _ (n : ℕ) (h : Heap) where
  -- A node that is in no list goes to the end of the list.
  pub move_to_tail-IsList :
      (xs : List ℕ)
      → n ≢ head
      → n ≢ tail
      → Avoids n xs
      → IsList h xs
      → (h' : Heap) × (move_to_tail n h ≡ ok h')
        × IsList h' (xs ++ n ∷ [])
        × (h'.value ≡ h.value)
        × (h'.key ≡ h.key)
  move_to_tail-IsList xs nh nt vn (c, vh, vt) =
      let (p, last) = last_of_chain h head tail xs c in
      let link = next-last h head tail p xs c last in
      (
        appended h p n,
        move_to_tail-appended n p h nt last,
        (
          appended-IsChain h head p n xs last link nt (λ e. nh (sym e)) vt vn c,
          All-append (λ x. x ≢ head) xs (n ∷ []) vh (nh, tt),
          All-append (λ x. x ≢ tail) xs (n ∷ []) vt (nt, tt),
        ),
        refl,
        refl,
      )

  -- A node of the list that is unlinked first and then moved is the last of the list, and the others
  -- keep their order.
  pub relink-IsList :
      (xs ys : List ℕ)
      → Avoids n xs
      → Avoids n ys
      → IsList h (xs ++ n ∷ ys)
      → (h' : Heap) × (relink n h ≡ ok h')
        × IsList h' ((xs ++ ys) ++ n ∷ [])
        × (h'.value ≡ h.value)
        × (h'.key ≡ h.key)
  relink-IsList xs ys vx vy (c, vh, vt) =
      let (nh, hx, hy) = Avoids-middle head n xs ys vh in
      let (nt, tx, ty) = Avoids-middle tail n xs ys vt in
      let (p, ep) = prev_of_chain h head n tail xs ys c in
      let (q, eq) = next_of_chain h head n tail xs ys c in
      let np = next-prev h head p n tail xs ys c ep in
      let nq = prev-next h head q n tail xs ys c eq in
      let c' =
        without-IsChain h head p q n tail xs ys ep eq np nq (λ e. nh (sym e)) (λ e. nt (sym e)) vx
          vy c in
      let (last, lp) = last_of_chain (without h p q) head tail (xs ++ ys) c' in
      let link = next-last (without h p q) head tail last (xs ++ ys) c' lp in
      (
        appended (without h p q) last n,
        rw (unlink-without n p q h ep eq) (move_to_tail-appended n last (without h p q) nt lp),
        (
          appended-IsChain (without h p q) head last n (xs ++ ys) lp link nt (λ e. nh (sym e))
              (All-append (λ x. x ≢ tail) xs ys tx ty) (All-append (λ x. x ≢ n) xs ys vx vy) c',
          All-append (λ x. x ≢ head) (xs ++ ys) (n ∷ []) (All-append (λ x. x ≢ head) xs ys hx hy)
              (nh, tt),
          All-append (λ x. x ≢ tail) (xs ++ ys) (n ∷ []) (All-append (λ x. x ≢ tail) xs ys tx ty)
              (nt, tt),
        ),
        refl,
        refl,
      )

-- A node that is moved without being unlinked, as `put_helper` does for a user in memory: where it
-- was the first of several, the head still points at it and it now points at the tail, so that all
-- the other nodes are lost to the walk from the head.
pub move_to_tail_linked :
    (n y : ℕ) (h : Heap) (ys : List ℕ)
    → Avoids n (y ∷ ys)
    → IsList h (n ∷ y ∷ ys)
    → h.next tail ≡ none
    → (h' : Heap) × (move_to_tail n h ≡ ok h')
      × (h'.next head ≡ some n)
      × (h'.next n ≡ some tail)
      × (h'.next tail ≡ none)
move_to_tail_linked n y h ys vn (c, vh, vt) end =
    let (p, last) = last_of_chain h head tail (n ∷ y ∷ ys) c in
    let link = next-last h head tail p (n ∷ y ∷ ys) c last in
    let nt = vt.0 in
    (appended h p n, move_to_tail-appended n p h nt last, ground arith, ground arith, ground arith)
