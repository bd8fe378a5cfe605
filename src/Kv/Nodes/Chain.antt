-- ===== src/Kv/Nodes/Chain.antt =====
-- A list of nodes that is linked both ways.
use cis505_penn_cloud.Prelude.{ℕ, ◌≡◌, ◌≢◌, some, List, [], ◌∷◌, ◌++◌, arith, All}
use cis505_penn_cloud.Kv.Nodes.{Heap, update, tail}

-- From the node `a` the pointers `next` lead through the list to `b`, and `prev` back.
abbrev pub IsChain : Heap → ℕ → List ℕ → ℕ → Type 0
IsChain h a [] b = (h.next a ≡ some b) × (h.prev b ≡ some a)
IsChain h a (x ∷ xs) b = (h.next a ≡ some x) × (h.prev x ≡ some a) × IsChain h x xs b

abbrev pub Avoids : ℕ → List ℕ → Type 0
Avoids n xs = All (λ x. x ≢ n) xs

-- The node before the end points at the end.
pub next-last :
    (h : Heap) (a b p : ℕ) (xs : List ℕ) → IsChain h a xs b → h.prev b ≡ some p → h.next p ≡ some b
next-last h a b p [] c e = ground arith
next-last h a b p (x ∷ xs) c e = next-last h x b p xs c.2 e

-- The heap with `n` linked in before the tail, behind `p`.
abbrev pub appended : Heap → ℕ → ℕ → Heap
appended h p n = record h {
  prev = update (update h.prev n (h.prev tail)) tail (some n);
  next = update (update h.next p (some n)) n (some tail);
}

pub appended-IsChain :
    (h : Heap) (a p n : ℕ) (xs : List ℕ)
    → h.prev tail ≡ some p
    → h.next p ≡ some tail
    → n ≢ tail
    → a ≢ n
    → Avoids tail xs
    → Avoids n xs
    → IsChain h a xs tail
    → IsChain (appended h p n) a (xs ++ n ∷ []) tail
appended-IsChain h a p n [] last e nt an vt vn c = ground arith
appended-IsChain h a p n (x ∷ xs) last e nt an vt vn c =
    (ground arith, ground arith, appended-IsChain h x p n xs last e nt vn.0 vt.1 vn.1 c.2)

-- The heap with `n` taken out between `p` and `q`.
abbrev pub without : Heap → ℕ → ℕ → Heap
without h p q = record h { next = update h.next p (some q); prev = update h.prev q (some p) }

-- The part of a chain behind `n` does not see that `n` is taken out.
without_behind :
    (h : Heap) (a p q n b : ℕ) (ys : List ℕ)
    → h.next p ≡ some n
    → h.prev q ≡ some n
    → a ≢ n
    → b ≢ n
    → Avoids n ys
    → IsChain h a ys b
    → IsChain (without h p q) a ys b
without_behind h a p q n b [] e f an bn v c = ground arith
without_behind h a p q n b (y ∷ ys) e f an bn v c =
    (ground arith, ground arith, without_behind h y p q n b ys e f v.0 bn v.1 c.2)

-- The neighbours of a node of a chain point at it.
pub next-prev :
    (h : Heap) (a p n b : ℕ) (xs ys : List ℕ)
    → IsChain h a (xs ++ n ∷ ys) b
    → h.prev n ≡ some p
    → h.next p ≡ some n
next-prev h a p n b [] ys c e = ground arith
next-prev h a p n b (x ∷ xs) ys c e = next-prev h x p n b xs ys c.2 e

pub prev-next :
    (h : Heap) (a q n b : ℕ) (xs ys : List ℕ)
    → IsChain h a (xs ++ n ∷ ys) b
    → h.next n ≡ some q
    → h.prev q ≡ some n
prev-next h a q n b [] [] c e = ground arith
prev-next h a q n b [] (y ∷ ys) c e = ground arith
prev-next h a q n b (x ∷ xs) ys c e = prev-next h x q n b xs ys c.2 e

-- Every node of a chain has neighbours.
pub prev_of_chain :
    (h : Heap) (a n b : ℕ) (xs ys : List ℕ)
    → IsChain h a (xs ++ n ∷ ys) b
    → (p : ℕ) × (h.prev n ≡ some p)
prev_of_chain h a n b [] ys c = (a, c.1)
prev_of_chain h a n b (x ∷ xs) ys c = prev_of_chain h x n b xs ys c.2

pub next_of_chain :
    (h : Heap) (a n b : ℕ) (xs ys : List ℕ)
    → IsChain h a (xs ++ n ∷ ys) b
    → (q : ℕ) × (h.next n ≡ some q)
next_of_chain h a n b [] [] c = (b, c.2.0)
next_of_chain h a n b [] (y ∷ ys) c = (y, c.2.0)
next_of_chain h a n b (x ∷ xs) ys c = next_of_chain h x n b xs ys c.2

pub last_of_chain :
    (h : Heap) (a b : ℕ) (xs : List ℕ) → IsChain h a xs b → (p : ℕ) × (h.prev b ≡ some p)
last_of_chain h a b [] c = (a, c.1)
last_of_chain h a b (x ∷ xs) c = last_of_chain h x b xs c.2

pub without-IsChain :
    (h : Heap) (a p q n b : ℕ) (xs ys : List ℕ)
    → h.prev n ≡ some p
    → h.next n ≡ some q
    → h.next p ≡ some n
    → h.prev q ≡ some n
    → a ≢ n
    → b ≢ n
    → Avoids n xs
    → Avoids n ys
    → IsChain h a (xs ++ n ∷ ys) b
    → IsChain (without h p q) a (xs ++ ys) b
without-IsChain h a p q n b [] [] ep eq np pq an bn vx vy c = ground arith
without-IsChain h a p q n b [] (y ∷ ys) ep eq np pq an bn vx vy c =
    (ground arith, ground arith, without_behind h y p q n b ys np pq vy.0 bn vy.1 c.2.2)
without-IsChain h a p q n b (x ∷ xs) ys ep eq np pq an bn vx vy c =
    (ground arith, ground arith, without-IsChain h x p q n b xs ys ep eq np pq vx.0 bn vx.1 vy c.2)
