-- ===== src/Kv/Nodes/SelfLink.antt =====
-- What happens to the list of kvstore/lrucache.cc when its last node is moved to the tail without
-- being unlinked, as `put_helper` does for a user in memory.
use cis505_penn_cloud.Prelude.{ℕ, ◌≡◌, ◌≢◌, some, arith}
use cis505_penn_cloud.Kv.Outcome.{ok}
use cis505_penn_cloud.Kv.Nodes.{Heap, tail, move_to_tail}
use cis505_penn_cloud.Kv.Nodes.Chain.{appended, without}
use cis505_penn_cloud.Kv.Nodes.Relink.{relink, move_to_tail-appended, unlink-without}

-- The last node is moved to the tail once more, a new node is added behind it, and the first of the
-- two is then unlinked and moved to the tail: the node before it still points at it, and it points at
-- the tail, so that the new node is lost to the walk along the list.
pub relink_loses :
    (p n m : ℕ) (h : Heap)
    → n ≢ tail
    → m ≢ tail
    → n ≢ m
    → p ≢ n
    → p ≢ m
    → h.prev tail ≡ some n
    → h.next p ≡ some n
    → (h1 : Heap) × (h2 : Heap) × (h3 : Heap) × (move_to_tail n h ≡ ok h1)
      × (move_to_tail m h1 ≡ ok h2)
      × (relink n h2 ≡ ok h3)
      × (h3.next p ≡ some n)
      × (h3.next n ≡ some tail)
relink_loses p n m h nt mt nm pn pm last next =
    let h1 = appended h n n in
    let last1 : h1.prev tail ≡ some n = ground arith in
    let h2 = appended h1 n m in
    let back : h2.prev n ≡ some n = ground arith in
    let on : h2.next n ≡ some m = ground arith in
    let out = without h2 n m in
    let last2 : out.prev tail ≡ some m = ground arith in
    let h3 = appended out m n in
    (
      h1,
      h2,
      h3,
      move_to_tail-appended n n h nt last,
      move_to_tail-appended m n h1 mt last1,
      rw (unlink-without n n m h2 back on) (move_to_tail-appended n m out nt last2),
      ground arith,
      ground arith,
    )
