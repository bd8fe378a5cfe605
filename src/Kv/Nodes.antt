-- ===== src/Kv/Nodes.antt =====
-- `Node` of kvstore/node.h and the doubly linked list of kvstore/lrucache.cc, on a heap.
pub mod Chain
pub mod Relink
pub mod SelfLink
use mathlib.Core.Option
use cis505_penn_cloud.Prelude.{ℕ, ◌+◌, Option, none, some, [], ◌==◌, if◌then◌else◌}
use cis505_penn_cloud.Prelude.Text.{Bytes}
use cis505_penn_cloud.StdMap.{StdMap}
use cis505_penn_cloud.Kv.Outcome.{Outcome, ok, fault, ◌>>=◌}

-- Addresses are numbers; the two sentinels come first.
abbrev pub head : ℕ
head = 0

abbrev pub tail : ℕ
tail = 1

-- A null pointer is `none`. The nodes below `fresh` have been allocated.
pub record Heap : Type 0 where
  pub prev : ℕ → Option ℕ
  pub next : ℕ → Option ℕ
  pub key : ℕ → Bytes
  pub value : ℕ → StdMap Bytes Bytes
  pub fresh : ℕ

abbrev pub update {ℓ} : {A : Type ℓ} → (ℕ → A) → ℕ → A → ℕ → A
update f i a j = if i == j then a else f j

-- `*p` for a pointer that may be null.
abbrev pub deref : Option ℕ → Outcome ℕ
deref none = fault
deref (some p) = ok p

-- `new Node(key)`, and the constructor of the cache, which links the sentinels.
unfoldable pub new_node : Bytes → Heap → Heap
new_node key h = record h {
  prev = update h.prev h.fresh none;
  next = update h.next h.fresh none;
  key = update h.key h.fresh key;
  value = update h.value h.fresh [];
  fresh = h.fresh + 1;
}

unfoldable pub init_nodes : Heap
init_nodes = record {
  prev = update (λ _. none) tail (some head);
  next = update (λ _. none) head (some tail);
  key = λ _. [];
  value = λ _. [];
  fresh = 2;
}

unfoldable pub move_to_tail : ℕ → Heap → Outcome Heap
move_to_tail current h =
    let h1 = record h { prev = update h.prev current (h.prev tail) } in
    let h2 = record h1 { prev = update h1.prev tail (some current) } in
    do
      before ← deref (h2.prev current)
      let h3 = record h2 { next = update h2.next before (some current) }
      ok (record h3 { next = update h3.next current (some tail) })

-- "remove current" of `get_helper`.
unfoldable pub unlink : ℕ → Heap → Outcome Heap
unlink current h = do
  before ← deref (h.prev current)
  let h1 = record h { next = update h.next before (h.next current) }
  after ← deref (h1.next current)
  ok (record h1 { prev = update h1.prev after (h1.prev current) })
