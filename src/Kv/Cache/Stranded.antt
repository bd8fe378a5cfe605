-- ===== src/Kv/Cache/Stranded.antt =====
-- `put_helper` of kvstore/lrucache.cc moves the node of a user in memory to the tail without taking it
-- out of the list first. What evictions then do.
use cis505_penn_cloud.Prelude.{
  ℕ, zero, suc, ◌+◌, ◌-◌, ◌≡◌, refl, ap, ◌≢◌, Bool, none, some, List, [], ◌∷◌, ◌++◌, arith, length,
  if◌then◌else◌, Option-cases, inl, inr, take, drop,
}
use cis505_penn_cloud.Prelude.Ordered.{bytes_ordered}
use cis505_penn_cloud.Prelude.Text.{Bytes}
use cis505_penn_cloud.StdMap.{lookup, insert, lookup_or}
use cis505_penn_cloud.Kv.Outcome.{ok, ◌>>=◌, >>=-eq-ok}
use cis505_penn_cloud.Kv.Nodes.{head, tail, update}
use cis505_penn_cloud.Kv.Nodes.Chain.{Avoids}
use cis505_penn_cloud.Kv.Nodes.Relink.{IsList, move_to_tail_linked}
use cis505_penn_cloud.Kv.Store.{Kind, virtual_memory, checkpoint, Store, chunk_size}
use cis505_penn_cloud.Kv.Disk.{
  info, clear_metadata, update_metadata, write_to_chunk, spread, format_row, value_size, next_chunk,
}
use cis505_penn_cloud.Kv.Cache.{use_virtual_memory, drop_first, files_of, set_files, store_old}

nodes-update_metadata :
    (kind : Kind) (user str : Bytes) (n : ℕ) (s : Store)
    → (update_metadata kind user str n s).nodes ≡ s.nodes
unfolding update_metadata
nodes-update_metadata virtual_memory user str n s = refl
nodes-update_metadata checkpoint user str n s = refl

nodes-clear_metadata :
    (kind : Kind) (user : Bytes) (s : Store) → (clear_metadata kind user s).nodes ≡ s.nodes
unfolding clear_metadata
nodes-clear_metadata virtual_memory user s = refl
nodes-clear_metadata checkpoint user s = refl

nodes-next_chunk : (kind : Kind) (s : Store) → (next_chunk kind s).nodes ≡ s.nodes
nodes-next_chunk virtual_memory s = refl
nodes-next_chunk checkpoint s = refl

nodes-spread :
    (kind : Kind) (user row : Bytes) (n start : ℕ) (s s' : Store)
    → spread kind user row n start s ≡ ok s'
    → s'.nodes ≡ s.nodes
unfolding spread
nodes-spread kind user row zero start s s' e = cc
nodes-spread kind user row (suc zero) start s s' e =
    let piece = drop start row in
    ground (
      arith,
      nodes-update_metadata kind user piece (length row - start) (next_chunk kind s),
      nodes-next_chunk kind s,
    )
nodes-spread kind user row (suc (suc n)) start s s' e =
    let piece = take chunk_size (drop start row) in
    let s1 = update_metadata kind user piece chunk_size (next_chunk kind s) in
    ground (
      arith,
      nodes-update_metadata kind user piece chunk_size (next_chunk kind s),
      nodes-next_chunk kind s,
      nodes-spread kind user row (suc n) (start + chunk_size) s1 s',
    )

pub nodes-write_to_chunk :
    (float_ceil : ℕ → ℕ) (user row : Bytes) (kind : Kind) (s s' : Store)
    → write_to_chunk float_ceil user row kind s ≡ ok s'
    → s'.nodes ≡ s.nodes
unfolding write_to_chunk
nodes-write_to_chunk float_ceil user row kind s s' e =
    let left = chunk_size - (info kind s).size in
    let s1 = clear_metadata kind user s in
    let n = float_ceil (length row - left) in
    ground (
      arith,
      nodes-clear_metadata kind user s,
      nodes-update_metadata kind user row (length row) s1,
      nodes-update_metadata kind user (take left row) left s1,
      nodes-spread kind user row n left (update_metadata kind user (take left row) left s1) s',
    )

next-drop_first :
    (size : ℕ) (s s' : Store) (n : ℕ)
    → s.nodes.next head ≡ some n
    → drop_first size s ≡ ok s'
    → (q : ℕ) × (s.nodes.next n ≡ some q) × (s'.nodes.next ≡ update s.nodes.next head (some q))
unfolding drop_first
next-drop_first size s s' n first e = elim (Option-cases (s.nodes.next n)) [
  | inl null ↦ absurd (ground arith)
  | inr (q, second) ↦ (q, second, ground arith)
]

pub used_at :
    (float_ceil : ℕ → ℕ) (s s' : Store) (n : ℕ)
    → s.nodes.next head ≡ some n
    → use_virtual_memory float_ceil s ≡ ok s'
    → (write_to_chunk float_ceil (s.nodes.key n) (format_row (files_of n s)) virtual_memory s
        >>= drop_first (value_size (files_of n s)))
      ≡ ok s'
unfolding use_virtual_memory
used_at float_ceil s s' n first e = rw first at e

-- What an eviction does to the links: the head points at the node behind the first.
next-use_virtual_memory :
    (float_ceil : ℕ → ℕ) (s s' : Store) (n : ℕ)
    → s.nodes.next head ≡ some n
    → use_virtual_memory float_ceil s ≡ ok s'
    → (q : ℕ) × (s.nodes.next n ≡ some q) × (s'.nodes.next ≡ update s.nodes.next head (some q))
next-use_virtual_memory float_ceil s s' n first e =
    let row = format_row (files_of n s) in
    let size = value_size (files_of n s) in
    let (s1, wrote, dropped) =
      >>=-eq-ok (write_to_chunk float_ceil (s.nodes.key n) row virtual_memory s) (drop_first size)
        (used_at float_ceil s s' n first e) in
    let same = ap (λ h. h.next) (nodes-write_to_chunk float_ceil _ row virtual_memory s s1 wrote) in
    let (q, second, links) = next-drop_first size s1 s' n (cc same) dropped in (q, cc same, cc same)

next-store_old :
    (user filename value : Bytes) (is_cput : Bool) (s s' : Store) (n y : ℕ) (ys : List ℕ)
    → lookup user s.tablets ≡ some n
    → Avoids n (y ∷ ys)
    → IsList s.nodes (n ∷ y ∷ ys)
    → s.nodes.next tail ≡ none
    → store_old user filename value is_cput s ≡ ok s'
    → (s'.nodes.next head ≡ some n) × (s'.nodes.next n ≡ some tail) × (s'.nodes.next tail ≡ none)
unfolding store_old
next-store_old user filename value is_cput s s' n y ys here vn list end e =
    let old = lookup_or [] filename (files_of n s) in
    let v = if is_cput then value else old ++ value in
    let s1 = set_files n (insert filename v (files_of n s)) s in
    let (h, moved, first, last, rest) = move_to_tail_linked n y s1.nodes ys vn list end in
    ground (arith, here, moved, first, last, rest)

-- A put, or a cput, to a user who is the first of several users in memory: the head still points at
-- him, so that he is the next to be evicted though he was the last to be used; that eviction leaves
-- the head pointing at the tail, and no further eviction succeeds (the null pointer behind the tail is
-- followed), though the other users are still in memory.
pub use_virtual_memory_stranded :
    (float_ceil : ℕ → ℕ) (user filename value : Bytes) (is_cput : Bool) (s s' s1 s2 : Store)
    (n y : ℕ) (ys : List ℕ)
    → lookup user s.tablets ≡ some n
    → Avoids n (y ∷ ys)
    → IsList s.nodes (n ∷ y ∷ ys)
    → s.nodes.next tail ≡ none
    → store_old user filename value is_cput s ≡ ok s'
    → use_virtual_memory float_ceil s' ≡ ok s1
    → (s'.nodes.next head ≡ some n)
      × (s1.nodes.next head ≡ some tail)
      × (use_virtual_memory float_ceil s1 ≢ ok s2)
use_virtual_memory_stranded float_ceil user filename value is_cput s s' s1 s2 n y ys here vn list
      end e e1 =
    let (first, last, rest) =
      next-store_old user filename value is_cput s s' n y ys here vn list end e in
    let (q, second, links) = next-use_virtual_memory float_ceil s' s1 n first e1 in
    let only : s1.nodes.next head ≡ some tail = ground arith in
    let null : s1.nodes.next tail ≡ none = ground arith in
    (
      first,
      only,
      λ e2.
          let (q', third, _) = next-use_virtual_memory float_ceil s1 s2 tail only e2 in
          cc (third, null),
    )
