-- ===== src/Kv/Cache/Puts.antt =====
-- `put` of kvstore/lrucache.cc for a user who is not known yet, where there is room.
use cis505_penn_cloud.Prelude.{
  ℕ, suc, ◌+◌, ◌≤◌, ◌<◌, ◌^◌, ◌≡◌, refl, sym, ap, ◌≢◌, Bool, true, false, none, some, List, [], ◌∷◌,
  ◌++◌, arith, length, leb, ltb, Bool-cases, inl, inr,
}
use cis505_penn_cloud.Prelude.Int.{ℤ, pos}
use cis505_penn_cloud.Prelude.Ordered.{bytes_ordered}
use cis505_penn_cloud.Prelude.Text.{Bytes}
use cis505_penn_cloud.Prelude.Decimal.{to_size, add_size, add_size_lem}
use cis505_penn_cloud.StdMap.{StdMap, lookup, insert, contains, lookup-insert_self}
use cis505_penn_cloud.Kv.Outcome.{ok}
use cis505_penn_cloud.Kv.Nodes.{Heap, head, tail, new_node}
use cis505_penn_cloud.Kv.Nodes.Chain.{IsChain, Avoids}
use cis505_penn_cloud.Kv.Nodes.Relink.{IsList, move_to_tail-IsList}
use cis505_penn_cloud.Kv.Store.{Store}
use cis505_penn_cloud.Kv.Cache.{
  Put, put, put_helper, store_value, store_new, count_value, touch_size, total, exceeds, files_of,
  set_files, on_nodes, reply_put,
}

-- A node that is allocated is in no chain.
new_node-IsChain :
    (h : Heap) (user : Bytes) (m : ℕ → StdMap Bytes Bytes) (a b : ℕ) (xs : List ℕ)
    → a ≢ h.fresh
    → b ≢ h.fresh
    → Avoids h.fresh xs
    → IsChain h a xs b
    → IsChain (record (new_node user h) { value = m }) a xs b
unfolding new_node
new_node-IsChain h user m a b [] ha hb v c = ground arith
new_node-IsChain h user m a b (x ∷ xs) ha hb v c =
    (ground arith, ground arith, new_node-IsChain h user m x b xs v.0 hb v.1 c.2)

-- The store with the new node, before it is linked.
abbrev pub with_new : Bytes → Bytes → Bytes → Store → Store
with_new user filename value s =
    let n = s.nodes.fresh in
    let s1 = record s { nodes = new_node user s.nodes } in
    let s2 = set_files n (insert filename value (files_of n s1)) s1 in
    record s2 { tablets = insert user n s2.tablets }

store_new-IsList :
    (user filename value : Bytes) (s : Store) (xs : List ℕ)
    → s.nodes.fresh ≢ head
    → s.nodes.fresh ≢ tail
    → Avoids s.nodes.fresh xs
    → IsList s.nodes xs
    → (h : Heap) × (store_new user filename value s
        ≡ ok (record (with_new user filename value s) { nodes = h }))
      × IsList h (xs ++ s.nodes.fresh ∷ [])
      × (h.value s.nodes.fresh ≡ (filename, value) ∷ [])
unfolding store_new new_node insert
store_new-IsList user filename value s xs nh nt v (c, vh, vt) =
    let n = s.nodes.fresh in
    let w = with_new user filename value s in
    let c' =
      new_node-IsChain s.nodes user w.nodes.value head tail xs (λ e. nh (sym e)) (λ e. nt (sym e)) v
        c in
    let (h, moved, list, values, keys) = move_to_tail-IsList n w.nodes xs nh nt v (c', vh, vt) in
    (h, rw (moved, on_nodes) refl, list, ground (arith, ap (λ f. f n) values))

store_value_new :
    (put : Put) (user filename value : Bytes) (fd seq_num : ℤ) (s s1 : Store)
    → contains user s.tablets ≡ false
    → contains user s.virmem_meta ≡ false
    → store_new user filename value s ≡ ok s1
    → store_value put user filename value fd true false seq_num s
      ≡ ok (reply_put false fd user seq_num (count_value true user value s1))
unfolding store_value
store_value_new put user filename value fd seq_num s s1 ht hv stored =
    rw (ht, hv, stored, store_value) refl

pub put_helper_room :
    (put : Put) (user filename value : Bytes) (fd seq_num : ℤ) (s s1 : Store)
    → exceeds user value s ≡ false
    → leb (total s.memory_used (length value)) s.capacity ≡ true
    → store_value put user filename value fd true false seq_num (touch_size true user s) ≡ ok s1
    → put_helper put user filename value fd true false seq_num s ≡ ok (true, s1)
unfolding put_helper
put_helper_room put user filename value fd seq_num s s1 small room stored =
    rw (small, room, stored, put_helper) refl

-- A user who has no files yet counts 0 bytes.
exceeds_new :
    (user value : Bytes) (s : Store)
    → lookup user s.user_size ≡ none
    → length value < s.capacity
    → s.capacity < 2 ^ 31
    → exceeds user value s ≡ false
unfolding to_size
exceeds_new user value s absent lt small = ground (arith, absent)

pub total_room :
    (value : Bytes) (s : Store) (m : ℕ)
    → s.memory_used ≡ pos m
    → m + length value ≤ s.capacity
    → s.capacity < 2 ^ 31
    → leb (total s.memory_used (length value)) s.capacity ≡ true
unfolding to_size
total_room value s m used room small = ground (arith, used)

size_counted :
    (user value : Bytes) (s s1 : Store)
    → lookup user s.user_size ≡ none
    → length value < 2 ^ 31
    → s1.user_size ≡ (touch_size true user s).user_size
    → lookup user (count_value true user value s1).user_size ≡ some (pos (length value))
unfolding count_value
size_counted user value s s1 absent small e =
    let zero_size : lookup user s1.user_size ≡ some (pos 0) =
      ground (arith, e, absent, lookup-insert_self user (pos 0) s.user_size) in
    ground (
      arith,
      lookup-insert_self user (add_size (pos 0) (length value)) s1.user_size,
      add_size_lem 0 (length value) (omega arith),
      zero_size,
    )

-- A reply changes nothing but what has been sent.
pub reply_put_sent :
    (is_cput : Bool) (fd seq_num : ℤ) (user : Bytes) (s c : Store)
    → c.is_primary ≡ s.is_primary
    → c.sent ≡ s.sent
    → reply_put is_cput fd user seq_num c
      ≡ record c { sent = (reply_put is_cput fd user seq_num s).sent }
reply_put_sent is_cput fd seq_num user s c e f = elim (Bool-cases s.is_primary) [
  | inl primary ↦ rw (e, primary, f, reply_put) refl
  | inr secondary ↦ rw (e, secondary, f, reply_put) refl
]

-- A client's `put` for a user whom the node does not know, where the value fits into the memory that
-- is left: the call ends with its first round, the user is in memory at a new node with this one
-- file, the node is the last of the list, both counts have grown by the size of the value, nothing
-- of what is on disk has changed, and what is sent is the one reply.
pub put_new :
    (float_ceil : ℕ → ℕ) (fuel : ℕ) (user filename value : Bytes) (fd seq_num : ℤ) (s : Store)
    (m : ℕ) (xs : List ℕ)
    → lookup user s.tablets ≡ none
    → lookup user s.virmem_meta ≡ none
    → lookup user s.user_size ≡ none
    → s.memory_used ≡ pos m
    → m + length value ≤ s.capacity
    → length value < s.capacity
    → s.capacity < 2 ^ 31
    → s.nodes.fresh ≢ head
    → s.nodes.fresh ≢ tail
    → Avoids s.nodes.fresh xs
    → IsList s.nodes xs
    → (s' : Store) × (put float_ceil (suc fuel) user filename value fd true seq_num s ≡ ok s')
      × (s'.tablets ≡ insert user s.nodes.fresh s.tablets)
      × IsList s'.nodes (xs ++ s.nodes.fresh ∷ [])
      × (files_of s.nodes.fresh s' ≡ (filename, value) ∷ [])
      × (s'.memory_used ≡ pos (m + length value))
      × (lookup user s'.user_size ≡ some (pos (length value)))
      × (s'.virmem_meta ≡ s.virmem_meta)
      × (s'.files ≡ s.files)
      × (s'.sent ≡ (reply_put false fd user seq_num s).sent)
unfolding put count_value
put_new float_ceil fuel user filename value fd seq_num s m xs ht hv hu used room below small nh nt v
      list =
    let s0 = touch_size true user s in
    let (h, stored, linked, only) = store_new-IsList user filename value s0 xs nh nt v list in
    let w = record (with_new user filename value s0) { nodes = h } in
    let again : Put = λ u f v' t. put float_ceil fuel u f v' fd false (pos 0) t in
    let absent : contains user s.tablets ≡ false = rw (ht, contains) refl in
    let not_disk : contains user s.virmem_meta ≡ false = rw (hv, contains) refl in
    let valued = store_value_new again user filename value fd seq_num s0 w absent not_disk stored in
    let helped =
      put_helper_room again user filename value fd seq_num s _
        (exceeds_new user value s hu below small) (total_room value s m used room small) valued in
    let fits : ltb s.capacity (length value) ≡ false = ground arith in
    let c = count_value true user value w in
    (
      record c { sent = (reply_put false fd user seq_num s).sent },
      rw (fits, helped) (ap ok (reply_put_sent false fd seq_num user s c refl refl)),
      refl,
      linked,
      only,
      rw used (add_size_lem m (length value) (omega arith)),
      size_counted user value s w hu (omega arith) refl,
      refl,
      refl,
      refl,
    )
