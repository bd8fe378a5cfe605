-- ===== src/Kv/Cache/Appends.antt =====
-- `put` of kvstore/lrucache.cc for a user in memory, where there is room.
use cis505_penn_cloud.Prelude.{
  ℕ, suc, ◌+◌, ◌≤◌, ◌<◌, ◌^◌, ◌≡◌, refl, ap, ◌≢◌, true, false, none, some, [], ◌++◌, arith, length,
  ltb,
}
use cis505_penn_cloud.Prelude.Int.{ℤ, pos}
use cis505_penn_cloud.Prelude.Ordered.{bytes_ordered}
use cis505_penn_cloud.Prelude.Text.{Bytes}
use cis505_penn_cloud.Prelude.Decimal.{to_size, add_size, add_size_lem}
use cis505_penn_cloud.StdMap.{lookup, insert, contains, lookup_or, lookup-insert_self}
use cis505_penn_cloud.Kv.Outcome.{ok}
use cis505_penn_cloud.Kv.Nodes.{tail}
use cis505_penn_cloud.Kv.Nodes.Chain.{appended}
use cis505_penn_cloud.Kv.Nodes.Relink.{move_to_tail-appended}
use cis505_penn_cloud.Kv.Store.{Store}
use cis505_penn_cloud.Kv.Cache.{
  Put, put, store_value, store_old, count_value, touch_size, exceeds, files_of, set_files, on_nodes,
  node_of, reply_put,
}
use cis505_penn_cloud.Kv.Cache.Puts.{put_helper_room, total_room, reply_put_sent}

-- The files of the user with the value appended to the file.
abbrev pub appended_files : Bytes → Bytes → ℕ → Store → Store
appended_files filename value n s =
    set_files n (insert filename (lookup_or [] filename (files_of n s) ++ value) (files_of n s)) s

store_old-appended :
    (user filename value : Bytes) (s : Store) (n p : ℕ)
    → lookup user s.tablets ≡ some n
    → n ≢ tail
    → s.nodes.prev tail ≡ some p
    → let s1 = appended_files filename value n s in
      store_old user filename value false s ≡ ok (record s1 { nodes = appended s1.nodes p n })
unfolding store_old
store_old-appended user filename value s n p here nt last =
    rw
      (
        here,
        node_of,
        move_to_tail-appended n p (appended_files filename value n s).nodes nt last,
        on_nodes,
        store_old,
      )
      refl

store_value_old :
    (put : Put) (user filename value : Bytes) (fd seq_num : ℤ) (s s1 : Store)
    → contains user s.tablets ≡ true
    → contains user s.virmem_meta ≡ false
    → store_old user filename value false s ≡ ok s1
    → store_value put user filename value fd true false seq_num s
      ≡ ok (reply_put false fd user seq_num (count_value true user value s1))
unfolding store_value
store_value_old put user filename value fd seq_num s s1 ht hv stored =
    rw (ht, hv, stored, store_value) refl

exceeds_not :
    (user value : Bytes) (s : Store) (u : ℕ)
    → lookup user s.user_size ≡ some (pos u)
    → u + length value < s.capacity
    → s.capacity < 2 ^ 31
    → exceeds user value s ≡ false
unfolding to_size
exceeds_not user value s u size lt small = ground (arith, size)

size_grown :
    (user value : Bytes) (s s1 : Store) (u : ℕ)
    → lookup user s.user_size ≡ some (pos u)
    → u + length value < 2 ^ 31
    → s1.user_size ≡ (touch_size true user s).user_size
    → lookup user (count_value true user value s1).user_size ≡ some (pos (u + length value))
unfolding count_value
size_grown user value s s1 u size small e =
    let touched : lookup user s1.user_size ≡ some (pos u) =
      ground (arith, e, size, lookup-insert_self user (pos u) s.user_size) in
    ground (
      arith,
      lookup-insert_self user (add_size (pos u) (length value)) s1.user_size,
      add_size_lem u (length value) small,
      touched,
    )

-- A client's `put` for a user in memory, where the value fits: the call ends with its first round, the
-- value is appended to what the file held before, the user's other files are as they were, both
-- counts grow by the size of the value, and what is sent is the one reply.
pub put_old :
    (float_ceil : ℕ → ℕ) (fuel : ℕ) (user filename value : Bytes) (fd seq_num : ℤ) (s : Store)
    (n p m u : ℕ)
    → lookup user s.tablets ≡ some n
    → lookup user s.virmem_meta ≡ none
    → lookup user s.user_size ≡ some (pos u)
    → s.memory_used ≡ pos m
    → m + length value ≤ s.capacity
    → u + length value < s.capacity
    → s.capacity < 2 ^ 31
    → n ≢ tail
    → s.nodes.prev tail ≡ some p
    → (s' : Store) × (put float_ceil (suc fuel) user filename value fd true seq_num s ≡ ok s')
      × (s'.tablets ≡ s.tablets)
      × (files_of n s'
          ≡ insert filename (lookup_or [] filename (files_of n s) ++ value) (files_of n s))
      × (s'.memory_used ≡ pos (m + length value))
      × (lookup user s'.user_size ≡ some (pos (u + length value)))
      × (s'.sent ≡ (reply_put false fd user seq_num s).sent)
unfolding put count_value
put_old float_ceil fuel user filename value fd seq_num s n p m u here hv size used room below small
      nt last =
    let s0 = touch_size true user s in
    let s1 = appended_files filename value n s0 in
    let w = record s1 { nodes = appended s1.nodes p n } in
    let again : Put = λ v f x t. put float_ceil fuel v f x fd false (pos 0) t in
    let there : contains user s.tablets ≡ true = rw (here, contains) refl in
    let not_disk : contains user s.virmem_meta ≡ false = rw (hv, contains) refl in
    let stored = store_old-appended user filename value s0 n p here nt last in
    let valued = store_value_old again user filename value fd seq_num s0 w there not_disk stored in
    let helped =
      put_helper_room again user filename value fd seq_num s _
        (exceeds_not user value s u size below small) (total_room value s m used room small)
        valued in
    let fits : ltb s.capacity (length value) ≡ false = ground arith in
    let c = count_value true user value w in
    (
      record c { sent = (reply_put false fd user seq_num s).sent },
      rw (fits, helped) (ap ok (reply_put_sent false fd seq_num user s c refl refl)),
      refl,
      ground arith,
      rw used (add_size_lem m (length value) (omega arith)),
      size_grown user value s w u size (omega arith) refl,
      refl,
    )
