-- ===== src/Kv/Cache.antt =====
-- `LRUCache` of kvstore/lrucache.cc: the operations on the users in memory.
-- `put` calls `put_helper`, which may load a user from disk by further calls of `put`: the recursion
-- takes fuel. What verbose mode prints is left out.
pub mod Reply
pub mod Puts
pub mod Appends
pub mod Evict
pub mod Restore
pub mod Stranded
use cis505_penn_cloud.Prelude.{
  ℕ, zero, suc, ◌+◌, ◌-◌, ◌%◌, ◌^◌, Bool, true, false, not, ◌&&◌, ◌||◌, Option, none, some, List,
  [], ◌∷◌, ◌++◌, if◌then◌else◌, ltb, leb, length, take, drop,
}
use cis505_penn_cloud.Prelude.Int.{ℤ, pos}
use cis505_penn_cloud.Prelude.Ordered.{bytes_ordered, same}
use cis505_penn_cloud.Prelude.Text.{Bytes, codes, crlf, fields, starts_with}
use cis505_penn_cloud.Prelude.Decimal.{print_int, to_size, add_size, sub_size}
use cis505_penn_cloud.StdMap.{StdMap, lookup, insert, erase, lookup_or, contains}
use cis505_penn_cloud.Kv.Outcome.{Outcome, ok, fault, timeout, ◌>>=◌}
use cis505_penn_cloud.Kv.Nodes.{Heap, head, tail, update, deref, new_node, move_to_tail, unlink}
use cis505_penn_cloud.Kv.Store.{
  Kind, virtual_memory, checkpoint, Extent, Store, send, memory_capacity,
}
use cis505_penn_cloud.Kv.Disk.{write_to_chunk, read_extents, format_row, value_size, meta, set_meta}
use cis505_penn_cloud.Kv.Cache.Reply

-- `tablets[user]`, of which the pointer is then followed: a user who is not there gets a null pointer.
abbrev pub node_of : Bytes → Store → Outcome ℕ
node_of user s = deref (lookup user s.tablets)

abbrev pub files_of : ℕ → Store → StdMap Bytes Bytes
files_of n s = s.nodes.value n

abbrev pub set_files : ℕ → StdMap Bytes Bytes → Store → Store
set_files n m s = record s { nodes = record s.nodes { value = update s.nodes.value n m } }

-- A call on the list of nodes.
abbrev pub on_nodes : (Heap → Outcome Heap) → Store → Outcome Store
on_nodes f s = do h ← f s.nodes; ok (record s { nodes = h })

-- The loop of `restore_user`: names and values by turns.
unfoldable pub restore_pieces :
    (Bytes → Bytes → Store → Outcome Store) → List Bytes → Store → Outcome Store
restore_pieces put [] s = ok s
restore_pieces put (filename ∷ []) s = ok s
restore_pieces put (filename ∷ value ∷ pieces) s =
    let s' = put filename value s in s' >>= restore_pieces put pieces

-- `load_user_from_disk`; `put user filename value` is the call that stores a file again.
unfoldable pub load_user_from_disk :
    (Bytes → Bytes → Bytes → Store → Outcome Store) → Kind → Bytes → Store → Outcome Store
unfolding restore_pieces
load_user_from_disk put kind user s =
    let extents = lookup_or [] user (meta kind s) in
    let s1 : Store = elim kind [
      | virtual_memory ↦ record s { virmem_meta = erase user s.virmem_meta }
      | checkpoint ↦ s
    ] in
    let text = read_extents kind extents s1.files in
    restore_pieces (put user) (fields b',' text).0 s1

-- The end of `use_virtual_memory`: the first user and his node are dropped, and the size of his
-- values is taken off.
unfoldable pub drop_first : ℕ → Store → Outcome Store
drop_first size s = do
  first ← deref (s.nodes.next head)
  let s1 = record s { tablets = erase (s.nodes.key first) s.tablets }
  second ← deref (s1.nodes.next first)
  let h = record s1.nodes {
    next = update s1.nodes.next head (some second);
    prev = update s1.nodes.prev second (some head);
  }
  ok (record s1 { nodes = h; memory_used = sub_size s1.memory_used size })

-- `use_virtual_memory`: the first user of the list goes to disk.
unfoldable pub use_virtual_memory : (ℕ → ℕ) → Store → Outcome Store
unfolding drop_first
use_virtual_memory float_ceil s = do
  lru_user ← deref (s.nodes.next head)
  let row = format_row (files_of lru_user s)
  let size = value_size (files_of lru_user s)
  s1 ← write_to_chunk float_ceil (s.nodes.key lru_user) row virtual_memory s
  drop_first size s1

-- The replies of a write.
abbrev pub report_done : ℤ → Bytes → ℤ → Store → Store
report_done fd user seq_num s = send fd (Reply.done user seq_num) s

abbrev pub reply_put : Bool → ℤ → Bytes → ℤ → Store → Store
reply_put is_cput fd user seq_num s =
    if s.is_primary
    then send fd (if is_cput then Reply.new_value_stored else Reply.value_stored) s
    else report_done fd user seq_num s

-- A size test of `put_helper`, on `size_t`.
abbrev pub total : ℤ → ℕ → ℕ
total used n = (to_size used + n) % 2 ^ 64

abbrev pub exceeds : Bytes → Bytes → Store → Bool
exceeds user value s = leb s.capacity (total (lookup_or (pos 0) user s.user_size) (length value))

-- The three cases of `put_helper`: a new user, a user in memory, a user in virtual memory.
unfoldable pub store_new : Bytes → Bytes → Bytes → Store → Outcome Store
store_new user filename value s =
    let n = s.nodes.fresh in
    let s1 = record s { nodes = new_node user s.nodes } in
    let s2 = set_files n (insert filename value (files_of n s1)) s1 in
    let s3 = record s2 { tablets = insert user n s2.tablets } in on_nodes (move_to_tail n) s3

unfoldable pub store_old : Bytes → Bytes → Bytes → Bool → Store → Outcome Store
store_old user filename value is_cput s = do
  n ← node_of user s
  let old = lookup_or [] filename (files_of n s)
  let s1 = set_files n (insert filename (if is_cput then value else old ++ value) (files_of n s)) s
  on_nodes (move_to_tail n) s1

abbrev pub Put : Type 0
Put = Bytes → Bytes → Bytes → Store → Outcome Store

-- "update used memory", and the size of the user where the call is counted.
unfoldable pub count_value : Bool → Bytes → Bytes → Store → Store
count_value counted user value s =
    let s1 = record s { memory_used = add_size s.memory_used (length value) } in
    if counted
    then record s1 {
      user_size =
          insert user (add_size (lookup_or (pos 0) user s.user_size) (length value)) s.user_size;
    }
    else s1

-- The part of `put_helper` behind its two size tests.
unfoldable pub store_value :
    Put → Bytes → Bytes → Bytes → ℤ → Bool → Bool → ℤ → Store → Outcome Store
unfolding store_new store_old load_user_from_disk count_value
store_value put user filename value fd external is_cput seq_num s =
    let in_memory = contains user s.tablets in
    let in_virmem = contains user s.virmem_meta in
    let load : Store → Outcome Store = λ s'.
      load_user_from_disk put virtual_memory user s' >>= store_old user filename value false in
    do
      s1 ← if not in_memory && not in_virmem then store_new user filename value s else ok s
      s2 ← if in_memory then store_old user filename value is_cput s1 else ok s1
      s3 ← if in_virmem then load s2 else ok s2
      let s4 = count_value (external || is_cput) user value s3
      ok (if external then reply_put is_cput fd user seq_num s4 else s4)

-- `user_size[user]` adds the user with size 0 where he is not in the map.
abbrev pub touch_size : Bool → Bytes → Store → Store
touch_size counted user s =
    if counted
    then record s { user_size = insert user (lookup_or (pos 0) user s.user_size) s.user_size }
    else s

unfoldable pub put_helper :
    Put → Bytes → Bytes → Bytes → ℤ → Bool → Bool → ℤ → Store → Outcome (Bool × Store)
unfolding store_value
put_helper put user filename value fd external is_cput seq_num s =
    let counted = external || is_cput in
    let s0 = touch_size counted user s in
    let stored : Outcome (Bool × Store) =
      store_value put user filename value fd external is_cput seq_num s0 >>= λ s'. ok (true, s') in
    if counted && exceeds user value s
    then ok (true, send fd Reply.storage_exceeds s0)
    else if leb (total s0.memory_used (length value)) s0.capacity
    then stored
    else ok (false, s0)

abbrev pub finish : (Store → Outcome Store) → Bool × Store → Outcome Store
finish again (finished, s) = if finished then ok s else again s

-- `put` with its loop: as long as there is no room, a user goes to disk.
unfoldable pub put : (ℕ → ℕ) → ℕ → Bytes → Bytes → Bytes → ℤ → Bool → ℤ → Store → Outcome Store
unfolding put_helper use_virtual_memory
put float_ceil zero user filename value fd external seq_num s = timeout
put float_ceil (suc fuel) user filename value fd external seq_num s =
    let restore : Put = λ u f v s'. put float_ceil fuel u f v fd false (pos 0) s' in
    let again : Store → Outcome Store = λ s'. use_virtual_memory float_ceil s' >>= λ s''.
    put float_ceil fuel user filename value fd external seq_num s'' in
    let round : Outcome Store =
      put_helper restore user filename value fd external false seq_num s >>= finish again in
    if ltb s.capacity (length value) then ok (send fd Reply.file_exceeds s) else round
