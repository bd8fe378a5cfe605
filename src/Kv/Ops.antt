-- ===== src/Kv/Ops.antt =====
-- The reads and the other writes of `LRUCache`, kvstore/lrucache.cc: get, cput, dele, getlist,
-- getfile and rename. `-1` for a socket stands for nobody, as in the source.
pub mod Hits
pub mod Writes
pub mod PutGet
pub mod Lists
use cis505_penn_cloud.Prelude.{
  ℕ, zero, suc, ◌+◌, Bool, true, false, not, ◌&&◌, ◌||◌, Option, none, some, List, [], ◌∷◌, ◌++◌,
  if◌then◌else◌, ◌==◌, length, take,
}
use cis505_penn_cloud.Prelude.Int.{ℤ, pos}
use cis505_penn_cloud.Prelude.Ordered.{bytes_ordered, int_ordered, same}
use cis505_penn_cloud.Prelude.Text.{Bytes, codes, starts_with}
use cis505_penn_cloud.Prelude.Decimal.{sub_size}
use cis505_penn_cloud.StdMap.{StdMap, lookup, insert, erase, lookup_or, contains}
use cis505_penn_cloud.Kv.Outcome.{Outcome, ok, fault, ◌>>=◌}
use cis505_penn_cloud.Kv.Nodes.{Heap, move_to_tail, unlink}
use cis505_penn_cloud.Kv.Store.{Kind, virtual_memory, Store, send}
use cis505_penn_cloud.Kv.Cache.{
  Put, node_of, files_of, set_files, on_nodes, load_user_from_disk, put, put_helper, report_done,
}
use cis505_penn_cloud.Kv.Cache.Reply

abbrev pub is_empty {ℓ} : {A : Type ℓ} → List A → Bool
is_empty [] = true
is_empty (x ∷ xs) = false

-- The call of `put` by which `restore_user` stores a file again.
abbrev pub restore_put : (ℕ → ℕ) → ℕ → ℤ → Put
restore_put float_ceil fuel fd user filename value =
    put float_ceil fuel user filename value fd false (pos 0)

-- "remove current" and "move current to tail" of `get_helper`.
abbrev pub relink_user : ℕ → Store → Outcome Store
relink_user n s = do s1 ← on_nodes (unlink n) s; on_nodes (move_to_tail n) s1

-- The value of the file, or the reply that there is none.
unfoldable pub read_file_of : ℕ → Bytes → ℤ → Store → Option Bytes × Store
read_file_of n filename fd s = elim (lookup filename (files_of n s)) [
  | none ↦ (none, send fd Reply.no_such_file s)
  | some value ↦ (some value, s)
]

-- The part of `get_helper` behind the load, for a user who is there.
unfoldable pub hit : Bytes → Bytes → ℤ → Store → Outcome (Option Bytes × Store)
unfolding read_file_of
hit user filename fd s = do
  current ← node_of user s
  s1 ← relink_user current s
  ok (read_file_of current filename fd s1)

-- `user_size[user] -= n` and `memory_used -= n`
abbrev pub uncount : Bytes → ℕ → Store → Store
uncount user n s = record s {
  user_size = insert user (sub_size (lookup_or (pos 0) user s.user_size) n) s.user_size;
  memory_used = sub_size s.memory_used n;
}

unfoldable pub reply_dele : Bytes → ℤ → ℤ → Bool → Store → Store
reply_dele user fd seq_num is_migration s =
    if s.is_primary
    then (if not is_migration then send fd Reply.file_deleted s else s)
    else (if not (same seq_num (pos 0)) then report_done fd user seq_num s else s)

abbrev pub is_email : Bytes → Bool
is_email filename = starts_with (codes "##") filename

-- The end of `dele`: a user without files is not in memory any more.
abbrev pub drop_empty : Bytes → ℕ → Store → Store
drop_empty user n s =
    if is_empty (files_of n s) then record s { tablets = erase user s.tablets } else s

-- The part of `dele` behind `get_helper`.
unfoldable pub dele_found : Bytes → Bytes → ℤ → ℤ → Bool → Store → Outcome Store
unfolding reply_dele
dele_found user filename fd seq_num is_migration s = do
  n ← node_of user s
  let size = length (lookup_or [] filename (files_of n s))
  let s1 = uncount user size s
  let s2 = set_files n (erase filename (files_of n s1)) s1
  ok (drop_empty user n (reply_dele user fd seq_num is_migration s2))

module _ (float_ceil : ℕ → ℕ) (fuel : ℕ) where
  unfoldable pub get_helper : Bytes → Bytes → ℤ → Store → Outcome (Option Bytes × Store)
  unfolding hit
  get_helper user filename fd s =
      let loaded : Outcome Store =
        load_user_from_disk (restore_put float_ceil fuel fd) virtual_memory user s in
      let found : Outcome Store = if contains user s.virmem_meta then loaded else ok s in
      if contains user s.tablets || contains user s.virmem_meta
      then found >>= hit user filename fd
      else ok (none, send fd Reply.no_such_user s)

  -- What an operation does with the value that `get_helper` has found.
  abbrev pub with_value :
      Bytes → Bytes → ℤ → (Bytes → Store → Outcome Store) → Store → Outcome Store
  with_value user filename fd f s = do
    (value, s1) ← get_helper user filename fd s
    elim value [ none ↦ ok s1 | some v ↦ f v s1 ]

  unfoldable pub get : Bytes → Bytes → ℤ → Store → Outcome Store
  get user filename fd =
      with_value user filename fd λ value s. ok (send fd value (send fd Reply.value_follows s))

  -- The part of `cput` behind `get_helper`. The result of `put_helper` is dropped.
  unfoldable pub cput_found : Bytes → Bytes → Bytes → Bytes → ℤ → ℤ → Bytes → Store → Outcome Store
  cput_found user filename old_value new_value fd seq_num value s =
      let replaced : Outcome Store =
        put_helper (restore_put float_ceil fuel fd) user filename new_value fd true true seq_num
          (uncount user (length old_value) s)
        >>= λ r. ok r.1 in
      if same value old_value then replaced else ok (send fd Reply.version_check_fail s)

  unfoldable pub cput : Bytes → Bytes → Bytes → Bytes → ℤ → ℤ → Store → Outcome Store
  unfolding cput_found
  cput user filename old_value new_value fd seq_num =
      with_value user filename fd
        λ value s. cput_found user filename old_value new_value fd seq_num value s

  unfoldable pub dele : Bytes → Bytes → ℤ → ℤ → Bool → Store → Outcome Store
  unfolding dele_found
  dele user filename fd seq_num is_migration =
      with_value user filename fd λ _ s. dele_found user filename fd seq_num is_migration s

  unfoldable pub rename : Bytes → Bytes → Bytes → ℤ → ℤ → Store → Outcome Store
  rename user old_filename new_filename fd seq_num = with_value user old_filename fd λ value s. do
    n ← node_of user s
    let s1 = set_files n (insert new_filename value (erase old_filename (files_of n s))) s
    ok (if s1.is_primary then send fd Reply.file_renamed s1 else report_done fd user seq_num s1)

  -- The loops of `getlist` and `getfile`: the names that are listed, what is sent for each, and the
  -- number of the round.
  unfoldable pub list_loop :
      (Bytes → Bool)
      → (Bytes → Bytes → Bytes)
      → Bytes
      → ℤ
      → ℕ
      → StdMap Bytes Bytes
      → Store
      → Outcome Store
  list_loop wanted line user fd counter [] s = ok s
  list_loop wanted line user fd counter ((filename, _) ∷ m) s =
      let listed : Outcome Store =
        with_value user filename fd
          (λ value s'.
            let s1 = if counter == 0 then send fd Reply.list_follows s' else s' in
            ok (send fd (line filename value) s1))
          s in
      do
        s2 ← if wanted filename then listed else ok s
        list_loop wanted line user fd (counter + 1) m s2

  abbrev pub list_user :
      (Bytes → Bool) → (Bytes → Bytes → Bytes) → Bytes → ℤ → Store → Outcome Store
  list_user wanted line user fd s =
      let listed : Outcome Store =
        node_of user s >>= λ n. list_loop wanted line user fd 0 (files_of n s) s in
      if contains user s.tablets then listed else ok (send fd Reply.no_such_user s)

  unfoldable pub getlist : Bytes → Bytes → ℤ → Store → Outcome Store
  unfolding list_loop
  getlist user type =
      list_user
        (λ filename.
          (same type (codes "email") && is_email filename)
          || (same type (codes "file") && not (is_email filename)))
        (λ filename value. filename ++ b',' ∷ value ++ b',' ∷ []) user

  unfoldable pub getfile : Bytes → ℤ → Store → Outcome Store
  unfolding list_loop
  getfile user =
      list_user (λ filename. not (is_email filename)) (λ filename value. filename ++ b',' ∷ []) user
