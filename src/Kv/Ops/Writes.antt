-- ===== src/Kv/Ops/Writes.antt =====
-- `dele` and `cput` of kvstore/lrucache.cc for a user in memory.
use mathlib.Core.Path.{subst}
use cis505_penn_cloud.Prelude.{
  ℕ, ◌-◌, ◌+◌, ◌^◌, ◌≤◌, ◌<◌, ◌≡◌, refl, sym, ap, ◌∙◌, Bool, true, none, some, List, [], ◌∷◌, ◌++◌,
  arith, if◌then◌else◌, length, Bool-cases, inl, inr,
}
use cis505_penn_cloud.Prelude.Int.{ℤ, pos}
use cis505_penn_cloud.Prelude.Ordered.{bytes_ordered, int_ordered, same_refl}
use cis505_penn_cloud.Prelude.Text.{Bytes}
use cis505_penn_cloud.Prelude.Decimal.{sub_size, sub_size_lem, to_size}
use cis505_penn_cloud.StdMap.{lookup, erase, lookup_or, lookup-insert_self}
use cis505_penn_cloud.Kv.Outcome.{Outcome, ok}
use cis505_penn_cloud.Kv.Nodes.{Heap}
use cis505_penn_cloud.Kv.Nodes.Chain.{Avoids}
use cis505_penn_cloud.Kv.Nodes.Relink.{IsList, relink-IsList}
use cis505_penn_cloud.Kv.Store.{Store, send}
use cis505_penn_cloud.Kv.Cache.{Put, files_of, set_files, node_of, exceeds, put_helper, touch_size}
use cis505_penn_cloud.Kv.Cache.Reply
use cis505_penn_cloud.Kv.Ops.{
  is_empty, with_value, uncount, reply_dele, dele_found, drop_empty, dele, cput, cput_found,
  restore_put,
}
use cis505_penn_cloud.Kv.Ops.Hits.{with_nodes, get_helper-hit, read_file_of_found}

-- A reply changes nothing but what has been sent.
reply_dele_sent :
    (user : Bytes) (fd seq_num : ℤ) (is_migration : Bool) (s c : Store)
    → c.is_primary ≡ s.is_primary
    → c.sent ≡ s.sent
    → reply_dele user fd seq_num is_migration c
      ≡ record c { sent = (reply_dele user fd seq_num is_migration s).sent }
unfolding reply_dele
reply_dele_sent user fd seq_num is_migration s c e f = ground (arith, e, f)

-- The state that a deletion leaves, on the nodes `h`.
abbrev deleted : Bytes → Bytes → Bytes → ℕ → ℤ → ℤ → Bool → Heap → Store → Store
deleted user filename value n fd seq_num is_migration h s =
    let s1 = uncount user (length value) (with_nodes h s) in
    let s2 = set_files n (erase filename (files_of n s1)) s1 in
    record s2 { sent = (reply_dele user fd seq_num is_migration s).sent }

dele_found_body :
    (user filename value : Bytes) (n : ℕ) (fd seq_num : ℤ) (is_migration : Bool) (h : Heap)
    (s : Store)
    → lookup user s.tablets ≡ some n
    → lookup filename (h.value n) ≡ some value
    → dele_found user filename fd seq_num is_migration (with_nodes h s)
      ≡ ok (drop_empty user n (deleted user filename value n fd seq_num is_migration h s))
unfolding dele_found
dele_found_body user filename value n fd seq_num is_migration h s here found =
    let s1 = uncount user (length value) (with_nodes h s) in
    let s2 = set_files n (erase filename (files_of n s1)) s1 in
    let e : lookup_or [] filename (h.value n) ≡ value = rw (found, lookup_or) refl in
    let step : Bytes → Outcome Store = λ v. ok (
      drop_empty user n (
        reply_dele user fd seq_num is_migration
          (set_files n (erase filename (h.value n)) (uncount user (length v) (with_nodes h s))))) in
    rw (here, node_of, dele_found)
      (ap step e
        ∙ ap (λ t. ok (drop_empty user n t))
            (reply_dele_sent user fd seq_num is_migration s s2 refl refl))

-- The files of a user whose file is gone, and whether he is still in memory.
drop_empty_fields :
    (user : Bytes) (n : ℕ) (s : Store)
    → let s' = drop_empty user n s in
      (s'.nodes ≡ s.nodes)
      × (s'.tablets ≡ (if is_empty (files_of n s) then erase user s.tablets else s.tablets))
      × (s'.memory_used ≡ s.memory_used)
      × (s'.user_size ≡ s.user_size)
drop_empty_fields user n s = elim (Bool-cases (is_empty (files_of n s))) [
  | inl e ↦ rw (e, drop_empty) (refl, refl, refl, refl)
  | inr e ↦ rw (e, drop_empty) (refl, refl, refl, refl)
]

size_after :
    (user value : Bytes) (s : Store) (u : ℕ)
    → lookup user s.user_size ≡ some (pos u)
    → length value ≤ u
    → u < 2 ^ 31
    → lookup user (uncount user (length value) s).user_size ≡ some (pos (u - length value))
size_after user value s u size hu lu = ground (
  arith,
  size,
  lookup-insert_self user (sub_size (pos u) (length value)) s.user_size,
  sub_size_lem u (length value) hu lu,
)

module _ (float_ceil : ℕ → ℕ) (fuel : ℕ) where
  -- A deletion of a file of a user in memory, where both counts cover the file: the file is gone and
  -- no other file of the user, both counts fall by the size of its value, and the user is in memory as
  -- long as a file is left. The user's node is the last of the list, also where no file is left and
  -- the user is not in memory any more.
  pub dele_hit :
      (user filename value : Bytes) (fd seq_num : ℤ) (is_migration : Bool) (s : Store) (n m u : ℕ)
      (xs ys : List ℕ)
      → lookup user s.tablets ≡ some n
      → lookup user s.virmem_meta ≡ none
      → lookup filename (files_of n s) ≡ some value
      → Avoids n xs
      → Avoids n ys
      → IsList s.nodes (xs ++ n ∷ ys)
      → s.memory_used ≡ pos m
      → lookup user s.user_size ≡ some (pos u)
      → length value ≤ m
      → length value ≤ u
      → m < 2 ^ 31
      → u < 2 ^ 31
      → (s' : Store) × (dele float_ceil fuel user filename fd seq_num is_migration s ≡ ok s')
        × (files_of n s' ≡ erase filename (files_of n s))
        × (s'.tablets ≡ (
            if is_empty (erase filename (files_of n s)) then erase user s.tablets else s.tablets))
        × (s'.memory_used ≡ pos (m - length value))
        × (lookup user s'.user_size ≡ some (pos (u - length value)))
        × IsList s'.nodes ((xs ++ ys) ++ n ∷ [])
  unfolding dele
  dele_hit user filename value fd seq_num is_migration s n m u xs ys here not_there found vx vy list
        used size hm hu lm lu =
      let (h, moved, after, values, keys) = relink-IsList n s.nodes xs ys vx vy list in
      let still : lookup filename (h.value n) ≡ some value =
        ap (λ v. lookup filename (v n)) values ∙ found in
      let read =
        get_helper-hit float_ceil fuel user filename fd s n h here not_there moved
        ∙ ap ok (read_file_of_found n filename value fd (with_nodes h s) still) in
      let t = deleted user filename value n fd seq_num is_migration h s in
      let (nodes, tablets, memory, sizes) = drop_empty_fields user n t in
      let own : files_of n t ≡ erase filename (files_of n s) = ground (arith, values) in
      (
        drop_empty user n t,
        rw (read, with_value)
            (dele_found_body user filename value n fd seq_num is_migration h s here still),
        ap (λ hp. hp.value n) nodes ∙ own,
        tablets ∙ ap (λ l. if is_empty l then erase user s.tablets else s.tablets) own,
        memory ∙ rw used (sub_size_lem m (length value) hm lm),
        ap (lookup user) sizes ∙ size_after user value s u size hu lu,
        subst (λ hp. IsList hp ((xs ++ ys) ++ n ∷ [])) (sym nodes) after,
      )

put_helper_refused :
    (put : Put) (user filename value : Bytes) (fd seq_num : ℤ) (s : Store)
    → exceeds user value s ≡ true
    → put_helper put user filename value fd true true seq_num s
      ≡ ok (true, send fd Reply.storage_exceeds (touch_size true user s))
unfolding put_helper
put_helper_refused put user filename value fd seq_num s over = rw (over, put_helper) refl

exceeds_counted :
    (user value : Bytes) (s : Store) (u : ℕ)
    → lookup user s.user_size ≡ some (pos u)
    → s.capacity ≤ u + length value
    → u + length value < 2 ^ 31
    → exceeds user value s ≡ true
unfolding to_size
exceeds_counted user value s u size over small = ground (arith, size)

size_touched :
    (user : Bytes) (s : Store) (z : ℤ)
    → lookup user s.user_size ≡ some z
    → lookup user (touch_size true user s).user_size ≡ some z
size_touched user s z e = ground (arith, e, lookup-insert_self user z s.user_size)

module _ (float_ceil : ℕ → ℕ) (fuel : ℕ) where
  cput_found_refused :
      (user filename old new : Bytes) (fd seq_num : ℤ) (s : Store)
      → exceeds user new (uncount user (length old) s) ≡ true
      → cput_found float_ceil fuel user filename old new fd seq_num old s
        ≡ ok (send fd Reply.storage_exceeds (touch_size true user (uncount user (length old) s)))
  unfolding cput_found
  cput_found_refused user filename old new fd seq_num s over =
      rw
        (
          same_refl old,
          put_helper_refused (restore_put float_ceil fuel fd) user filename new fd seq_num
              (uncount user (length old) s) over,
          cput_found,
        )
        refl

  -- A conditional put of a value that is too large for the user's storage, where the old value was
  -- given rightly: the user's files are as they were, and yet both counts have fallen by the size of
  -- the old value.
  pub cput_refused :
      (user filename old new : Bytes) (fd seq_num : ℤ) (s : Store) (n m u : ℕ) (xs ys : List ℕ)
      → lookup user s.tablets ≡ some n
      → lookup user s.virmem_meta ≡ none
      → lookup filename (files_of n s) ≡ some old
      → Avoids n xs
      → Avoids n ys
      → IsList s.nodes (xs ++ n ∷ ys)
      → s.memory_used ≡ pos m
      → lookup user s.user_size ≡ some (pos u)
      → length old ≤ m
      → length old ≤ u
      → m < 2 ^ 31
      → u < 2 ^ 31
      → (u - length old) + length new < 2 ^ 31
      → s.capacity ≤ (u - length old) + length new
      → (s' : Store) × (cput float_ceil fuel user filename old new fd seq_num s ≡ ok s')
        × (files_of n s' ≡ files_of n s)
        × (s'.memory_used ≡ pos (m - length old))
        × (lookup user s'.user_size ≡ some (pos (u - length old)))
  unfolding cput
  cput_refused user filename old new fd seq_num s n m u xs ys here not_there found vx vy list used
        size hm hu lm lu small over =
      let (h, moved, after, values, keys) = relink-IsList n s.nodes xs ys vx vy list in
      let still : lookup filename (h.value n) ≡ some old =
        ap (λ v. lookup filename (v n)) values ∙ found in
      let w = with_nodes h s in
      let read =
        get_helper-hit float_ceil fuel user filename fd s n h here not_there moved
        ∙ ap ok (read_file_of_found n filename old fd w still) in
      let sizes = size_after user old w u size hu lu in
      let refused = cput_found_refused user filename old new fd seq_num w (
        exceeds_counted user new (uncount user (length old) w) (u - length old) sizes over small) in
      (
        send fd Reply.storage_exceeds (touch_size true user (uncount user (length old) w)),
        rw (read, with_value) refused,
        ap (λ v. v n) values,
        rw used (sub_size_lem m (length old) hm lm),
        size_touched user (uncount user (length old) w) (pos (u - length old)) sizes,
      )
