-- ===== src/Kv/Commands/Evicted.antt =====
-- The commands of kvstore/lrucache.cc and kvstore/chunkserver.cc that do not look for a user on disk.
use cis505_penn_cloud.Prelude.{ℕ, ◌≡◌, refl, ap, none, some, arith, Option-cases, inl, inr}
use cis505_penn_cloud.Prelude.Int.{ℤ}
use cis505_penn_cloud.Prelude.Ordered.{bytes_ordered}
use cis505_penn_cloud.Prelude.Text.{Bytes}
use cis505_penn_cloud.StdMap.{lookup, erase, contains, lookup-erase_self}
use cis505_penn_cloud.Kv.Outcome.{ok, fault, >>=-eq-ok}
use cis505_penn_cloud.Kv.Nodes.{head}
use cis505_penn_cloud.Kv.Store.{virtual_memory, Store, send}
use cis505_penn_cloud.Kv.Disk.{write_to_chunk, format_row, value_size}
use cis505_penn_cloud.Kv.Cache.{use_virtual_memory, drop_first, files_of}
use cis505_penn_cloud.Kv.Cache.Reply
use cis505_penn_cloud.Kv.Cache.Stranded.{used_at, nodes-write_to_chunk}
use cis505_penn_cloud.Kv.Ops.{getlist, getfile}
use cis505_penn_cloud.Kv.Commands.{migrate_data}

tablets-drop_first :
    (size : ℕ) (s s' : Store) (n : ℕ)
    → s.nodes.next head ≡ some n
    → drop_first size s ≡ ok s'
    → s'.tablets ≡ erase (s.nodes.key n) s.tablets
unfolding drop_first
tablets-drop_first size s s' n first e = elim (Option-cases (s.nodes.next n)) [
  | inl null ↦ absurd (ground arith)
  | inr (q, second) ↦ ground arith
]

-- The user who goes to disk is not in memory any more.
lookup-use_virtual_memory :
    (float_ceil : ℕ → ℕ) (s s' : Store) (n : ℕ)
    → s.nodes.next head ≡ some n
    → use_virtual_memory float_ceil s ≡ ok s'
    → lookup (s.nodes.key n) s'.tablets ≡ none
lookup-use_virtual_memory float_ceil s s' n first e =
    let row = format_row (files_of n s) in
    let size = value_size (files_of n s) in
    let (s1, wrote, dropped) =
      >>=-eq-ok (write_to_chunk float_ceil (s.nodes.key n) row virtual_memory s) (drop_first size)
        (used_at float_ceil s s' n first e) in
    let nodes = nodes-write_to_chunk float_ceil _ row virtual_memory s s1 wrote in
    let first1 : s1.nodes.next head ≡ some n = cc (ap (λ h. h.next) nodes) in
    let key : s1.nodes.key n ≡ s.nodes.key n = ap (λ h. h.key n) nodes in
    let gone = tablets-drop_first size s1 s' n first1 dropped in
    ground (arith, gone, key, lookup-erase_self (s.nodes.key n) s1.tablets)

-- A user who has just been moved to disk by an eviction is not found there by the listings and the
-- migration: both listings reply that there is no such user, and the migration of the user follows
-- a null pointer.
pub use_virtual_memory-hides :
    (float_ceil : ℕ → ℕ) (fuel : ℕ) (type : Bytes) (fd : ℤ) (s s' : Store) (n : ℕ)
    → s.nodes.next head ≡ some n
    → use_virtual_memory float_ceil s ≡ ok s'
    → let user = s.nodes.key n in
      (getlist float_ceil fuel user type fd s' ≡ ok (send fd Reply.no_such_user s'))
      × (getfile float_ceil fuel user fd s' ≡ ok (send fd Reply.no_such_user s'))
      × (migrate_data float_ceil fuel user fd s' ≡ fault)
unfolding getlist getfile migrate_data
use_virtual_memory-hides float_ceil fuel type fd s s' n first e =
    let gone = lookup-use_virtual_memory float_ceil s s' n first e in
    (rw (gone, contains) refl, rw (gone, contains) refl, rw gone refl)
