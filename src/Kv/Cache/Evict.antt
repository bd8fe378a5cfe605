-- ===== src/Kv/Cache/Evict.antt =====
-- Eviction: `use_virtual_memory` of kvstore/lrucache.cc.
use cis505_penn_cloud.Prelude.{
  ℕ, ◌+◌, ◌-◌, ◌≤◌, ◌<◌, ◌^◌, ◌≡◌, refl, sym, some, List, [], ◌∷◌, length,
}
use cis505_penn_cloud.Prelude.Int.{pos}
use cis505_penn_cloud.Prelude.Ordered.{bytes_ordered}
use cis505_penn_cloud.Prelude.Text.{Bytes}
use cis505_penn_cloud.Prelude.Decimal.{sub_size, sub_size_lem}
use cis505_penn_cloud.StdMap.{erase, lookup_or}
use cis505_penn_cloud.Kv.Outcome.{ok}
use cis505_penn_cloud.Kv.Nodes.{head, tail, update}
use cis505_penn_cloud.Kv.Nodes.Chain.{Avoids, without-IsChain, next_of_chain, prev-next}
use cis505_penn_cloud.Kv.Nodes.Relink.{IsList}
use cis505_penn_cloud.Kv.Store.{virtual_memory, Store, chunk_size}
use cis505_penn_cloud.Kv.Disk.{
  clear_metadata, update_metadata, read_extents, format_row, value_size,
}
use cis505_penn_cloud.Kv.Disk.RoundTrip.{
  IsAligned, write_to_chunk-update_metadata, read_extents-update_metadata,
}
use cis505_penn_cloud.Kv.Cache.{use_virtual_memory, files_of}

-- The state behind the write of a row that fits.
written : Bytes → Bytes → Store → Store
written user row s =
    update_metadata virtual_memory user row (length row) (clear_metadata virtual_memory user s)

abbrev pub row_of : ℕ → Store → Bytes
row_of n s = format_row (files_of n s)

-- The first user of the list goes to disk, where the row fits into the current chunk and the memory
-- count covers the values: the user's entry and node are gone from memory, the list is that of the
-- others in their order, the count falls by the size of the values, and what can be read back from
-- disk for the user is the row of his files.
pub use_virtual_memory_lem :
    (float_ceil : ℕ → ℕ) (s : Store) (n m : ℕ) (xs : List ℕ)
    → IsList s.nodes (n ∷ xs)
    → Avoids n xs
    → s.virmem_info.size + length (row_of n s) ≤ chunk_size
    → IsAligned virtual_memory s
    → s.memory_used ≡ pos m
    → value_size (files_of n s) ≤ m
    → m < 2 ^ 31
    → let user = s.nodes.key n in
      (s' : Store) × (use_virtual_memory float_ceil s ≡ ok s')
      × IsList s'.nodes xs
      × (s'.tablets ≡ erase user s.tablets)
      × (s'.memory_used ≡ pos (m - value_size (files_of n s)))
      × (read_extents virtual_memory (lookup_or [] user s'.virmem_meta) s'.files ≡ row_of n s)
unfolding use_virtual_memory update_metadata clear_metadata written
use_virtual_memory_lem float_ceil s n m xs (c, vh, vt) vn fits aligned used covered small =
    let user = s.nodes.key n in
    let (q, eq) = next_of_chain s.nodes head n tail [] xs c in
    let nq = prev-next s.nodes head q n tail [] xs c eq in
    let w = written user (row_of n s) s in
    let wrote = write_to_chunk-update_metadata float_ceil virtual_memory user (row_of n s) s fits in
    let s' : Store = record w {
      nodes = record s.nodes {
        next = update s.nodes.next head (some q);
        prev = update s.nodes.prev q (some head);
      };
      tablets = erase user s.tablets;
      memory_used = sub_size s.memory_used (value_size (files_of n s));
    } in
    (
      s',
      rw (c.0, wrote, c.0, eq),
      (
        without-IsChain s.nodes head head q n tail [] xs c.1 eq c.0 nq (λ e. vh.0 (sym e))
            (λ e. vt.0 (sym e)) tt vn c,
        vh.1,
        vt.1,
      ),
      refl,
      rw (used) (sub_size_lem m _ covered small),
      read_extents-update_metadata virtual_memory user (row_of n s) s aligned,
    )
