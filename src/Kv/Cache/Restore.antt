-- ===== src/Kv/Cache/Restore.antt =====
-- A user goes to disk and comes back: `use_virtual_memory` and `load_user_from_disk` of
-- kvstore/lrucache.cc.
use cis505_penn_cloud.Prelude.{
  ℕ, ◌+◌, ◌≤◌, ◌<◌, ◌^◌, ◌≡◌, refl, ap, ◌∙◌, false, List, [], ◌∷◌, ◌++◌, length,
}
use cis505_penn_cloud.Prelude.Int.{pos}
use cis505_penn_cloud.Prelude.Ordered.{bytes_ordered}
use cis505_penn_cloud.Prelude.Text.{Bytes, has, fields, fields-append}
use cis505_penn_cloud.StdMap.{StdMap, erase, lookup_or}
use cis505_penn_cloud.Kv.Outcome.{Outcome, ok, ◌>>=◌, >>=-ext}
use cis505_penn_cloud.Kv.Nodes.Chain.{Avoids}
use cis505_penn_cloud.Kv.Nodes.Relink.{IsList}
use cis505_penn_cloud.Kv.Store.{virtual_memory, Store, chunk_size}
use cis505_penn_cloud.Kv.Disk.{format_row, value_size, read_extents}
use cis505_penn_cloud.Kv.Disk.RoundTrip.{IsAligned}
use cis505_penn_cloud.Kv.Cache.{
  Put, restore_pieces, load_user_from_disk, use_virtual_memory, files_of,
}
use cis505_penn_cloud.Kv.Cache.Evict.{use_virtual_memory_lem, row_of}

-- Names and values without the comma that separates them on disk.
abbrev pub IsPlain : StdMap Bytes Bytes → Type 0
IsPlain [] = Unit
IsPlain ((name, value) ∷ m) = (has b',' name ≡ false) × (has b',' value ≡ false) × IsPlain m

-- One call of `put` for each file, in the order of the map.
abbrev pub restored : Put → Bytes → StdMap Bytes Bytes → Store → Outcome Store
restored put user [] s = ok s
restored put user ((name, value) ∷ m) s =
    let s' = put user name value s in s' >>= restored put user m

abbrev turns : StdMap Bytes Bytes → List Bytes
turns [] = []
turns ((name, value) ∷ m) = name ∷ value ∷ turns m

fields-format_row :
    (m : StdMap Bytes Bytes) → IsPlain m → fields b',' (format_row m) ≡ (turns m, [])
unfolding format_row
fields-format_row [] p = unfold fields in refl
fields-format_row ((name, value) ∷ m) p =
    fields-append b',' name (value ++ b',' ∷ format_row m) p.0
    ∙ ap (λ f. (name ∷ f.0, f.1))
        (fields-append b',' value (format_row m) p.1
          ∙ ap (λ f. (value ∷ f.0, f.1)) (fields-format_row m p.2))

restore_pieces-turns :
    (put : Put) (user : Bytes) (m : StdMap Bytes Bytes) (s : Store)
    → restore_pieces (put user) (turns m) s ≡ restored put user m s
unfolding restore_pieces
restore_pieces-turns put user [] s = refl
restore_pieces-turns put user ((name, value) ∷ m) s =
    >>=-ext (put user name value s) (restore_pieces (put user) (turns m)) (restored put user m)
      λ t. restore_pieces-turns put user m t

load_row :
    (put : Put) (user : Bytes) (m : StdMap Bytes Bytes) (s : Store)
    → IsPlain m
    → read_extents virtual_memory (lookup_or [] user s.virmem_meta) s.files ≡ format_row m
    → load_user_from_disk put virtual_memory user s
      ≡ restored put user m (record s { virmem_meta = erase user s.virmem_meta })
unfolding load_user_from_disk
load_row put user m s plain row =
    let s1 = record s { virmem_meta = erase user s.virmem_meta } in
    ap (λ text. restore_pieces (put user) (fields b',' text).0 s1) row
    ∙ ap (λ f. restore_pieces (put user) f.0 s1) (fields-format_row m plain)
    ∙ restore_pieces-turns put user m s1

-- An evicted user is loaded with exactly his files. Where the eviction's row fits into the current
-- chunk and no name or value holds a comma, the load that follows takes the user off the disk's
-- metadata and stores each of the files that he had when he was evicted, with its name and value.
pub load_user_from_disk-use_virtual_memory :
    (float_ceil : ℕ → ℕ) (put : Put) (s : Store) (n m : ℕ) (xs : List ℕ)
    → IsList s.nodes (n ∷ xs)
    → Avoids n xs
    → s.virmem_info.size + length (row_of n s) ≤ chunk_size
    → IsAligned virtual_memory s
    → s.memory_used ≡ pos m
    → value_size (files_of n s) ≤ m
    → m < 2 ^ 31
    → IsPlain (files_of n s)
    → let user = s.nodes.key n in
      (s' : Store) × (use_virtual_memory float_ceil s ≡ ok s')
      × (load_user_from_disk put virtual_memory user s'
          ≡ restored put user
              (files_of n s)
              (record s' { virmem_meta = erase user s'.virmem_meta }))
load_user_from_disk-use_virtual_memory float_ceil put s n m xs list v fits aligned used covered
      small plain =
    let (s', ran, linked, tablets, memory, row) =
      use_virtual_memory_lem float_ceil s n m xs list v fits aligned used covered small in
    (s', ran, load_row put (s.nodes.key n) (files_of n s) s' plain row)
