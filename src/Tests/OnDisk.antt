-- ===== src/Tests/OnDisk.antt =====
-- Runs of the chunk files of kvstore/lrucache.cc.
use cis505_penn_cloud.Prelude.{
  ℕ, zero, suc, ◌≡◌, refl, true, none, [], ◌∷◌, ◌++◌, ◌-◌, arith, length, take,
}
use cis505_penn_cloud.Prelude.Int.{pos}
use cis505_penn_cloud.Prelude.Ordered.{bytes_ordered}
use cis505_penn_cloud.Prelude.Text.{Bytes, codes}
use cis505_penn_cloud.Prelude.Decimal.{print_nat}
use cis505_penn_cloud.StdMap.{lookup, lookup_or}
use cis505_penn_cloud.Kv.Outcome.{ok}
use cis505_penn_cloud.Kv.Nodes.{init_nodes}
use cis505_penn_cloud.Kv.Store.{virtual_memory, checkpoint, Store, memory_capacity, chunk_size}
use cis505_penn_cloud.Kv.Disk.{write_to_chunk, read_extents, chunk_path, pad}
use cis505_penn_cloud.Kv.Disk.RoundTrip.{write_to_chunk-read_extents, IsAligned}
use cis505_penn_cloud.Kv.Disk.Spill.{write_to_chunk-spill}

-- A node that has just started.
abbrev pub empty_store : Store
empty_store = record {
  capacity = memory_capacity;
  memory_used = pos 0;
  nodes = init_nodes;
  tablets = [];
  user_size = [];
  virmem_info = record { number = 0; size = 0 };
  cp_info = record { number = 0; size = 0 };
  virmem_meta = [];
  cp_meta = [];
  files = [];
  log = [];
  is_primary = true;
  secondary_fd = pos 9;
  seq_num_records = [];
  primary_holdback = [];
  sent = [];
}

abbrev pub one_chunk : ℕ → ℕ
one_chunk n = 1

abbrev row : Bytes
row = codes "note,milk,"

-- The first chunk is full but for two bytes.
abbrev text_of : ℕ → Bytes
text_of n = pad n []

write_to_chunk-read_extents_example :
    (s' : Store) × (write_to_chunk one_chunk (codes "ann") row checkpoint empty_store ≡ ok s')
    × (read_extents checkpoint (lookup_or [] (codes "ann") s'.cp_meta) s'.files ≡ row)
    × IsAligned checkpoint s'
unfolding lookup
write_to_chunk-read_extents_example =
    write_to_chunk-read_extents one_chunk checkpoint (codes "ann") row empty_store (ground arith)
      refl

pub length-pad : (n : ℕ) → length (pad n []) ≡ n
unfolding pad
length-pad zero = refl
length-pad (suc n) = omega (arith, length-pad n)

abbrev nearly_full : Store
nearly_full = record empty_store {
  virmem_info = record { number = 0; size = chunk_size - 2 };
  files = (chunk_path virtual_memory 0, text_of (chunk_size - 2)) ∷ [];
}

nearly_full-IsAligned : IsAligned virtual_memory nearly_full
unfolding lookup print_nat
nearly_full-IsAligned = length-pad (chunk_size - 2)

no_next_chunk : lookup (chunk_path virtual_memory 1) nearly_full.files ≡ none
unfolding lookup print_nat
no_next_chunk = refl

write_to_chunk-spill_example :
    (s' : Store) × (write_to_chunk one_chunk (codes "ann") row virtual_memory nearly_full ≡ ok s')
    × (read_extents virtual_memory (lookup_or [] (codes "ann") s'.virmem_meta) s'.files
        ≡ take 2 row ++ pad 8 [])
write_to_chunk-spill_example =
    write_to_chunk-spill one_chunk virtual_memory (codes "ann") row nearly_full
      nearly_full-IsAligned (ground arith) (ground arith) (ground arith) refl no_next_chunk
