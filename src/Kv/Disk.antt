-- ===== src/Kv/Disk.antt =====
-- Chunks on disk: `format_node`, `write_to_chunk` and the reading half of `load_user_from_disk` of
-- kvstore/lrucache.cc.
-- `float_ceil n` stands for `ceil(float(n) / float(CHUNK_SIZE))`, which is computed in floating point.
pub mod RoundTrip
pub mod Spill
use cis505_penn_cloud.Prelude.{
  ℕ, zero, suc, ◌+◌, ◌-◌, ◌%◌, ◌^◌, Bool, true, false, Option, none, some, List, [], ◌∷◌, ◌++◌,
  if◌then◌else◌, ltb, leb, length, take, drop,
}
use cis505_penn_cloud.Prelude.Int.{pos}
use cis505_penn_cloud.Prelude.Ordered.{bytes_ordered}
use cis505_penn_cloud.Prelude.Text.{Bytes, codes}
use cis505_penn_cloud.Prelude.Decimal.{print_nat}
use cis505_penn_cloud.StdMap.{StdMap, lookup, insert, erase, lookup_or}
use cis505_penn_cloud.Kv.Outcome.{Outcome, ok, fault, ◌>>=◌}
use cis505_penn_cloud.Kv.Store.{
  Kind, virtual_memory, checkpoint, ChunkInfo, Extent, Store, chunk_size,
}

abbrev pub info : Kind → Store → ChunkInfo
info virtual_memory s = s.virmem_info
info checkpoint s = s.cp_info

abbrev pub set_info : Kind → ChunkInfo → Store → Store
set_info virtual_memory i s = record s { virmem_info = i }
set_info checkpoint i s = record s { cp_info = i }

abbrev pub meta : Kind → Store → StdMap Bytes (List Extent)
meta virtual_memory s = s.virmem_meta
meta checkpoint s = s.cp_meta

abbrev pub set_meta : Kind → StdMap Bytes (List Extent) → Store → Store
set_meta virtual_memory m s = record s { virmem_meta = m }
set_meta checkpoint m s = record s { cp_meta = m }

abbrev pub chunk_path : Kind → ℕ → Bytes
chunk_path virtual_memory n = codes "virtual memory/chunk" ++ print_nat n
chunk_path checkpoint n = codes "checkpointing/chunk" ++ print_nat n

-- `write_file` appends to the file, and creates it first where there is none.
abbrev pub write_file : Bytes → Bytes → Store → Store
write_file dest str s = record s { files = insert dest (lookup_or [] dest s.files ++ str) s.files }

unfoldable pub clear_metadata : Kind → Bytes → Store → Store
clear_metadata kind user s = set_meta kind (erase user (meta kind s)) s

unfoldable pub update_metadata : Kind → Bytes → Bytes → ℕ → Store → Store
update_metadata kind user str size s =
    let i = info kind s in
    let s1 = write_file (chunk_path kind i.number) str s in
    let record_ : Extent = record { chunk = i.number; start = i.size; len = size } in
    let s2 =
      set_meta kind (insert user (lookup_or [] user (meta kind s1) ++ record_ ∷ []) (meta kind s1))
        s1 in
    set_info kind (record i { size = i.size + size }) s2

-- `chunk_info[type].at(0) += 1`
abbrev pub next_chunk : Kind → Store → Store
next_chunk kind s = let i = info kind s in set_info kind (record i { number = i.number + 1 }) s

-- The rounds of the loop behind the first; `substr` throws where it starts past the end.
unfoldable pub spread : Kind → Bytes → Bytes → ℕ → ℕ → Store → Outcome Store
spread kind user row zero start s = ok s
spread kind user row (suc zero) start s =
    if leb start (length row)
    then ok (update_metadata kind user (drop start row) (length row - start) (next_chunk kind s))
    else fault
spread kind user row (suc (suc n)) start s =
    let rest = spread kind user row (suc n) (start + chunk_size) (
      update_metadata kind user (take chunk_size (drop start row)) chunk_size
        (next_chunk kind s)) in
    if leb start (length row) then rest else fault

-- `CHUNK_SIZE - chunk_info[type].at(1)`, compared as a `size_t`.
abbrev pub room : Kind → Store → ℕ
room kind s = (2 ^ 64 + chunk_size - (info kind s).size) % 2 ^ 64

unfoldable pub write_to_chunk : (ℕ → ℕ) → Bytes → Bytes → Kind → Store → Outcome Store
unfolding spread
write_to_chunk float_ceil user row kind s =
    let s1 = clear_metadata kind user s in
    let left = chunk_size - (info kind s).size in
    if leb (length row) (room kind s)
    then ok (update_metadata kind user row (length row) s1)
    else spread kind user row (float_ceil (length row - left)) left
        (update_metadata kind user (take left row) left s1)

-- The bytes that `file.read` puts into a string of `len` zero bytes.
unfoldable pub pad : ℕ → Bytes → Bytes
pad zero s = []
pad (suc n) [] = 0 ∷ pad n []
pad (suc n) (c ∷ s) = c ∷ pad n s

unfoldable pub read_at : ℕ → ℕ → Bytes → Bytes
unfolding pad
read_at start len content = pad len (drop start content)

-- The loop of `load_user_from_disk`: the text of all extents. A file that cannot be opened adds
-- nothing.
unfoldable pub read_extents : Kind → List Extent → StdMap Bytes Bytes → Bytes
unfolding read_at
read_extents kind [] files = []
read_extents kind (e ∷ es) files =
    (elim (lookup (chunk_path kind e.chunk) files) [
      | none ↦ []
      | some content ↦ read_at e.start e.len content
    ])
    ++ read_extents kind es files

-- `format_node`: "filename,value," for each file, and the size of the values.
unfoldable pub format_row : StdMap Bytes Bytes → Bytes
format_row [] = []
format_row ((name, value) ∷ m) = name ++ b',' ∷ (value ++ b',' ∷ format_row m)

unfoldable pub value_size : StdMap Bytes Bytes → ℕ
value_size [] = 0
value_size ((name, value) ∷ m) = length value + value_size m
