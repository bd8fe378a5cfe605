-- ===== src/Kv/Disk/Spill.antt =====
-- A row that spills from one chunk into the next.
use cis505_penn_cloud.Prelude.{
  ℕ, zero, suc, ◌+◌, ◌-◌, ◌≤◌, ◌<◌, ◌≡◌, refl, sym, ap, ◌≢◌, true, false, none, [], ◌∷◌, ◌++◌,
  arith, leb, length, take, drop, append-nil, length-drop,
}
use cis505_penn_cloud.Prelude.Ordered.{bytes_ordered}
use cis505_penn_cloud.Prelude.Text.{Bytes}
use cis505_penn_cloud.Prelude.Decimal.{print_nat_ne}
use cis505_penn_cloud.StdMap.{
  StdMap, lookup, insert, lookup_or, lookup-insert_self, lookup-insert_ne,
}
use cis505_penn_cloud.Kv.Outcome.{ok}
use cis505_penn_cloud.Kv.Store.{Kind, virtual_memory, checkpoint, Extent, Store, chunk_size}
use cis505_penn_cloud.Kv.Disk.{
  info, meta, chunk_path, clear_metadata, update_metadata, write_to_chunk, room, next_chunk, pad,
  read_at, read_extents,
}
use cis505_penn_cloud.Kv.Disk.RoundTrip.{
  chunk_text, IsAligned, files-update_metadata, meta-update_metadata, info-update_metadata,
  info-clear_metadata, files-clear_metadata, meta-clear_metadata, read_at-append,
}

-- The names of two chunks in a row differ.
chunk_path_ne : (kind : Kind) (n : ℕ) → chunk_path kind n ≢ chunk_path kind (n + 1)
chunk_path_ne virtual_memory n e = print_nat_ne n (n + 1) (omega arith) (ap (drop 20) e)
chunk_path_ne checkpoint n e = print_nat_ne n (n + 1) (omega arith) (ap (drop 19) e)

drop_of_length-le : (n : ℕ) (s : Bytes) → length s ≤ n → drop n s ≡ []
drop_of_length-le zero [] h = refl
drop_of_length-le zero (c ∷ s) h = absurd (omega arith)
drop_of_length-le (suc n) [] h = refl
drop_of_length-le (suc n) (c ∷ s) h = drop_of_length-le n s (omega arith)

read_at_past : (n start : ℕ) (s : Bytes) → length s ≤ start → read_at start n s ≡ pad n []
unfolding read_at
read_at_past n start s h = rw (drop_of_length-le start s h)

info-next_chunk :
    (kind : Kind) (s : Store)
    → info kind (next_chunk kind s)
      ≡ record { number = (info kind s).number + 1; size = (info kind s).size }
info-next_chunk virtual_memory s = refl
info-next_chunk checkpoint s = refl

meta-next_chunk : (kind : Kind) (s : Store) → meta kind (next_chunk kind s) ≡ meta kind s
meta-next_chunk virtual_memory s = refl
meta-next_chunk checkpoint s = refl

files-next_chunk : (kind : Kind) (s : Store) → (next_chunk kind s).files ≡ s.files
files-next_chunk virtual_memory s = refl
files-next_chunk checkpoint s = refl

text_absent :
    (p q t : Bytes) (files : StdMap Bytes Bytes)
    → p ≢ q
    → lookup q files ≡ none
    → lookup_or {V = Bytes} [] q (insert p t files) ≡ []
text_absent p q t files ne absent = ground (arith, lookup-insert_ne p q t files ne, absent)

-- The state behind the two pieces of a row that spills into the next chunk.
spilled : Kind → Bytes → Bytes → ℕ → Store → Store
spilled kind user row left s =
    update_metadata kind user (drop left row) (length row - left) (
      next_chunk kind (update_metadata kind user (take left row) left (clear_metadata kind user s)))

write_to_chunk-spilled :
    (float_ceil : ℕ → ℕ) (kind : Kind) (user row : Bytes) (s : Store)
    → (info kind s).size ≤ chunk_size
    → chunk_size - (info kind s).size < length row
    → float_ceil (length row - (chunk_size - (info kind s).size)) ≡ 1
    → write_to_chunk float_ceil user row kind s
      ≡ ok (spilled kind user row (chunk_size - (info kind s).size) s)
unfolding write_to_chunk spilled
write_to_chunk-spilled float_ceil kind user row s below spills one =
    let left = chunk_size - (info kind s).size in
    let e : leb (length row) (room kind s) ≡ false = ground arith in
    let inside : leb left (length row) ≡ true = ground arith in rw (e, one) (rw inside)

module _ (kind : Kind) (user row : Bytes) (left : ℕ) (s : Store) where
  abbrev first : Store
  first = update_metadata kind user (take left row) left (clear_metadata kind user s)

  abbrev number : ℕ
  number = (info kind s).number

  info-first : info kind first ≡ record { number = number; size = (info kind s).size + left }
  info-first = rw (info-update_metadata, info-clear_metadata)

  meta-spilled :
      lookup_or [] user (meta kind (spilled kind user row left s))
      ≡ record { chunk = number; start = (info kind s).size; len = left }
        ∷ record { chunk = number + 1; start = (info kind s).size + left; len = length row - left }
        ∷ []
  unfolding spilled
  meta-spilled = rw (
    meta-update_metadata kind user (drop left row) (length row - left) (next_chunk kind first),
    meta-next_chunk kind first,
    info-next_chunk kind first,
    info-first,
    meta-update_metadata kind user (take left row) left (clear_metadata kind user s),
    meta-clear_metadata kind user s,
    info-clear_metadata kind user s,
  )

  files-first :
      first.files
      ≡ insert (chunk_path kind number) (chunk_text kind number s ++ take left row) s.files
  files-first = rw (
    files-update_metadata kind user (take left row) left (clear_metadata kind user s),
    info-clear_metadata kind user s,
    files-clear_metadata kind user s,
  )

  files-spilled :
      lookup (chunk_path kind (number + 1)) s.files ≡ none
      → (spilled kind user row left s).files
        ≡ insert
            (chunk_path kind (number + 1))
            (drop left row)
            (insert (chunk_path kind number) (chunk_text kind number s ++ take left row) s.files)
  unfolding spilled
  files-spilled absent = rw (
    files-update_metadata kind user (drop left row) (length row - left) (next_chunk kind first),
    files-next_chunk kind first,
    info-next_chunk kind first,
    info-first,
    files-first,
    text_absent (chunk_path kind number) (chunk_path kind (number + 1))
        (chunk_text kind number s ++ take left row) s.files (chunk_path_ne kind number) absent,
  )

length-take-le : (n : ℕ) (s : Bytes) → n ≤ length s → length (take n s) ≡ n
length-take-le zero s h = refl
length-take-le (suc n) [] h = absurd (omega arith)
length-take-le (suc n) (c ∷ s) h = omega (arith, length-take-le n s)

-- The two extents of a spilled row: the first holds its piece, the second starts past the end of the
-- file that holds the other piece.
read_spilled :
    (kind : Kind) (e0 e1 : Extent) (text piece rest : Bytes) (files : StdMap Bytes Bytes)
    → chunk_path kind e0.chunk ≢ chunk_path kind e1.chunk
    → length text ≡ e0.start
    → e0.len ≡ length piece
    → length rest ≤ e1.start
    → read_extents kind (e0 ∷ e1 ∷ []) (
        insert
          (chunk_path kind e1.chunk)
          rest
          (insert (chunk_path kind e0.chunk) (text ++ piece) files))
      ≡ piece ++ pad e1.len []
unfolding read_extents
read_spilled kind e0 e1 text piece rest files ne e0s e0l short =
    let p0 = chunk_path kind e0.chunk in
    let p1 = chunk_path kind e1.chunk in
    let m = insert p0 (text ++ piece) files in
    rw (
      lookup-insert_self p1 rest m,
      lookup-insert_ne p1 p0 rest m (λ e. ne (sym e)),
      lookup-insert_self p0 (text ++ piece) files,
      e0l,
      read_at-append text piece e0.start e0s,
      read_at_past e1.len e1.start rest short,
      append-nil,
    )

-- A row that does not fit into the current chunk is lost in part. Where the chunk's file is as long as
-- `chunk_info` says, the next chunk's file is not there yet, and one more chunk is enough, the write
-- succeeds, and what is read back has zero bytes in place of all that went to the next chunk: the
-- write starts a new file, and records as the start in it the size of the chunk before.
pub write_to_chunk-spill :
    (float_ceil : ℕ → ℕ) (kind : Kind) (user row : Bytes) (s : Store)
    → IsAligned kind s
    → (info kind s).size ≤ chunk_size
    → chunk_size - (info kind s).size < length row
    → length row - (chunk_size - (info kind s).size) ≤ chunk_size
    → float_ceil (length row - (chunk_size - (info kind s).size)) ≡ 1
    → lookup (chunk_path kind ((info kind s).number + 1)) s.files ≡ none
    → let left = chunk_size - (info kind s).size in
      (s' : Store) × (write_to_chunk float_ceil user row kind s ≡ ok s')
      × (read_extents kind (lookup_or [] user (meta kind s')) s'.files
          ≡ take left row ++ pad (length row - left) [])
write_to_chunk-spill float_ceil kind user row s aligned below spills fits one absent =
    let left = chunk_size - (info kind s).size in
    (
      spilled kind user row left s,
      write_to_chunk-spilled float_ceil kind user row s below spills one,
      rw (meta-spilled kind user row left s, files-spilled kind user row left s absent)
          (read_spilled kind _ _ (chunk_text kind (info kind s).number s) (take left row)
            (drop left row) s.files (chunk_path_ne kind (info kind s).number) aligned
            (sym (length-take-le left row (omega arith))) (omega (arith, length-drop left row))),
    )
