-- ===== src/Kv/Disk/RoundTrip.antt =====
-- Rows written to chunks and read back.
use cis505_penn_cloud.Prelude.{
  ℕ, ◌+◌, ◌≤◌, ◌≡◌, refl, ap, ◌∙◌, true, [], ◌∷◌, ◌++◌, arith, leb, length, append-nil,
  length-append, drop-length-append,
}
use cis505_penn_cloud.Prelude.Ordered.{bytes_ordered}
use cis505_penn_cloud.Prelude.Text.{Bytes}
use cis505_penn_cloud.StdMap.{StdMap, insert, lookup_or, lookup-insert_self, lookup-erase_self}
use cis505_penn_cloud.Kv.Outcome.{ok}
use cis505_penn_cloud.Kv.Store.{Kind, virtual_memory, checkpoint, Extent, Store, chunk_size}
use cis505_penn_cloud.Kv.Disk.{
  info, meta, chunk_path, clear_metadata, update_metadata, write_to_chunk, room, pad, read_at,
  read_extents,
}

-- The text of a chunk, empty where the file is not there.
abbrev pub chunk_text : Kind → ℕ → Store → Bytes
chunk_text kind n s = lookup_or [] (chunk_path kind n) s.files

-- The current chunk's file is as long as `chunk_info` says.
abbrev pub IsAligned : Kind → Store → Type 0
IsAligned kind s = length (chunk_text kind (info kind s).number s) ≡ (info kind s).size

pad-length : (row : Bytes) → pad (length row) row ≡ row
unfolding pad
pad-length [] = refl
pad-length (c ∷ row) = ap (◌∷◌ c) (pad-length row)

-- What was appended to a text is read from where the text ended.
pub read_at-append :
    (text row : Bytes) (n : ℕ) → length text ≡ n → read_at n (length row) (text ++ row) ≡ row
unfolding read_at
read_at-append text row n e = rw (← e, drop-length-append text row) (pad-length row)

-- The text and the extents that one piece leaves.
pub files-update_metadata :
    (kind : Kind) (user str : Bytes) (n : ℕ) (s : Store)
    → (update_metadata kind user str n s).files
      ≡ insert
          (chunk_path kind (info kind s).number)
          (chunk_text kind (info kind s).number s ++ str)
          s.files
unfolding update_metadata
files-update_metadata virtual_memory user str n s = refl
files-update_metadata checkpoint user str n s = refl

pub meta-update_metadata :
    (kind : Kind) (user str : Bytes) (n : ℕ) (s : Store)
    → lookup_or [] user (meta kind (update_metadata kind user str n s))
      ≡ lookup_or [] user (meta kind s)
        ++ record { chunk = (info kind s).number; start = (info kind s).size; len = n } ∷ []
unfolding update_metadata
meta-update_metadata virtual_memory user str n s = ground (
  arith,
  lookup-insert_self user
      (lookup_or [] user s.virmem_meta
        ++ record { chunk = s.virmem_info.number; start = s.virmem_info.size; len = n } ∷ [])
      s.virmem_meta,
)
meta-update_metadata checkpoint user str n s = ground (
  arith,
  lookup-insert_self user
      (lookup_or [] user s.cp_meta
        ++ record { chunk = s.cp_info.number; start = s.cp_info.size; len = n } ∷ [])
      s.cp_meta,
)

pub info-update_metadata :
    (kind : Kind) (user str : Bytes) (n : ℕ) (s : Store)
    → info kind (update_metadata kind user str n s)
      ≡ record { number = (info kind s).number; size = (info kind s).size + n }
unfolding update_metadata
info-update_metadata virtual_memory user str n s = refl
info-update_metadata checkpoint user str n s = refl

pub info-clear_metadata :
    (kind : Kind) (user : Bytes) (s : Store) → info kind (clear_metadata kind user s) ≡ info kind s
unfolding clear_metadata
info-clear_metadata virtual_memory user s = refl
info-clear_metadata checkpoint user s = refl

pub files-clear_metadata :
    (kind : Kind) (user : Bytes) (s : Store) → (clear_metadata kind user s).files ≡ s.files
unfolding clear_metadata
files-clear_metadata virtual_memory user s = refl
files-clear_metadata checkpoint user s = refl

pub meta-clear_metadata :
    (kind : Kind) (user : Bytes) (s : Store)
    → lookup_or [] user (meta kind (clear_metadata kind user s)) ≡ []
unfolding clear_metadata
meta-clear_metadata virtual_memory user s = ground (arith, lookup-erase_self user s.virmem_meta)
meta-clear_metadata checkpoint user s = ground (arith, lookup-erase_self user s.cp_meta)

-- One extent, in the text that was just written.
read_extents-insert :
    (kind : Kind) (e : Extent) (text row : Bytes) (files : StdMap Bytes Bytes)
    → length text ≡ e.start
    → e.len ≡ length row
    → read_extents kind (e ∷ []) (insert (chunk_path kind e.chunk) (text ++ row) files) ≡ row
unfolding read_extents
read_extents-insert kind e text row files es el =
    rw (lookup-insert_self (chunk_path kind e.chunk) (text ++ row) files, el, append-nil)
      (read_at-append text row e.start es)

pub length-insert-text :
    (k text row : Bytes) (files : StdMap Bytes Bytes)
    → length (lookup_or [] k (insert k (text ++ row) files)) ≡ length text + length row
length-insert-text k text row files =
    ground (arith, lookup-insert_self k (text ++ row) files, length-append text row)

pub write_to_chunk-update_metadata :
    (float_ceil : ℕ → ℕ) (kind : Kind) (user row : Bytes) (s : Store)
    → (info kind s).size + length row ≤ chunk_size
    → write_to_chunk float_ceil user row kind s
      ≡ ok (update_metadata kind user row (length row) (clear_metadata kind user s))
unfolding write_to_chunk
write_to_chunk-update_metadata float_ceil kind user row s fits =
    let e : leb (length row) (room kind s) ≡ true = ground arith in rw e

pub read_extents-update_metadata :
    (kind : Kind) (user row : Bytes) (s : Store)
    → IsAligned kind s
    → let s' = update_metadata kind user row (length row) (clear_metadata kind user s) in
      read_extents kind (lookup_or [] user (meta kind s')) s'.files ≡ row
read_extents-update_metadata kind user row s aligned =
    let s1 = clear_metadata kind user s in
    rw
      (
        meta-update_metadata kind user row (length row) s1,
        meta-clear_metadata kind user s,
        files-update_metadata kind user row (length row) s1,
        info-clear_metadata kind user s,
        files-clear_metadata kind user s,
      )
      (read_extents-insert kind _ (chunk_text kind (info kind s).number s) row s.files aligned refl)

-- A row that fits into the current chunk, where the file of that chunk is as long as `chunk_info`
-- says: the write succeeds, what is read back from the user's extents is the row, and the file is
-- again as long as `chunk_info` says.
pub write_to_chunk-read_extents :
    (float_ceil : ℕ → ℕ) (kind : Kind) (user row : Bytes) (s : Store)
    → (info kind s).size + length row ≤ chunk_size
    → IsAligned kind s
    → (s' : Store) × (write_to_chunk float_ceil user row kind s ≡ ok s')
      × (read_extents kind (lookup_or [] user (meta kind s')) s'.files ≡ row)
      × IsAligned kind s'
write_to_chunk-read_extents float_ceil kind user row s fits aligned =
    let s1 = clear_metadata kind user s in
    (
      update_metadata kind user row (length row) s1,
      write_to_chunk-update_metadata float_ceil kind user row s fits,
      read_extents-update_metadata kind user row s aligned,
      rw
          (
            info-update_metadata kind user row (length row) s1,
            files-update_metadata kind user row (length row) s1,
            info-clear_metadata kind user s,
            files-clear_metadata kind user s,
          )
          (length-insert-text _ (chunk_text kind (info kind s).number s) row s.files
            ∙ ap (λ n. n + length row) aligned),
    )
