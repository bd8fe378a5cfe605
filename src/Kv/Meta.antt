-- ===== src/Kv/Meta.antt =====
-- Checkpoints: the metadata texts of kvstore/chunkserver.cc, their parsers, `checkpointing` and
-- `load_checkpointing`, and what kvstore/tools.cc does with files and directories.
-- A record that is not three numbers is refused where it is parsed; the source refuses it where it is
-- used.
pub mod Records
pub mod RoundTrip
use cis505_penn_cloud.Prelude.{
  ℕ, zero, suc, ◌+◌, Bool, true, false, not, ◌&&◌, Option, none, some, List, [], ◌∷◌, ◌++◌,
  if◌then◌else◌, length, drop,
}
use cis505_penn_cloud.Prelude.Int.{ℤ, pos, negsuc}
use cis505_penn_cloud.Prelude.Ordered.{bytes_ordered}
use cis505_penn_cloud.Prelude.Text.{Bytes, codes, has, fields, starts_with}
use cis505_penn_cloud.Prelude.Decimal.{print_nat, print_int, stoi}
use cis505_penn_cloud.StdMap.{StdMap, lookup, insert, lookup_or}
use cis505_penn_cloud.Kv.Outcome.{Outcome, ok, fault, ◌>>=◌}
use cis505_penn_cloud.Kv.Store.{Kind, virtual_memory, checkpoint, ChunkInfo, Extent, Store}
use cis505_penn_cloud.Kv.Disk.{meta, set_meta, write_file, write_to_chunk, format_row}
use cis505_penn_cloud.Kv.Cache.{Put, files_of, load_user_from_disk}
use cis505_penn_cloud.Kv.Ops.{restore_put}

abbrev pub Meta : Type 0
Meta = StdMap Bytes (List Extent)

abbrev pub extent_text : Extent → Bytes
extent_text e = print_nat e.chunk ++ b',' ∷ (print_nat e.start ++ b',' ∷ print_nat e.len)

unfoldable pub extents_text : List Extent → Bytes
extents_text [] = []
extents_text (e ∷ es) = extent_text e ++ b';' ∷ extents_text es

-- The text of `write_cp_meta` and of `write_virmem_meta`.
unfoldable pub meta_text : Meta → Bytes
unfolding extents_text
meta_text [] = []
meta_text ((user, es) ∷ m) = b'@' ∷ (user ++ b';' ∷ extents_text es) ++ meta_text m

abbrev pub meta_path : Kind → Bytes
meta_path virtual_memory = codes "metadata/virmem_meta"
meta_path checkpoint = codes "metadata/cp_meta"

unfoldable pub write_meta : Kind → Store → Store
unfolding meta_text
write_meta kind s = write_file (meta_path kind) (meta_text (meta kind s)) s

unfoldable pub write_chunk_info : Store → Store
write_chunk_info s =
    let i = s.cp_info in
    let j = s.virmem_info in
    write_file (codes "metadata/chunk_info")
      (print_nat i.number
        ++ b','
          ∷ (print_nat i.size
              ++ b','
                ∷ (print_nat j.number
                    ++ b',' ∷ (print_nat j.size ++ b',' ∷ print_int s.memory_used))))
      s

unfoldable pub user_size_text : StdMap Bytes ℤ → Bytes
user_size_text [] = []
user_size_text ((user, n) ∷ m) = user ++ b',' ∷ (print_int n ++ b',' ∷ user_size_text m)

unfoldable pub write_user_size : Store → Store
unfolding user_size_text
write_user_size s = write_file (codes "metadata/user_size") (user_size_text s.user_size) s

-- `read_file` drops the newlines, and gives an empty text where there is no file.
abbrev pub joined : List Bytes → Bytes
joined [] = []
joined (t ∷ ts) = t ++ joined ts

unfoldable pub read_file : Bytes → Store → Bytes
read_file path s = let (ts, r) = fields 10 (lookup_or [] path s.files) in joined ts ++ r

-- A number of a record.
abbrev pub number : Option ℤ → Outcome ℕ
number none = fault
number (some (pos n)) = ok n
number (some (negsuc n)) = fault

abbrev pub numbers : List Bytes → Bytes → Outcome Extent
numbers (a ∷ b ∷ []) c = do
  chunk ← number (stoi a)
  start ← number (stoi b)
  len ← number (stoi c)
  ok (record { chunk = chunk; start = start; len = len })
numbers _ c = fault

unfoldable pub rebuild_vector : Bytes → Outcome Extent
rebuild_vector s = let (ts, r) = fields b',' s in numbers ts r

-- The rounds of `parse_meta` behind the first.
unfoldable pub push_records : Bytes → List Bytes → Meta → Outcome Meta
unfolding rebuild_vector
push_records user [] m = ok m
push_records user (t ∷ ts) m =
    rebuild_vector t >>= λ e. push_records user ts (insert user (lookup_or [] user m ++ e ∷ []) m)

abbrev pub parse_pieces : List Bytes → Meta → Outcome Meta
parse_pieces [] m = ok m
parse_pieces (user ∷ ts) m = push_records user ts m

unfoldable pub parse_meta : Bytes → Meta → Outcome Meta
unfolding push_records
parse_meta s m = parse_pieces (fields b';' s).0 m

unfoldable pub parse_all : List Bytes → Meta → Outcome Meta
unfolding parse_meta
parse_all [] m = ok m
parse_all (t ∷ ts) m = let m' = parse_meta t m in m' >>= parse_all ts

-- The pieces between the users' marks, without what stands before the first.
abbrev pub user_pieces : List Bytes × Bytes → List Bytes
user_pieces (ts, r) = drop 1 ts ++ r ∷ []

unfoldable pub load_meta_text : Bytes → Meta → Outcome Meta
unfolding parse_all
load_meta_text s m = parse_all (user_pieces (fields b'@' s)) m

-- `load_cp_vm_meta`
unfoldable pub load_cp_vm_meta : Bytes → Kind → Store → Outcome Store
unfolding load_meta_text read_file
load_cp_vm_meta path kind s = do
  m ← load_meta_text (read_file path s) (meta kind s)
  ok (set_meta kind m s)

abbrev pub chunk_infos : List Bytes → Outcome (ChunkInfo × ChunkInfo)
chunk_infos (a ∷ b ∷ c ∷ d ∷ ts) = do
  a' ← number (stoi a)
  b' ← number (stoi b)
  c' ← number (stoi c)
  d' ← number (stoi d)
  ok (record { number = a'; size = b' }, record { number = c'; size = d' })
chunk_infos _ = fault

unfoldable pub load_chunk_info : Store → Outcome Store
unfolding read_file
load_chunk_info s = do
  (i, j) ← chunk_infos (fields b',' (read_file (codes "metadata/chunk_info") s)).0
  ok (record s { cp_info = i; virmem_info = j })

unfoldable pub parse_user_size : List Bytes → StdMap Bytes ℤ → Outcome (StdMap Bytes ℤ)
parse_user_size [] m = ok m
parse_user_size (user ∷ []) m = ok m
parse_user_size (user ∷ t ∷ ts) m = elim (stoi t) [
  | none ↦ fault
  | some n ↦ parse_user_size ts (insert user n m)
]

unfoldable pub load_user_size : Store → Outcome Store
unfolding parse_user_size read_file
load_user_size s = do
  m ← parse_user_size (fields b',' (read_file (codes "metadata/user_size") s)).0 s.user_size
  ok (record s { user_size = m })

-- A file that stands in the directory itself.
abbrev pub stands_in : Bytes → Bytes → Bool
stands_in dir path = starts_with dir path && not (has b'/' (drop (length dir) path))

abbrev pub clear_dir : Bytes → StdMap Bytes Bytes → StdMap Bytes Bytes
clear_dir dir [] = []
clear_dir dir ((path, text) ∷ m) =
    let rest = clear_dir dir m in if stands_in dir path then rest else (path, text) ∷ rest

abbrev pub copy_dir : Bytes → Bytes → StdMap Bytes Bytes → StdMap Bytes Bytes → StdMap Bytes Bytes
copy_dir src des [] files = files
copy_dir src des ((path, text) ∷ m) files =
    copy_dir src des m
      (if stands_in src path then insert (des ++ drop (length src) path) text files else files)

abbrev pub cp_dir : Bytes
cp_dir = codes "checkpointing/"

abbrev pub vm_dir : Bytes
vm_dir = codes "virtual memory/"

-- `float_ceil` is that of `write_to_chunk`.
module _ (float_ceil : ℕ → ℕ) where
  -- Every user in memory goes to disk.
  unfoldable pub write_users : StdMap Bytes ℕ → Store → Outcome Store
  write_users [] s = ok s
  write_users ((_, n) ∷ m) s =
      let s' = write_to_chunk float_ceil (s.nodes.key n) (format_row (files_of n s)) checkpoint s in
      s' >>= write_users m

  -- What `checkpointing` takes away first.
  abbrev pub cleared : Store → Store
  cleared s = record s {
    files = clear_dir (codes "metadata/") (clear_dir cp_dir (clear_dir (cp_dir ++ vm_dir) s.files));
    log = [];
    cp_meta = [];
    cp_info = record { number = 0; size = 0 };
  }

  unfoldable pub checkpointing : Store → Outcome Store
  unfolding write_users write_meta write_chunk_info write_user_size
  checkpointing s = do
    s1 ← write_users s.tablets (cleared s)
    let s2 =
        write_user_size (write_chunk_info (write_meta virtual_memory (write_meta checkpoint s1)))
    ok (record s2 { files = copy_dir vm_dir (cp_dir ++ vm_dir) s2.files s2.files })

  module _ (fuel : ℕ) where
    abbrev pub load_users : Meta → Store → Outcome Store
    load_users [] s = ok s
    load_users ((user, _) ∷ m) s =
        let s' = load_user_from_disk (restore_put float_ceil fuel (negsuc 0)) checkpoint user s in
        s' >>= load_users m

    unfoldable pub load_checkpointing : Store → Outcome Store
    unfolding load_cp_vm_meta load_chunk_info load_user_size
    load_checkpointing s = do
      s1 ← load_cp_vm_meta (meta_path checkpoint) checkpoint s
      s2 ← load_cp_vm_meta (meta_path virtual_memory) virtual_memory s1
      s3 ← load_chunk_info s2
      s4 ← load_user_size s3
      s5 ← load_users s4.cp_meta s4
      let files = clear_dir vm_dir s5.files
      ok (record s5 { files = copy_dir (cp_dir ++ vm_dir) vm_dir files files })
