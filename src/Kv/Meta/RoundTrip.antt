-- ===== src/Kv/Meta/RoundTrip.antt =====
-- The metadata texts of kvstore/chunkserver.cc and their parsers.
use cis505_penn_cloud.Prelude.{
  ◌≡◌, refl, sym, ap, ◌∙◌, ◌≢◌, false, none, List, [], ◌∷◌, ◌++◌, arith, All, map, if◌then◌else◌,
  append_assoc, append-nil,
}
use cis505_penn_cloud.Prelude.Ordered.{bytes_ordered, same, same_iff}
use cis505_penn_cloud.Prelude.Text.{Bytes, has, fields, fields-append, fields_rest, has-append}
use cis505_penn_cloud.StdMap.{keys, lookup, insert, lookup_or, lookup-insert, lookup-insert_self}
use cis505_penn_cloud.Kv.Outcome.{ok}
use cis505_penn_cloud.Kv.Store.{Kind, Extent, Store}
use cis505_penn_cloud.Kv.Disk.{meta, set_meta, write_file}
use cis505_penn_cloud.Kv.Meta.{
  Meta, extent_text, extents_text, meta_text, meta_path, write_meta, push_records, parse_meta,
  parse_pieces, parse_all, user_pieces, load_meta_text, load_cp_vm_meta, read_file,
}
use cis505_penn_cloud.Kv.Meta.Records.{
  IsBounded, rebuild_vector-extent_text, has-extents_text, fields-extents_text,
}

-- A name without the delimiters of the text.
abbrev pub IsName : Bytes → Type 0
IsName user = (has b'@' user ≡ false) × (has b';' user ≡ false) × (has 10 user ≡ false)

abbrev pub IsWritable : Meta → Type 0
IsWritable [] = Unit
IsWritable ((user, es) ∷ m) = IsName user × All IsBounded es × IsWritable m

-- The text of one user, behind the mark.
abbrev user_text : Bytes → List Extent → Bytes
user_text user es = user ++ b';' ∷ extents_text es

-- Of one user's records, the extents of every user.
abbrev Pushed : Bytes → Bytes → List Extent → Meta → Meta → Type 0
Pushed u user es m m' =
    lookup_or [] u m' ≡ (if same user u then lookup_or [] u m ++ es else lookup_or [] u m)

push_records-Pushed :
    (u user : Bytes) (es : List Extent) (m : Meta)
    → All IsBounded es
    → (m' : Meta) × (push_records user (map extent_text es) m ≡ ok m') × Pushed u user es m m'
unfolding push_records
push_records-Pushed u user [] m h = (m, refl, ground (arith, append-nil (lookup_or [] u m)))
push_records-Pushed u user (e ∷ es) m h =
    let more = lookup_or [] user m ++ e ∷ [] in
    let (m', ran, pushed) = push_records-Pushed u user es (insert user more m) h.1 in
    (
      m',
      rw (rebuild_vector-extent_text e h.0) ran,
      ground (
        arith,
        pushed,
        lookup-insert user u more m,
        same_iff user u,
        append_assoc (lookup_or [] user m) (e ∷ []) es,
      ),
    )

parse_meta-Pushed :
    (u user : Bytes) (es : List Extent) (m : Meta)
    → has b';' user ≡ false
    → All IsBounded es
    → (m' : Meta) × (parse_meta (user_text user es) m ≡ ok m') × Pushed u user es m m'
unfolding parse_meta
parse_meta-Pushed u user es m name h =
    let (m', ran, pushed) = push_records-Pushed u user es m h in
    let e : fields b';' (user_text user es) ≡ (user ∷ map extent_text es, []) =
      fields-append b';' user (extents_text es) name
      ∙ ap (λ f. (user ∷ f.0, f.1)) (fields-extents_text es) in
    (m', ap (λ f. parse_pieces f.0 m) e ∙ ran, pushed)

abbrev texts : Meta → List Bytes
texts [] = []
texts ((user, es) ∷ m) = user_text user es ∷ texts m

abbrev all_pieces : List Bytes × Bytes → List Bytes
all_pieces (ts, r) = ts ++ r ∷ []

has-user_text :
    (user : Bytes) (es : List Extent) → has b'@' user ≡ false → has b'@' (user_text user es) ≡ false
unfolding has
has-user_text user es h = ground (
  arith,
  has-append b'@' user (b';' ∷ extents_text es),
  has-extents_text b'@' es refl (ground arith) (ground arith),
)

pieces-meta_text :
    (t : Bytes) (m : Meta)
    → has b'@' t ≡ false
    → IsWritable m
    → all_pieces (fields b'@' (t ++ meta_text m)) ≡ t ∷ texts m
unfolding meta_text
pieces-meta_text t [] h w = ap all_pieces (ap (fields b'@') (append-nil t) ∙ fields_rest b'@' t h)
pieces-meta_text t ((user, es) ∷ m) h w =
    ap all_pieces (fields-append b'@' t (user_text user es ++ meta_text m) h)
    ∙ ap (◌∷◌ t) (pieces-meta_text (user_text user es) m (has-user_text user es w.0.0) w.2)

-- What the loop of `load_cp_vm_meta` hands to `parse_meta`.
user_pieces-meta_text :
    (user : Bytes) (es : List Extent) (m : Meta)
    → IsWritable ((user, es) ∷ m)
    → user_pieces (fields b'@' (meta_text ((user, es) ∷ m))) ≡ texts ((user, es) ∷ m)
unfolding meta_text has
user_pieces-meta_text user es m w =
    ap user_pieces (fields-append b'@' [] (user_text user es ++ meta_text m) refl)
    ∙ pieces-meta_text (user_text user es) m (has-user_text user es w.0.0) w.2

-- No key twice, as in a map.
abbrev pub IsDistinct : List Bytes → Type 0
IsDistinct [] = Unit
IsDistinct (k ∷ ks) = All (λ j. j ≢ k) ks × IsDistinct ks

lookup_absent : (u : Bytes) (m : Meta) → All (λ j. j ≢ u) (keys m) → lookup u m ≡ none
unfolding lookup
lookup_absent u [] h = refl
lookup_absent u ((k, es) ∷ m) h = ground (arith, lookup_absent u m, same_iff k u)

parse_all-texts :
    (u : Bytes) (m start : Meta)
    → IsWritable m
    → IsDistinct (keys m)
    → (m' : Meta) × (parse_all (texts m) start ≡ ok m')
      × (lookup_or [] u m' ≡ lookup_or [] u start ++ lookup_or [] u m)
unfolding parse_all lookup
parse_all-texts u [] start w d = (start, refl, sym (append-nil (lookup_or [] u start)))
parse_all-texts u ((user, es) ∷ m) start w d =
    let (m1, ran, pushed) = parse_meta-Pushed u user es start w.0.1 w.1 in
    let (m', rest, found) = parse_all-texts u m m1 w.2 d.1 in
    (
      m',
      rw ran rest,
      ground (
        arith,
        found,
        pushed,
        same_iff user u,
        lookup_absent user m d.0,
        append-nil (lookup_or [] user start ++ es),
      ),
    )

load_meta_text-lookup :
    (u : Bytes) (m : Meta)
    → IsWritable m
    → IsDistinct (keys m)
    → (m' : Meta) × (load_meta_text (meta_text m) [] ≡ ok m')
      × (lookup_or [] u m' ≡ lookup_or [] u m)
unfolding load_meta_text meta_text parse_all parse_meta fields lookup
load_meta_text-lookup u [] w d = ([], refl, refl)
load_meta_text-lookup u ((user, es) ∷ m) w d =
    let (m', ran, found) = parse_all-texts u ((user, es) ∷ m) [] w d in
    (m', ap (λ ts. parse_all ts []) (user_pieces-meta_text user es m w) ∙ ran, found)

has-meta_text : (m : Meta) → IsWritable m → has 10 (meta_text m) ≡ false
unfolding has meta_text
has-meta_text [] w = refl
has-meta_text ((user, es) ∷ m) w = ground (
  arith,
  has-append 10 (user ++ b';' ∷ extents_text es) (meta_text m),
  has-append 10 user (b';' ∷ extents_text es),
  has-extents_text 10 es refl (ground arith) (ground arith),
  has-meta_text m w.2,
)

-- A file that was not there, and is written once, reads back.
read_file-write_file :
    (path text : Bytes) (s : Store)
    → lookup path s.files ≡ none
    → has 10 text ≡ false
    → read_file path (write_file path text s) ≡ text
unfolding read_file
read_file-write_file path text s absent h =
    ground (arith, absent, lookup-insert_self path text s.files, fields_rest 10 text h)

meta-write_meta : (kind : Kind) (s : Store) → meta kind (write_meta kind s) ≡ meta kind s
unfolding write_meta
meta-write_meta kind s = ground arith

meta-set_meta : (kind : Kind) (m : Meta) (s : Store) → meta kind (set_meta kind m s) ≡ m
meta-set_meta Kind.virtual_memory m s = refl
meta-set_meta Kind.checkpoint m s = refl

read_file_of_files :
    (path : Bytes) (s t : Store) → t.files ≡ s.files → read_file path t ≡ read_file path s
unfolding read_file
read_file_of_files path s t e = ground (arith, e)

read_file-write_meta :
    (kind : Kind) (s t : Store)
    → lookup (meta_path kind) s.files ≡ none
    → IsWritable (meta kind s)
    → t.files ≡ (write_meta kind s).files
    → read_file (meta_path kind) t ≡ meta_text (meta kind s)
unfolding write_meta
read_file-write_meta kind s t absent w e =
    read_file_of_files (meta_path kind) (write_meta kind s) t e
    ∙ read_file-write_file (meta_path kind) (meta_text (meta kind s)) s absent
        (has-meta_text (meta kind s) w)

-- The metadata of a checkpoint round-trip: where the file was not there before it was written, the
-- users' names hold no delimiter, and the numbers are those of an `int`, a node that has the written
-- files and no metadata in memory loads them, and then has the same extents for every user.
pub load_cp_vm_meta-write_meta :
    (kind : Kind) (user : Bytes) (s t : Store)
    → lookup (meta_path kind) s.files ≡ none
    → IsWritable (meta kind s)
    → IsDistinct (keys (meta kind s))
    → t.files ≡ (write_meta kind s).files
    → meta kind t ≡ []
    → (t' : Store) × (load_cp_vm_meta (meta_path kind) kind t ≡ ok t')
      × (lookup_or [] user (meta kind t') ≡ lookup_or [] user (meta kind s))
unfolding load_cp_vm_meta
load_cp_vm_meta-write_meta kind user s t absent w d e empty =
    let (m, ran, found) = load_meta_text-lookup user (meta kind s) w d in
    (
      set_meta kind m t,
      rw (read_file-write_meta kind s t absent w e, empty, ran) refl,
      ap (lookup_or [] user) (meta-set_meta kind m t) ∙ found,
    )
