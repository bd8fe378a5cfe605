-- ===== src/Kv/Ops/Hits.antt =====
-- `get` of kvstore/lrucache.cc for a user in memory.
use cis505_penn_cloud.Prelude.{
  ℕ, ◌≡◌, refl, ap, ◌∙◌, Bool, true, false, ◌||◌, Option, none, some, List, [], ◌∷◌, ◌++◌,
  if◌then◌else◌,
}
use cis505_penn_cloud.Prelude.Int.{ℤ}
use cis505_penn_cloud.Prelude.Ordered.{bytes_ordered}
use cis505_penn_cloud.Prelude.Text.{Bytes}
use cis505_penn_cloud.StdMap.{lookup, contains}
use cis505_penn_cloud.Kv.Outcome.{Outcome, ok, ◌>>=◌, >>=-eq-ok}
use cis505_penn_cloud.Kv.Nodes.{Heap, move_to_tail, unlink}
use cis505_penn_cloud.Kv.Nodes.Chain.{Avoids}
use cis505_penn_cloud.Kv.Nodes.Relink.{IsList, relink, relink-IsList}
use cis505_penn_cloud.Kv.Store.{Store, send}
use cis505_penn_cloud.Kv.Cache.{node_of, files_of, on_nodes}
use cis505_penn_cloud.Kv.Cache.Reply
use cis505_penn_cloud.Kv.Ops.{relink_user, read_file_of, hit, get_helper, with_value, get}

abbrev pub with_nodes : Heap → Store → Store
with_nodes h s = record s { nodes = h }

relink_user-relink :
    (n : ℕ) (s : Store) (h : Heap) → relink n s.nodes ≡ ok h → relink_user n s ≡ ok (with_nodes h s)
relink_user-relink n s h e =
    let (h1, out, back) = >>=-eq-ok (unlink n s.nodes) (move_to_tail n) e in
    rw (out, on_nodes, back) refl

-- The value that a read finds, and the reply where there is none.
abbrev pub read_reply : Option Bytes → ℤ → Store → Store
read_reply none fd s = send fd Reply.no_such_file s
read_reply (some value) fd s = send fd value (send fd Reply.value_follows s)

hit-relink :
    (user filename : Bytes) (fd : ℤ) (s : Store) (n : ℕ) (h : Heap)
    → lookup user s.tablets ≡ some n
    → relink n s.nodes ≡ ok h
    → hit user filename fd s ≡ ok (read_file_of n filename fd (with_nodes h s))
unfolding hit
hit-relink user filename fd s n h here moved =
    rw (here, node_of, relink_user-relink n s h moved, hit) refl

-- The way of `get_helper` for a user who is in memory and not on disk.
in_memory_only :
    {A : Type 0} (a b : Bool) (x : Outcome Store) (y : Outcome A) (f : Store → Outcome A)
    (s : Store)
    → a ≡ true
    → b ≡ false
    → (if a || b then (if b then x else ok s) >>= f else y) ≡ f s
in_memory_only a b x y f s ha hb = rw (ha, hb) refl

pub read_file_of_found :
    (n : ℕ) (filename value : Bytes) (fd : ℤ) (s : Store)
    → lookup filename (files_of n s) ≡ some value
    → read_file_of n filename fd s ≡ (some value, s)
unfolding read_file_of
read_file_of_found n filename value fd s e = rw (e, read_file_of) refl

module _ (float_ceil : ℕ → ℕ) (fuel : ℕ) where
  pub get_helper-hit :
      (user filename : Bytes) (fd : ℤ) (s : Store) (n : ℕ) (h : Heap)
      → lookup user s.tablets ≡ some n
      → lookup user s.virmem_meta ≡ none
      → relink n s.nodes ≡ ok h
      → get_helper float_ceil fuel user filename fd s
        ≡ ok (read_file_of n filename fd (with_nodes h s))
  unfolding get_helper
  get_helper-hit user filename fd s n h here not_there moved =
      let there : contains user s.tablets ≡ true = rw (here, contains) refl in
      let not_disk : contains user s.virmem_meta ≡ false = rw (not_there, contains) refl in
      in_memory_only (contains user s.tablets) (contains user s.virmem_meta) _ _
        (hit user filename fd) s there not_disk
      ∙ hit-relink user filename fd s n h here moved

  -- A read of a file of a user in memory, wherever the user stands in the list: the client gets the
  -- value, the user is then the last of the list, the others keep their order, and no file, no
  -- tablet and no count has changed.
  pub get_hit :
      (user filename value : Bytes) (fd : ℤ) (s : Store) (n : ℕ) (xs ys : List ℕ)
      → lookup user s.tablets ≡ some n
      → lookup user s.virmem_meta ≡ none
      → lookup filename (files_of n s) ≡ some value
      → Avoids n xs
      → Avoids n ys
      → IsList s.nodes (xs ++ n ∷ ys)
      → (h : Heap) × (get float_ceil fuel user filename fd s
          ≡ ok (send fd value (send fd Reply.value_follows (record s { nodes = h }))))
        × IsList h ((xs ++ ys) ++ n ∷ [])
        × (h.value ≡ s.nodes.value)
  unfolding get
  get_hit user filename value fd s n xs ys here not_there found vx vy list =
      let (h, moved, after, values, keys) = relink-IsList n s.nodes xs ys vx vy list in
      let still : lookup filename (files_of n (with_nodes h s)) ≡ some value =
        ap (λ v. lookup filename (v n)) values ∙ found in
      let read =
        get_helper-hit user filename fd s n h here not_there moved
        ∙ ap ok (read_file_of_found n filename value fd (with_nodes h s) still) in
      (h, rw (read, with_value) refl, after, values)
