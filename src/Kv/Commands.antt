-- ===== src/Kv/Commands.antt =====
-- `Chunkserver` of kvstore/chunkserver.cc: the commands on their text lines, the log and its replay,
-- what a primary sends to its secondary, and the migration of a user.
-- `parse_line` counts in a variable that no line of the source declares; the count starts at 0 here.
pub mod Replicas
pub mod Evicted
pub mod Lines
pub mod Fetched
pub mod Replay
use cis505_penn_cloud.Prelude.{
  ℕ, zero, suc, ◌+◌, ◌-◌, Bool, true, false, Option, none, some, List, [], ◌∷◌, ◌++◌, if◌then◌else◌,
  ltb, length, take, drop,
}
use cis505_penn_cloud.Prelude.Int.{ℤ, pos, negsuc}
use cis505_penn_cloud.Prelude.Ordered.{bytes_ordered, same}
use cis505_penn_cloud.Prelude.Text.{Bytes, codes, crlf, cut, fields}
use cis505_penn_cloud.Prelude.Decimal.{print_int}
use cis505_penn_cloud.StdMap.{StdMap, insert, lookup_or}
use cis505_penn_cloud.Kv.Outcome.{Outcome, ok, fault, ◌>>=◌}
use cis505_penn_cloud.Kv.Store.{MsgPair, Store, send}
use cis505_penn_cloud.Kv.Cache.{node_of, files_of}
use cis505_penn_cloud.Kv.Cache
use cis505_penn_cloud.Kv.Cache.Reply
use cis505_penn_cloud.Kv.Ops.{with_value, is_empty}
use cis505_penn_cloud.Kv.Ops

-- `error`
abbrev pub error : ℤ → Store → Store
error fd s = send fd Reply.not_supported s

-- The pieces that `parse_line` finds with `n + 1` for `num_of_args`.
unfoldable pub parse_line : ℕ → Bytes → List Bytes
parse_line zero s = s ∷ []
parse_line (suc n) s = elim (cut b',' s) [ none ↦ s ∷ [] | some (t, r) ↦ t ∷ parse_line n r ]

-- `x.assign(s, 0, s.size() - 2)`: where the size wraps around, all of `s`.
abbrev pub chop : Bytes → Bytes
chop s = if ltb (length s) 2 then s else take (length s - 2) s

-- The tests on the number of arguments.
abbrev pub with_two {ℓ} : {A : Type ℓ} → List Bytes → (Bytes → Bytes → A) → A → A
with_two (a ∷ b ∷ []) f other = f a b
with_two _ f other = other

abbrev pub with_three {ℓ} : {A : Type ℓ} → List Bytes → (Bytes → Bytes → Bytes → A) → A → A
with_three (a ∷ b ∷ c ∷ []) f other = f a b c
with_three _ f other = other

abbrev pub with_four {ℓ} : {A : Type ℓ} → List Bytes → (Bytes → Bytes → Bytes → Bytes → A) → A → A
with_four (a ∷ b ∷ c ∷ d ∷ []) f other = f a b c d
with_four _ f other = other

abbrev pub next_int : ℤ → ℤ
next_int (pos n) = pos (n + 1)
next_int (negsuc zero) = pos 0
next_int (negsuc (suc n)) = negsuc n

unfoldable pub write_log : Bytes → Store → Store
write_log request s = record s { log = s.log ++ request }

unfoldable pub send_to_secondary : Bytes → Bytes → Store → Store
send_to_secondary line user s =
    let sequence = next_int (lookup_or (pos 0) user s.seq_num_records) in
    let held : MsgPair = record { sq = sequence; msg = line } in
    let s1 = record s {
      seq_num_records = insert user sequence s.seq_num_records;
      primary_holdback =
          insert user (lookup_or [] user s.primary_holdback ++ held ∷ []) s.primary_holdback;
    } in
    send s1.secondary_fd (print_int sequence ++ b',' ∷ line) s1

-- What follows a write that a client, or the primary, has asked for.
unfoldable pub record_write : Bool → Bytes → Bytes → Store → Store
unfolding write_log send_to_secondary
record_write external line user s =
    let s1 = write_log line s in
    if external then (if s1.is_primary then send_to_secondary line user s1 else s1) else s

abbrev pub recorded : Bool → Bytes → Bytes → Outcome Store → Outcome Store
recorded external line user run = run >>= λ s. ok (record_write external line user s)

-- `float_ceil` is that of `write_to_chunk`, and `fuel` bounds the recursion of `LRUCache::put`.
module _ (float_ceil : ℕ → ℕ) (fuel : ℕ) where
  -- PUT r,c,v
  unfoldable pub put : Bytes → Bool → ℤ → ℤ → Store → Outcome Store
  unfolding record_write parse_line
  put line external fd seq_num s =
      with_three (parse_line 2 (drop 4 line))
        (λ user filename value.
          recorded external line user
            (Cache.put float_ceil fuel user filename value fd true seq_num s))
        (ok (error fd s))

  -- GET r,c
  unfoldable pub get : Bytes → ℤ → Store → Outcome Store
  unfolding parse_line
  get line fd s =
      with_two (parse_line 1 (drop 4 line))
        (λ user filename. Ops.get float_ceil fuel user (chop filename) fd s) (ok (error fd s))

  -- CPUT r,c,v1,v2
  unfoldable pub cput : Bytes → Bool → ℤ → ℤ → Store → Outcome Store
  unfolding record_write parse_line
  cput line external fd seq_num s =
      with_four (parse_line 3 (drop 5 line))
        (λ user filename old_value new_value.
          recorded external line user
            (Ops.cput float_ceil fuel user filename (old_value ++ crlf) new_value fd seq_num s))
        (ok (error fd s))

  -- DELE r,c
  unfoldable pub dele : Bytes → Bool → Bool → ℤ → ℤ → Store → Outcome Store
  unfolding record_write parse_line
  dele line external is_migration fd seq_num s =
      with_two (parse_line 1 (drop 5 line))
        (λ user filename.
          recorded external line user
            (Ops.dele float_ceil fuel user (chop filename) fd seq_num is_migration s))
        (ok (error fd s))

  -- GETLIST user,lst_type
  unfoldable pub getlist : Bytes → ℤ → Store → Outcome Store
  unfolding parse_line
  getlist line fd s =
      with_two (parse_line 1 (drop 8 line))
        (λ user type. Ops.getlist float_ceil fuel user (chop type) fd s) (ok (error fd s))

  -- GETFILE user
  unfoldable pub getfile : Bytes → ℤ → Store → Outcome Store
  getfile line fd s =
      if ltb 10 (length line)
      then Ops.getfile float_ceil fuel (take (length line - 10) (drop 8 line)) fd s
      else ok (error fd s)

  -- RENAME r,c1,c2
  unfoldable pub rename : Bytes → Bool → ℤ → ℤ → Store → Outcome Store
  unfolding record_write parse_line
  rename line external fd seq_num s =
      with_three (parse_line 2 (drop 7 line))
        (λ user old_filename new_filename.
          recorded external line user
            (Ops.rename float_ceil fuel user old_filename (chop new_filename) fd seq_num s))
        (ok (error fd s))

  -- One line of the log, of which the newline has been taken off.
  unfoldable pub replay_line : Bytes → Store → Outcome Store
  unfolding put cput dele
  replay_line line s =
      let record_ = line ++ 10 ∷ [] in
      let command : Bytes = elim (cut b' ' line) [ none ↦ [] | some (t, r) ↦ t ] in
      if same command (codes "put")
      then put record_ false (negsuc 0) (pos 0) s
      else if same command (codes "cput")
      then cput record_ false (negsuc 0) (pos 0) s
      else if same command (codes "dele")
      then dele record_ false false (negsuc 0) (pos 0) s
      else ok s

  unfoldable pub replay_lines : List Bytes → Store → Outcome Store
  unfolding replay_line
  replay_lines [] s = ok s
  replay_lines (line ∷ lines) s = let s' = replay_line line s in s' >>= replay_lines lines

  -- `getline` also gives what stands behind the last newline, if anything does.
  unfoldable pub replay_log : Store → Outcome Store
  unfolding replay_lines
  replay_log s =
      let (lines, rest) = fields 10 s.log in
      replay_lines (if is_empty rest then lines else lines ++ rest ∷ []) s

  -- The two loops of `migrate_data`, over the files that the user has when each loop begins.
  unfoldable pub send_files : Bytes → ℤ → StdMap Bytes Bytes → Store → Outcome Store
  send_files user fd [] s = ok s
  send_files user fd ((filename, _) ∷ m) s =
      let sent : Outcome Store =
        with_value float_ceil fuel user filename fd
          (λ value s'. ok (send fd (codes "put " ++ user ++ b',' ∷ filename ++ b',' ∷ value) s'))
          s in
      sent >>= send_files user fd m

  unfoldable pub delete_files : Bytes → ℤ → StdMap Bytes Bytes → Store → Outcome Store
  unfolding dele
  delete_files user fd [] s = ok s
  delete_files user fd ((filename, _) ∷ m) s =
      let deleted : Outcome Store =
        with_value float_ceil fuel user filename fd
          (λ _ s'. dele (codes "dele " ++ user ++ b',' ∷ filename ++ crlf) true true fd (pos 0) s')
          s in
      deleted >>= delete_files user fd m

  unfoldable pub migrate_data : Bytes → ℤ → Store → Outcome Store
  unfolding send_files delete_files
  migrate_data user fd s = do
    n ← node_of user s
    s1 ← send_files user fd (files_of n s) s
    n1 ← node_of user s1
    delete_files user fd (files_of n1 s1) s1
