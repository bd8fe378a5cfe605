-- ===== src/Kv/Worker.antt =====
-- kvstore/kvstore.cc: what a storage node does with a message from a client, from the secondary
-- and from the primary, and with the master's answer.
use cis505_penn_cloud.Prelude.{
  ℕ, ◌-◌, Bool, true, false, ◌&&◌, Option, none, some, List, [], ◌∷◌, ◌++◌, map, if◌then◌else◌, ltb,
  length, take, drop,
}
use cis505_penn_cloud.Prelude.Int.{ℤ, pos}
use cis505_penn_cloud.Prelude.Ordered.{bytes_ordered, int_ordered, same}
use cis505_penn_cloud.Prelude.Text.{Bytes, codes, crlf, cut, fields, to_lower}
use cis505_penn_cloud.Prelude.Decimal.{print_int, atoi, stoi}
use cis505_penn_cloud.StdMap.{StdMap, insert, erase, lookup_or}
use cis505_penn_cloud.Kv.Outcome.{Outcome, ok, fault, ◌>>=◌}
use cis505_penn_cloud.Kv.Store.{MsgPair, ChunkInfo, Store, send}
use cis505_penn_cloud.Kv.Ops.{is_empty}
use cis505_penn_cloud.Kv.Meta.{clear_dir, cp_dir, vm_dir, load_checkpointing}
use cis505_penn_cloud.Kv.Commands

abbrev lower : Bytes → Bytes
lower s = map to_lower s

-- The text before the first blank, or all but the last two bytes where no blank stands behind the
-- first byte; a shorter text is copied past its end.
unfoldable pub parse_command : Bytes → Outcome Bytes
parse_command line =
    let whole : Outcome Bytes =
      if ltb (length line) 2 then fault else ok (lower (take (length line - 2) line)) in
    elim (cut b' ' line) [
      | none ↦ whole
      | some ([], _) ↦ whole
      | some (c ∷ t, _) ↦ ok (lower (c ∷ t))
    ]

-- The last piece before a colon, and the number behind it; `stoi` throws where there is none.
abbrev last_of : Bytes → List Bytes → Bytes
last_of d [] = d
last_of d (t ∷ ts) = last_of t ts

unfoldable pub parse_ip_and_port : Bytes → Bytes → Outcome (Bytes × ℤ)
parse_ip_and_port s ip =
    let (ts, r) = fields b':' s in
    elim (stoi r) [ none ↦ fault | some port ↦ ok (last_of ip ts, port) ]

-- What the master has said a node is.
pub data Identity : Type 0 where
  primary : Identity
  -- The node that the users' data comes from, and the names of the users.
  primary_fetching : Bytes × ℤ → Bytes → Identity
  secondary_of : Bytes × ℤ → Identity

-- `s.substr(2, n)` throws on a text of fewer than two bytes; the last branch meets one where the
-- master has answered nothing, or one byte that is not P.
unfoldable pub confirm_identity : Bytes → Outcome Identity
unfolding parse_ip_and_port
confirm_identity s =
    let is_fetching = same (take 1 (drop 1 s)) (codes " ") && ltb 1 (length s) in
    let fetching : Outcome Identity = elim (cut b',' s) [
      | none ↦ parse_ip_and_port [] [] >>= λ a. ok (primary_fetching a s)
      | some (t, r) ↦
          parse_ip_and_port (take (length t) (drop 2 s)) [] >>= λ a. ok (primary_fetching a r)
    ] in
    let following : Outcome Identity =
      if ltb (length s) 2
      then fault
      else parse_ip_and_port (drop 2 s) [] >>= λ a. ok (secondary_of a) in
    if same s (codes "P") then ok primary else if is_fetching then fetching else following

-- `remove_if` and `erase` on the messages of a user.
unfoldable pub without_sq : ℤ → List MsgPair → List MsgPair
without_sq seq_num [] = []
without_sq seq_num (p ∷ ps) =
    let rest = without_sq seq_num ps in if same p.sq seq_num then rest else p ∷ rest

-- The messages of a user without the one of this number; the last one takes the user along.
unfoldable pub release : Bytes → ℤ → Store → Store
unfolding without_sq
release user seq_num s =
    let left = without_sq seq_num (lookup_or [] user s.primary_holdback) in
    record s {
      primary_holdback =
          if is_empty left
          then erase user s.primary_holdback
          else insert user left s.primary_holdback;
    }

abbrev pub report_of : Store → List Bytes × Bytes → Outcome Store
report_of s (ts, r) = elim (stoi r) [
  | none ↦ fault
  | some seq_num ↦ ok (release (last_of [] ts) seq_num s)
]

-- "DONE user,seq": the secondary has done an operation. The user is the last piece before a comma.
unfoldable pub handle_secondary_report : Bytes → Store → Outcome Store
unfolding release
handle_secondary_report line s = report_of s (fields b',' (drop 5 line))

unfoldable pub send_held : List MsgPair → Store → Store
send_held [] s = s
send_held (p ∷ ps) s = send_held ps (send s.secondary_fd (print_int p.sq ++ b',' ∷ p.msg) s)

abbrev send_all : StdMap Bytes (List MsgPair) → Store → Store
send_all [] s = s
send_all ((_, ps) ∷ m) s = send_all m (send_held ps s)

unfoldable pub check_primary_holdback : Store → Store
unfolding send_held
check_primary_holdback s = send_all s.primary_holdback s

-- How the loop of a connection goes on.
pub data Turn : Type 0 where
  more : Turn
  quit : Turn
  -- The process ends.
  shutdown : Turn

abbrev pub done : Bytes
done = codes "!!!DONE!!!" ++ crlf

module _ (float_ceil : ℕ → ℕ) (fuel : ℕ) where
  abbrev migrate_all : List Bytes → ℤ → Store → Outcome Store
  migrate_all [] fd s = ok s
  migrate_all (user ∷ users) fd s =
      let s' = Commands.migrate_data float_ceil fuel user fd s in s' >>= migrate_all users fd

  unfoldable pub data_migration : Bytes → ℤ → Store → Outcome Store
  data_migration line fd s = migrate_all (fields b',' (drop 8 line)).0 fd s >>= λ s'.
      ok (send fd (codes "MIGRATION DONE" ++ crlf) s')

  -- A command on the connection of a client, with the text that ends the reply; `none` where the
  -- command is none of these.
  unfoldable pub client_command : Bytes → Bytes → ℤ → Store → Option (Outcome Store)
  client_command command line fd s =
      if same command (codes "put")
      then some (Commands.put float_ceil fuel line true fd (pos 0) s)
      else if same command (codes "get")
      then some (Commands.get float_ceil fuel line fd s)
      else if same command (codes "cput")
      then some (Commands.cput float_ceil fuel line true fd (pos 0) s)
      else if same command (codes "dele")
      then some (Commands.dele float_ceil fuel line true false fd (pos 0) s)
      else if same command (codes "getlist")
      then some (Commands.getlist float_ceil fuel line fd s)
      else if same command (codes "getfile")
      then some (Commands.getfile float_ceil fuel line fd s)
      else if same command (codes "rename")
      then some (Commands.rename float_ceil fuel line true fd (pos 0) s)
      else none

  -- The commands of `worker`.
  unfoldable pub execute : Bytes → Bytes → ℤ → Turn → Store → Outcome (Turn × Store)
  unfolding client_command handle_secondary_report data_migration
  execute command line fd turn s =
      let other : Outcome (Turn × Store) =
        if same command (codes "done")
        then (handle_secondary_report line s >>= λ s'. ok (turn, s'))
        else if same command (codes "request")
        then (data_migration line fd s >>= λ s'. ok (turn, s'))
        else if same command (codes "quit")
        then ok (quit, s)
        else ok (turn, Commands.error fd s) in
      elim (client_command command line fd s) [
        | some run ↦ run >>= λ s'. ok (turn, send fd done s')
        | none ↦ other
      ]

  -- One round of the loop of `worker` for a message that is not empty.
  unfoldable pub worker_round : Bytes → ℤ → Store → Outcome (Turn × Store)
  unfolding execute parse_command check_primary_holdback
  worker_round line fd s =
      let turn = if same fd s.secondary_fd then more else quit in
      if same line (b'S' ∷ crlf)
      then ok (more, check_primary_holdback (record s { secondary_fd = fd }))
      else if same line (codes "shutdown" ++ crlf)
      then ok (shutdown, s)
      else parse_command line >>= λ command. execute command line fd turn s

  -- The operations that a secondary takes over.
  unfoldable pub follow : Bytes → Bytes → ℤ → ℤ → Store → Outcome Store
  follow command line fd seq_num s =
      if same command (codes "put")
      then Commands.put float_ceil fuel line true fd seq_num s
      else if same command (codes "cput")
      then Commands.cput float_ceil fuel line true fd seq_num s
      else if same command (codes "dele")
      then Commands.dele float_ceil fuel line true false fd seq_num s
      else if same command (codes "rename")
      then Commands.rename float_ceil fuel line true fd seq_num s
      else ok s

  -- One round of the loop of `ps_worker`; a message without a comma is read through a null pointer.
  unfoldable pub ps_round : Bytes → ℤ → Store → Outcome Store
  unfolding follow parse_command
  ps_round buffer fd s = elim (cut b',' buffer) [
    | none ↦ fault
    | some (sq, line) ↦ parse_command line >>= λ command. follow command line fd (atoi sq) s
  ]

-- `initialization`: a new node (`-n`) starts with nothing, any other recovers.
unfoldable pub initialization : (ℕ → ℕ) → ℕ → Bool → Store → Outcome Store
initialization float_ceil fuel opt_n s =
    let none_yet : ChunkInfo = record { number = 0; size = 0 } in
    let files =
      clear_dir (codes "metadata/")
        (clear_dir cp_dir (clear_dir (cp_dir ++ vm_dir) (clear_dir vm_dir s.files))) in
    if opt_n
    then ok (record s { files = files; virmem_info = none_yet; cp_info = none_yet })
    else load_checkpointing float_ceil fuel s >>= Commands.replay_log float_ceil fuel
