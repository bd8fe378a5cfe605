-- ===== src/Webmail/Session.antt =====
-- The connections of webmail/webmail_server.cc: one line of a client, and what the server makes of it.
pub mod Rounds
pub mod Receivers
pub mod Frontends
use Prim.Native.Nat.{Ordering}
use cis505_penn_cloud.Prelude.{
  ℕ, zero, suc, ◌+◌, ◌-◌, Bool, true, false, not, ◌&&◌, Option, none, some, List, [], ◌∷◌, ◌++◌,
  map, if◌then◌else◌, ltb, leb, length, take, drop, ◌==◌,
}
use cis505_penn_cloud.Prelude.Ordered.{bytes_ordered, same}
use cis505_penn_cloud.Prelude.Text.{Bytes, codes, crlf, starts_with, to_lower}
use cis505_penn_cloud.Kv.Outcome.{Outcome, ok, fault, timeout, ◌>>=◌}
use cis505_penn_cloud.Kv.Ops.{is_empty}
use cis505_penn_cloud.Frontend.Text.{c_str}
use cis505_penn_cloud.Webmail.Input.{read_command, buffer_of, ended, is_end}
use cis505_penn_cloud.Webmail.Client.{Arrival}
use cis505_penn_cloud.Webmail.Send.{handle_send, store_message, zeros, Delivery, stored}

-- `reverse_path` and the receivers of `handle_mail` are copies that are dropped. `takes` is how many bytes
-- of replies can be written before a write fails, if ever one does.
pub record Session : Type 0 where
  pub helo_flag : Bool
  pub mail_flag : Bool
  pub rcpt_flag : Bool
  pub rcvr_list : List Bytes
  pub buf : Bytes
  pub coming : Bytes
  pub written : Bytes
  pub deliveries : List Delivery
  pub takes : Option ℕ

abbrev pub reply : Bytes → Session → Session
reply text s = record s { written = s.written ++ text }

-- A write that fails raises SIGPIPE, which nothing handles: it ends the process.
abbrev pub written_all : Bool × Session → Outcome (Bool × Session)
written_all (more, s) =
    let all = elim s.takes as (λ _. Bool) [ none ↦ true | some n ↦ leb (length s.written) n ] in
    if all then ok (more, s) else fault

abbrev pub ok_text : Bytes
ok_text = codes "250 OK" ++ crlf

unfoldable pub handle_helo : ℕ → Session → Session
handle_helo rlen s =
    if ltb 7 rlen
    then reply (codes "250 localhost" ++ crlf) (record s { helo_flag = true })
    else reply (codes "501 HELO command must be followed by a domain name." ++ crlf) s

-- `s.find_last_of(d)`
unfoldable pub find_last_of : ℕ → Bytes → Option ℕ
find_last_of d [] = none
find_last_of d (c ∷ s) = elim (find_last_of d s) [
  | some i ↦ some (suc i)
  | none ↦ if c == d then some 0 else none
]

-- A `substr` that starts past the end throws, and so does a `compare` at `npos`.
unfoldable pub handle_mail : Bytes → Session → Outcome Session
unfolding find_last_of
handle_mail buffer s =
    let domain_buffer = drop 10 buffer in
    let wrong : Outcome Session = ok (reply (codes "ERR: incorrect host name") s) in
    let right : Outcome Session = ok (reply ok_text (record s { mail_flag = true })) in
    let checked : Outcome Session = elim (find_last_of b'@' domain_buffer) [
      | none ↦ fault
      | some found ↦
          if starts_with (codes "@localhost.com") (drop found domain_buffer) then right else wrong
    ] in
    if leb 10 (length buffer) then checked else fault

-- The set of the receivers, in its order.
abbrev add_receiver : Bytes → List Bytes → List Bytes
add_receiver rcvr [] = rcvr ∷ []
add_receiver rcvr (r ∷ rs) =
    let rest = add_receiver rcvr rs in
    elim (bytes_ordered.cmp rcvr r) [
      | Ordering.lt ↦ rcvr ∷ r ∷ rs
      | Ordering.eq ↦ r ∷ rs
      | Ordering.gt ↦ r ∷ rest
    ]

-- A receiver at another server is always taken: the file "mqueue", which is made where there is none,
-- is not read again. One at this server is taken where his mailbox can be opened, by `is_mailbox`.
-- The receivers that are handed over are a copy that is dropped.
unfoldable pub handle_rcpt : (Bytes → Bool) → Bytes → Session → Outcome Session
unfolding find_last_of
handle_rcpt is_mailbox buffer s =
    let domain_buffer = drop 8 buffer in
    let taken = reply ok_text (record s { rcpt_flag = true }) in
    let refused = reply (codes "550 No such user here " ++ crlf) s in
    let checked : Outcome Session = elim (find_last_of b'@' domain_buffer) [
      | none ↦ fault
      | some found ↦
          let rest = drop 1 domain_buffer in
          let name = if found == 0 then rest else take (found - 1) rest in
          let local = if is_mailbox (name ++ codes ".mbox") then taken else refused in
          ok (
            if starts_with (codes "@localhost.com") (drop found domain_buffer)
            then local
            else taken)
    ] in
    if leb 8 (length buffer) then checked else fault

-- The commands that a line can be, in the order of the tests.
pub data Command : Type 0 where
  helo mail rcpt letter send quit rset noop unknown : Command

-- The text of a mail by `DATA`, on fuel: the last line is taken with what stands behind it.
unfoldable pub read_lines : ℕ → ℕ × ℕ → ℕ → Bytes → Bytes → Bytes → Outcome (Bytes × Bytes)
unfolding read_command
read_lines zero before currlen buffer coming text = timeout
read_lines (suc fuel) before currlen buffer coming text =
    read_command before buffer coming >>= λ read.
    let later : Outcome (Bytes × Bytes) = ended read >>= λ r.
    read_lines fuel before (length r.line) (buffer_of r) r.coming (text ++ c_str (buffer_of r)) in
    if is_end currlen read then ok (text ++ c_str (buffer_of read), read.coming) else later

-- The arrays that the first bytes of a line are copied to have no room for a zero byte: the comparison
-- goes on with what stands behind them on the stack, which `zero_behind` says for a command and a line.
module _ (zero_behind : Bytes → Bytes → Bool) where
  abbrev pub is_command : Bytes → Bytes → Bool
  is_command command line =
      same (map to_lower (take (length command) line)) (map to_lower command)
      && zero_behind command line

  unfoldable pub command_of : Session → Bytes → Command
  command_of s line =
      if is_command (codes "HELO ") line && not s.helo_flag
      then helo
      else if is_command (codes "MAIL FROM") line && s.helo_flag && not s.mail_flag
      then mail
      else if is_command (codes "RCPT TO") line && s.helo_flag && s.mail_flag
      then rcpt
      else if is_command (codes "DATA") line && s.rcpt_flag
      then letter
      else if is_command (codes "SEND") line
      then send
      else if is_command (codes "QUIT" ++ crlf) line
      then quit
      else if is_command (codes "RSET" ++ crlf) line
      then rset
      else if is_command (codes "NOOP") line
      then noop
      else unknown

-- What `handle_send` has done to the connection.
abbrev pub sent : Session → List Delivery × Bytes × Bytes → Session
sent s (ds, answer, left) =
    reply answer (record s { coming = left; deliveries = s.deliveries ++ ds })

-- `before` and `data_before` are the bytes of the stack before the two buffers; the other parameters
-- are those of `handle_send`, the files of the mailboxes, and the string that comes of a function that
-- ends without its `return`.
module _ (zero_behind : Bytes → Bytes → Bool) (before data_before : ℕ × ℕ) (fuel : ℕ)
    (md5 : Bytes → Bytes) (backend : Bytes → Bytes → Outcome (List Bytes))
    (connect_to : Bytes → Outcome (List Arrival)) (is_mailbox : Bytes → Bool)
    (unset_string : Outcome Bytes) where
  -- The messages to the storage nodes, one for each receiver.
  abbrev pub store_all : Bytes → List Bytes → Outcome (List Delivery)
  store_all text [] = ok []
  store_all text (user ∷ users) =
      let message = store_message md5 user text in
      backend message user >>= λ _. store_all text users >>= λ ds. ok (stored message user ∷ ds)

  -- Its result is not used, so that the flags stay as they are.
  unfoldable pub handle_data : Session → Outcome Session
  unfolding read_lines
  handle_data s = do
    (text, left) ← read_lines fuel data_before 0 (zeros 1024) s.coming []
    ds ← store_all text s.rcvr_list
    let s' = record s { coming = left; deliveries = s.deliveries ++ ds }
    ok (reply ok_text (reply (codes "354 send the mail data, end with ." ++ crlf) s'))

  -- The effect of a command, and whether the connection goes on. `handle_rcpt` has no `return` for
  -- the string that its caller adds to the receivers. `RSET` sets flags of its own block.
  unfoldable pub run_command : Command → ℕ → Bytes → Session → Outcome (Bool × Session)
  unfolding handle_helo handle_mail handle_rcpt handle_data handle_send
  run_command helo rlen line s = ok (true, handle_helo rlen s)
  run_command mail rlen line s = handle_mail line s >>= λ s'. ok (true, s')
  run_command rcpt rlen line s = do
    s' ← handle_rcpt is_mailbox line s
    rcvr ← unset_string
    ok (true, record s' { rcvr_list = add_receiver rcvr s'.rcvr_list })
  run_command letter rlen line s = handle_data s >>= λ s'. ok (true, s')
  run_command send rlen line s =
      handle_send md5 backend connect_to fuel data_before s.coming >>= λ r. ok (true, sent s r)
  run_command quit rlen line s =
      ok (false, reply (codes "221 Service closing transmission channel" ++ crlf) s)
  run_command rset rlen line s =
      ok (true, reply ok_text (record s { rcvr_list = []; buf = zeros (length s.buf) }))
  run_command noop rlen line s = ok (true, reply ok_text s)
  run_command unknown rlen line s = ok (true, reply (codes "ERR: not a command!" ++ crlf) s)

  -- One round of the loop of `worker`; a line of no bytes ends it.
  unfoldable pub worker_round : Session → Outcome (Bool × Session)
  unfolding run_command command_of read_command
  worker_round s = do
    read ← read_command before s.buf s.coming
    r ← ended read
    let line = c_str (buffer_of r)
    let s' = record s { buf = buffer_of r; coming = r.coming }
    let next = run_command (command_of zero_behind s line) (length r.line) line s'
    if is_empty read.line then ok (false, s) else (next >>= written_all)

  -- The loop, on fuel.
  unfoldable pub worker_loop : ℕ → Session → Outcome Session
  worker_loop zero s = timeout
  worker_loop (suc rounds) s =
      worker_round s >>= λ r. let later = worker_loop rounds r.1 in if r.0 then later else ok r.1

-- The session at the start of `worker`, with a client that takes every reply.
abbrev pub greeted : Bytes → Session
greeted coming = record {
  helo_flag = false;
  mail_flag = false;
  rcpt_flag = false;
  rcvr_list = [];
  buf = zeros 1024;
  coming = coming;
  written = codes "220 localhost *" ++ crlf;
  deliveries = [];
  takes = none;
}
