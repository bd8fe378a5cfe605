-- ===== src/Webmail/Send.antt =====
-- `handle_send` of webmail/webmail_utils.cc: a mail of the frontend, as it is stored or sent on.
pub mod Letters
pub mod Addresses
pub mod Local
use cis505_penn_cloud.Prelude.{
  ℕ, zero, suc, ◌+◌, ◌-◌, ◌&&◌, Bool, true, false, Option, none, some, List, [], ◌∷◌, ◌++◌,
  if◌then◌else◌, ◌==◌, ltb, leb, length, take, drop,
}
use cis505_penn_cloud.Prelude.Positions.{index_from, find_first_of, next_of}
use cis505_penn_cloud.Prelude.Text.{Bytes, codes, crlf, starts_with}
use cis505_penn_cloud.Kv.Outcome.{Outcome, ok, fault, timeout, ◌>>=◌}
use cis505_penn_cloud.Frontend.Text.{c_str}
use cis505_penn_cloud.Webmail.Input.{read_command, buffer_of, ended, is_end}
use cis505_penn_cloud.Webmail.Client.{
  Arrival, Connection, initialize_buffers, write_string, expect_to_read, expect_no_more_data,
  expect_remote_close,
}

-- `s.substr(i + 1, k - i - 1)` on positions of 64 bits, where `npos` is -1.
abbrev pub between : Option ℕ → Option ℕ → Bytes → Bytes
between none none s = s
between none (some k) s = take k s
between (some i) none s = drop (i + 1) s
between (some i) (some k) s = if ltb i k then take (k - i - 1) (drop (i + 1) s) else drop (i + 1) s

-- The receivers in a line, on fuel: each round goes on behind a bracket.
unfoldable pub receivers : ℕ → Option ℕ → Option ℕ → Bytes → Outcome (List Bytes)
unfolding index_from
receivers zero found1 found2 s = timeout
receivers (suc fuel) none found2 s = ok []
receivers (suc fuel) (some i) found2 s =
    receivers fuel (find_first_of b'<' (i + 1) s) (find_first_of b'>' (next_of found2) s) s
    >>= λ rcvrs. ok (between (some i) found2 s ∷ rcvrs)

-- A mail as far as it is read: its text, its sender and the queue of its receivers.
pub record Letter : Type 0 where
  pub text : Bytes
  pub sender : Bytes
  pub queue : List Bytes

-- The queue has room for 20 receivers.
abbrev pub queued : Letter → List Bytes → Outcome Letter
queued m rcvrs =
    let queue = m.queue ++ rcvrs in
    if ltb 20 (length queue) then fault else ok (record m { queue = queue })

-- One line of the mail.
unfoldable pub add_line : Bytes → Letter → Outcome Letter
unfolding receivers index_from
add_line s m =
    let found1 = find_first_of b'<' 0 s in
    let found2 = find_first_of b'>' 0 s in
    let m1 = record m { text = m.text ++ s } in
    let m2 =
      if starts_with (codes "From:") s
      then record m1 { sender = between found1 found2 s }
      else m1 in
    let to : Outcome Letter = receivers (suc (length s)) found1 found2 s >>= queued m2 in
    if starts_with (codes "To:") s then to else ok m2

-- The loop over the lines, on fuel, and what is still to come behind the mail.
unfoldable pub read_letter : ℕ → ℕ × ℕ → ℕ → Bytes → Bytes → Letter → Outcome (Letter × Bytes)
unfolding read_command add_line
read_letter zero before currlen buffer coming m = timeout
read_letter (suc fuel) before currlen buffer coming m =
    read_command before buffer coming >>= λ read. ended read >>= λ r.
    let later : Outcome (Letter × Bytes) = add_line (c_str (buffer_of r)) m >>= λ m'.
    read_letter fuel before (length r.line) (buffer_of r) r.coming m' in
    if is_end currlen read
    then ok (record m { text = m.text ++ c_str (buffer_of r) }, r.coming)
    else later

-- What has become of a mail for one receiver.
pub data Delivery : Type 0 where
  -- What was written to the server of this name.
  relayed : Bytes → Bytes → Delivery
  -- The message and the user's name that `send_to_backend` is called with.
  stored : Bytes → Bytes → Delivery

-- A line that is built in an array of 1024 bytes.
abbrev pub built : Bytes → Outcome Bytes
built line = if ltb (length line) 1024 then ok line else fault

abbrev pub say : Bytes → Bytes → Connection → Outcome Connection
say line reply conn =
    expect_to_read reply (write_string line conn) >>= λ r. ok (expect_no_more_data r.1)

-- The dialogue with the server of a receiver.
unfoldable pub relay : Bytes → Bytes → Bytes → List Arrival → Outcome Connection
unfolding initialize_buffers write_string expect_to_read expect_no_more_data expect_remote_close
relay content sender rcvr incoming = do
  greeted ← expect_to_read (codes "220 localhost *") (initialize_buffers 1024 incoming)
  helo ← say (codes "HELO tester" ++ crlf) (codes "250 localhost") (expect_no_more_data greeted.1)
  from ← built (codes "MAIL FROM:<" ++ sender ++ codes ">" ++ crlf)
  mail ← say from (codes "250 OK") helo
  to ← built (codes "RCPT TO:<" ++ rcvr ++ codes ">" ++ crlf)
  rcpt ← say to (codes "250 OK") mail
  begun ← say (codes "DATA" ++ crlf) (codes "354 *") rcpt
  sent ← say content (codes "250 OK") begun
  bye ← expect_to_read (codes "221 *") (write_string (codes "QUIT" ++ crlf) sent)
  ok (expect_remote_close bye.1)

abbrev pub server_of : Bytes → Bytes
server_of rcvr = drop (next_of (find_first_of b'@' 0 rcvr)) rcvr

abbrev pub user_of : Bytes → Bytes
user_of rcvr = elim (find_first_of b'@' 0 rcvr) [ none ↦ rcvr | some i ↦ take i rcvr ]

-- `bzero`
abbrev pub zeros : ℕ → Bytes
zeros zero = []
zeros (suc n) = 0 ∷ zeros n

-- The message that stores a mail under its digest.
unfoldable pub store_message : (Bytes → Bytes) → Bytes → Bytes → Bytes
store_message md5 user text =
    codes "put " ++ user ++ codes ",##" ++ md5 (c_str text) ++ b',' ∷ (text ++ crlf)

-- A mail that a local receiver gets is answered.
abbrev pub answer_to : List Delivery → Bytes
answer_to [] = []
answer_to (relayed _ _ ∷ ds) = answer_to ds
answer_to (stored _ _ ∷ ds) = codes "250 OK" ++ crlf

-- `md5` is the digest in hexadecimal digits, `backend` is `send_to_backend`, and `connect_to` gives
-- what a server sends, whose name is looked up in the DNS.
module _ (md5 : Bytes → Bytes) (backend : Bytes → Bytes → Outcome (List Bytes))
    (connect_to : Bytes → Outcome (List Arrival)) where
  -- The loop over the queue, which a local receiver ends. Behind the last one the source has no `return`;
  -- the value is not used.
  unfoldable pub deliver : Letter → List Bytes → Outcome (List Delivery)
  unfolding relay store_message index_from
  deliver m [] = ok []
  deliver m (rcvr ∷ queue) =
      let user = user_of rcvr in
      let message = store_message md5 user m.text in
      let local : Outcome (List Delivery) =
        backend message user >>= λ _. ok (stored message user ∷ []) in
      let remote : Outcome (List Delivery) = connect_to (server_of rcvr) >>= λ incoming.
      relay m.text m.sender rcvr incoming >>= λ conn.
      deliver m queue >>= λ later. ok (relayed (server_of rcvr) conn.written ∷ later) in
      if starts_with (codes "localhost.com") (server_of rcvr) then local else remote

  -- What comes of a mail, the answer to the client, and what is still to come.
  unfoldable pub handle_send : ℕ → ℕ × ℕ → Bytes → Outcome (List Delivery × Bytes × Bytes)
  unfolding read_letter deliver
  handle_send fuel before coming = do
    let empty : Letter = record { text = []; sender = []; queue = [] }
    (m, left) ← read_letter fuel before 0 (zeros 1024) coming empty
    ds ← deliver m m.queue
    ok (ds, answer_to ds, left)
