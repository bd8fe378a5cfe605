-- ===== src/Webmail/Client.antt =====
-- The buffered connection of webmail/webmail_utils.cc, by which the frontend talks to the mail server,
-- and the mail server to others. A panic is the outcome `fault`.
pub mod Chunks
use cis505_penn_cloud.Prelude.{
  ℕ, ◌-◌, Bool, true, false, not, ◌&&◌, ◌||◌, none, some, List, [], ◌∷◌, ◌++◌, if◌then◌else◌, ◌==◌,
  leb, length, take, drop,
}
use cis505_penn_cloud.Prelude.Text.{Bytes, cut}
use cis505_penn_cloud.Kv.Outcome.{Outcome, ok, fault, ◌>>=◌}
use cis505_penn_cloud.Kv.Ops.{is_empty}
use cis505_penn_cloud.Frontend.Text.{c_str}

-- What comes in on a socket: some bytes at once, or nothing yet. The end of the list, or no bytes, is
-- the end of the connection.
pub data Arrival : Type 0 where
  some_bytes : Bytes → Arrival
  pause : Arrival

pub record Connection : Type 0 where
  pub buffer_size : ℕ
  pub buffer : Bytes
  pub incoming : List Arrival
  pub written : Bytes

-- What a read leaves of the bytes that have arrived.
abbrev pub remainder : ℕ → Bytes → List Arrival → List Arrival
remainder room bytes arrivals =
    let rest = drop room bytes in if is_empty rest then arrivals else some_bytes rest ∷ arrivals

unfoldable pub initialize_buffers : ℕ → List Arrival → Connection
initialize_buffers buffer_size_bytes incoming = record {
  buffer_size = buffer_size_bytes;
  buffer = [];
  incoming = incoming;
  written = [];
}

-- Up to the first zero byte.
unfoldable pub write_string : Bytes → Connection → Connection
write_string text conn = record conn { written = conn.written ++ c_str text }

-- The loop that reads up to a newline: the bytes before it, those behind it, and what is still to come.
unfoldable pub fill_line : ℕ → Bytes → List Arrival → Outcome (Bytes × Bytes × List Arrival)
fill_line buffer_size buffer [] = elim (cut 10 buffer) [
  | none ↦ fault
  | some (line, rest) ↦ ok (line, rest, [])
]
fill_line buffer_size buffer (pause ∷ arrivals) =
    let later = fill_line buffer_size buffer arrivals in
    elim (cut 10 buffer) [
      | none ↦ if leb buffer_size (length buffer) then fault else later
      | some (line, rest) ↦ ok (line, rest, pause ∷ arrivals)
    ]
fill_line buffer_size buffer (some_bytes bytes ∷ arrivals) =
    let room = buffer_size - length buffer in
    let longer = buffer ++ take room bytes in
    let later = fill_line buffer_size longer arrivals in
    let full : Outcome (Bytes × Bytes × List Arrival) = elim (cut 10 longer) [
      | none ↦ fault
      | some (line, rest) ↦ ok (line, rest, remainder room bytes arrivals)
    ] in
    let read : Outcome (Bytes × Bytes × List Arrival) =
      if is_empty (drop room bytes) then later else full in
    elim (cut 10 buffer) [
      | none ↦ if leb buffer_size (length buffer) || is_empty bytes then fault else read
      | some (line, rest) ↦ ok (line, rest, some_bytes bytes ∷ arrivals)
    ]

-- The line without the carriage return at its end.
unfoldable pub without_return : Bytes → Bytes
without_return [] = []
without_return (c ∷ []) = if c == 13 then [] else c ∷ []
without_return (c ∷ d ∷ s) = c ∷ without_return (d ∷ s)

abbrev pub took : Connection → Bytes × Bytes × List Arrival → Bytes × Connection
took conn (line, rest, arrivals) =
    (without_return line, record conn { buffer = rest; incoming = arrivals })

-- A line of the other side.
unfoldable pub do_read : Connection → Outcome (Bytes × Connection)
unfolding fill_line without_return
do_read conn = fill_line conn.buffer_size conn.buffer conn.incoming >>= λ l. ok (took conn l)

-- Whether a line is the expected one; an asterisk stands for the rest of it.
unfoldable pub is_expected : Bytes → Bytes → Bool
is_expected [] [] = true
is_expected [] (c ∷ line) = c == 0
is_expected (d ∷ expected) [] = d == b'*'
is_expected (d ∷ expected) (c ∷ line) = d == b'*' || (d == c && is_expected expected line)

-- What is printed is whether the line is the expected one.
unfoldable pub expect_to_read : Bytes → Connection → Outcome (Bool × Connection)
unfolding do_read is_expected
expect_to_read expected conn = do_read conn >>= λ r. ok (is_expected expected r.0, r.1)

-- The socket does not block here; what is there is dropped.
unfoldable pub expect_no_more_data : Connection → Connection
expect_no_more_data conn = elim conn.incoming [
  | [] ↦ record conn { buffer = [] }
  | a ∷ arrivals ↦ (elim a [
    | pause ↦ record conn { buffer = []; incoming = arrivals }
    | some_bytes bytes ↦ record conn {
      buffer = [];
      incoming = remainder (conn.buffer_size - length conn.buffer) bytes arrivals;
    }
  ])
]

-- A read that blocks, and drops what it reads.
unfoldable pub close_arrivals : ℕ → List Arrival → Bool × List Arrival
close_arrivals room [] = (false, [])
close_arrivals room (pause ∷ arrivals) = close_arrivals room arrivals
close_arrivals room (some_bytes bytes ∷ arrivals) =
    (not (is_empty (take room bytes)), remainder room bytes arrivals)

unfoldable pub expect_remote_close : Connection → Connection
unfolding close_arrivals
expect_remote_close conn =
    let (some_more, arrivals) =
      close_arrivals (conn.buffer_size - length conn.buffer) conn.incoming in
    record conn { buffer = if some_more then [] else conn.buffer; incoming = arrivals }
