-- ===== src/Webmail/Input.antt =====
-- How webmail/webmail_utils.cc reads a line of a client into a buffer of fixed size, a byte at a time.
-- At the end of the connection `read` gives 0, which the loop does not test: it goes on over what the
-- buffer held before. An error of `read` is left out.
pub mod Lines
pub mod Bounds
use cis505_penn_cloud.Prelude.{ℕ, Bool, ◌&&◌, not, List, [], ◌∷◌, ◌++◌, if◌then◌else◌, ◌==◌, length}
use cis505_penn_cloud.Prelude.Text.{Bytes, codes, crlf, starts_with}
use cis505_penn_cloud.Kv.Outcome.{Outcome, ok, fault, ◌>>=◌}
use cis505_penn_cloud.Kv.Ops.{is_empty}

-- What has been read, what the buffer holds behind it, and what is still to come.
pub record Input : Type 0 where
  pub line : Bytes
  pub stale : Bytes
  pub coming : Bytes

abbrev pub longer : ℕ → Input → Input
longer c r = record r { line = c ∷ r.line }

-- The loop, with the two bytes that stand before the next place of the buffer. A line that does not
-- fit is written past its end.
unfoldable pub read_from : ℕ → ℕ → Bytes → Bytes → Outcome Input
read_from second last [] coming =
    if last == 10 && second == 13
    then ok (record { line = []; stale = []; coming = coming })
    else fault
read_from second last (old ∷ stale) [] =
    let again = read_from last old stale [] in
    if last == 10 && second == 13
    then ok (record { line = []; stale = old ∷ stale; coming = [] })
    else again >>= λ r. ok (longer old r)
read_from second last (old ∷ stale) (c ∷ coming) =
    let next = read_from last c stale coming in
    if last == 10 && second == 13
    then ok (record { line = []; stale = old ∷ stale; coming = c ∷ coming })
    else next >>= λ r. ok (longer c r)

-- The zero byte that a caller writes behind the line; behind the buffer's end it hits other memory.
abbrev pub ended : Input → Outcome Input
ended r = elim r.stale [ [] ↦ fault | _ ∷ stale ↦ ok (record r { stale = 0 ∷ stale }) ]

-- `read_command` and `read_data`, with the two bytes of the stack before the buffer.
unfoldable pub read_command : ℕ × ℕ → Bytes → Bytes → Outcome Input
unfolding read_from
read_command (second, last) buffer coming = read_from second last buffer coming

abbrev pub buffer_of : Input → Bytes
buffer_of r = r.line ++ r.stale

-- `read_data` also says whether the line is the end of a mail: a dot, where a line of some bytes was
-- read before.
abbrev pub is_end : ℕ → Input → Bool
is_end currlen r = not (currlen == 0) && starts_with (codes "." ++ crlf) (buffer_of r)
