-- ===== src/Tests/OnSessions.antt =====
-- Runs of the mail server.
use cis505_penn_cloud.Prelude.{ℕ, ◌≡◌, refl, Bool, true, false, some, List, [], ◌∷◌, ◌++◌, arith}
use cis505_penn_cloud.Prelude.Text.{Bytes, codes, crlf, has, to_lower}
use cis505_penn_cloud.Kv.Outcome.{Outcome, ok, fault, timeout, ◌>>=◌}
use cis505_penn_cloud.Webmail.Client.{Arrival, some_bytes, pause, fill_line}
use cis505_penn_cloud.Webmail.Client.Chunks.{all_bytes, fill_line-chunks}
use cis505_penn_cloud.Webmail.Input.{read_command, ended}
use cis505_penn_cloud.Webmail.Input.Bounds.{ended-read_command}
use cis505_penn_cloud.Webmail.Send.{zeros}
use cis505_penn_cloud.Webmail.Session.{
  Session, command_of, worker_round, ok_text, worker_loop, greeted,
}
use cis505_penn_cloud.Webmail.Session.Rounds.{repeated, Rounds, worker_loop-closed}

-- The arrays of the commands are followed by a zero byte, a node answers every message with no line,
-- and no other server can be reached.
abbrev zero_behind : Bytes → Bytes → Bool
zero_behind command line = true

abbrev md5 : Bytes → Bytes
md5 text = codes "d41d8"

abbrev backend : Bytes → Bytes → Outcome (List Bytes)
backend message user = ok []

abbrev connect_to : Bytes → Outcome (List Arrival)
connect_to server = fault

abbrev is_mailbox : Bytes → Bool
is_mailbox name = false

abbrev unset_string : Outcome Bytes
unset_string = ok (codes "?")

abbrev loop : ℕ → Session → Outcome Session
loop rounds s =
    worker_loop zero_behind (0, 0) (0, 0) 9 md5 backend connect_to is_mailbox unset_string rounds s

abbrev waiting : Session
waiting = record (greeted []) { buf = codes "noop" ++ crlf ++ 0 ∷ zeros 9 }

worker_loop-closed_example :
    (s' : Session) × Rounds zero_behind
      (0, 0)
      (0, 0)
      9
      md5
      backend
      connect_to
      is_mailbox
      unset_string
      1000
      waiting
      s'
    × (s'.written ≡ codes "220 localhost *" ++ crlf ++ repeated 1000 ok_text)
    × (loop 1000 waiting ≡ timeout)
unfolding has command_of to_lower
worker_loop-closed_example =
    worker_loop-closed zero_behind (0, 0) (0, 0) 9 md5 backend connect_to is_mailbox unset_string
      1000 waiting (codes "noop") 0 (zeros 9) refl refl refl refl refl refl refl

-- A connection that takes a hundred bytes of replies.
abbrev closing : Session
closing = record waiting { takes = some 100 }

abbrev three_lines : Bytes
three_lines =
    codes "HELO example"
    ++ crlf
    ++ codes "MAIL FROM:<bob@localhost.com>"
    ++ crlf
    ++ codes "RCPT TO:<ann@upenn.edu>"
    ++ crlf

-- The session behind one round.
abbrev behind : Outcome (Bool × Session) → Session
behind o = elim o [ ok (more, s) ↦ s | fault ↦ waiting | timeout ↦ waiting ]

abbrev round : Session → Outcome (Bool × Session)
round s = worker_round zero_behind (0, 0) (0, 0) 9 md5 backend connect_to is_mailbox unset_string s

abbrev ready : Session
ready = behind (round (behind (round (behind (round (greeted three_lines))))))

abbrev pieces : List Arrival
pieces = some_bytes (codes "22") ∷ pause ∷ some_bytes (codes "1 bye" ++ crlf ++ codes "x") ∷ []

fill_line-chunks_example :
    (rest : Bytes) × (left : List Arrival) × (fill_line 100 [] pieces
      ≡ ok (codes "221 bye" ++ 13 ∷ [], rest, left))
    × (rest ++ all_bytes left ≡ codes "x")
unfolding has
fill_line-chunks_example =
    fill_line-chunks 100 [] pieces (codes "221 bye" ++ 13 ∷ []) (codes "x") refl refl (omega arith)
      (refl, (refl, tt))

ended-read_command_example :
    (read_command (0, 0) (zeros 8) (codes "abcdef" ++ crlf ++ codes "next") >>= ended) ≡ fault
unfolding has
ended-read_command_example =
    ended-read_command (0, 0) (codes "abcdef") (codes "next") (zeros 8) refl refl
