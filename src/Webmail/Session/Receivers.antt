-- ===== src/Webmail/Session/Receivers.antt =====
-- The order of the commands on the connections of webmail/webmail_server.cc.
use cis505_penn_cloud.Prelude.{ℕ, ◌≡◌, Bool, true, false, ◌&&◌, not, List, if◌then◌else◌}
use cis505_penn_cloud.Prelude.Text.{Bytes}
use cis505_penn_cloud.Kv.Outcome.{Outcome, ok}
use cis505_penn_cloud.Webmail.Client.{Arrival}
use cis505_penn_cloud.Webmail.Session.{
  Session, Command, helo, mail, rcpt, letter, send, quit, rset, noop, unknown, worker_round,
}

-- A flag is set only where the one before it is.
record InOrder (s : Session) : Type 0 where
  pub after_helo : s.mail_flag && not s.helo_flag ≡ false
  pub after_mail : s.rcpt_flag && not s.mail_flag ≡ false

-- The tests of `command_of`, on their results.
abbrev first_of : (a b c d e f g h helo_flag mail_flag rcpt_flag : Bool) → Command
first_of a b c d e f g h helo_flag mail_flag rcpt_flag =
    if a && not helo_flag
    then helo
    else if b && helo_flag && not mail_flag
    then mail
    else if c && helo_flag && mail_flag
    then rcpt
    else if d && rcpt_flag
    then letter
    else if e
    then send
    else if f
    then quit
    else if g
    then rset
    else if h
    then noop
    else unknown

module _ (zero_behind : Bytes → Bytes → Bool) (before data_before : ℕ × ℕ) (fuel : ℕ)
    (md5 : Bytes → Bytes) (backend : Bytes → Bytes → Outcome (List Bytes))
    (connect_to : Bytes → Outcome (List Arrival)) (is_mailbox : Bytes → Bool)
    (unset_string : Outcome Bytes) where
  -- The sessions that a connection comes to.
  pub data Reach (start : Session) : Session → Type 0 where
    here : Reach start start
    next :
        {s s' : Session}
        → Reach start s
        → worker_round zero_behind before data_before fuel md5 backend connect_to is_mailbox
            unset_string s
          ≡ ok (true, s')
        → Reach start s'
