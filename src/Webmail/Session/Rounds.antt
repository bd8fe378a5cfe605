-- ===== src/Webmail/Session/Rounds.antt =====
-- What a round of `worker` of webmail/webmail_server.cc makes of a line, and of a connection whose client
-- has ended its sending side.
use cis505_penn_cloud.Prelude.{
  ℕ, zero, suc, ◌+◌, ◌≡◌, refl, ap, ◌∙◌, Bool, true, false, List, [], ◌∷◌, ◌++◌, arith, length,
  length-append, append-nil, append_assoc, sym, none,
}
use cis505_penn_cloud.Prelude.Text.{Bytes, crlf, has, has-append}
use cis505_penn_cloud.Kv.Outcome.{Outcome, ok, timeout, ◌>>=◌}
use cis505_penn_cloud.Kv.Ops.{is_empty}
use cis505_penn_cloud.Frontend.Text.{c_str}
use cis505_penn_cloud.Webmail.Client.{Arrival}
use cis505_penn_cloud.Webmail.Input.{read_command}
use cis505_penn_cloud.Webmail.Input.Lines.{IsOpen, end_line, read_from-line, read_from-closed}
use cis505_penn_cloud.Webmail.Send.Letters.{c_str-zero, split_buffer, IsLine}
use cis505_penn_cloud.Webmail.Session.{
  Session, noop, command_of, run_command, reply, written_all, ok_text, worker_round, worker_loop,
}

-- This many copies of a text.
abbrev pub repeated : ℕ → Bytes → Bytes
repeated zero text = []
repeated (suc n) text = text ++ repeated n text

not_empty : (t : Bytes) → is_empty (t ++ crlf) ≡ false
not_empty [] = refl
not_empty (c ∷ t) = refl

module _ (zero_behind : Bytes → Bytes → Bool) (before data_before : ℕ × ℕ) (fuel : ℕ)
    (md5 : Bytes → Bytes) (backend : Bytes → Bytes → Outcome (List Bytes))
    (connect_to : Bytes → Outcome (List Arrival)) (is_mailbox : Bytes → Bool)
    (unset_string : Outcome Bytes) where
  -- The command that a line is, and what it writes.
  abbrev pub obeyed : Session → Bytes → Session → Outcome (Bool × Session)
  obeyed s line s' =
      run_command zero_behind before data_before fuel md5 backend connect_to is_mailbox unset_string
        (command_of zero_behind s line) (length line) line s'
      >>= written_all

  round_read :
      (s : Session) (t left : Bytes) (z : ℕ) (stale : Bytes)
      → has 0 t ≡ false
      → read_command before s.buf s.coming ≡ ok (end_line t (z ∷ stale) left)
      → worker_round zero_behind before data_before fuel md5 backend connect_to is_mailbox
          unset_string s
        ≡ obeyed s (t ++ crlf) (record s { buf = (t ++ crlf) ++ 0 ∷ stale; coming = left })
  unfolding worker_round
  round_read s t left z stale h0 read =
      let text : c_str ((t ++ crlf) ++ 0 ∷ stale) ≡ t ++ crlf =
        c_str-zero (t ++ crlf) stale (has-append 0 t crlf ∙ unfold has in rw h0 refl) in
      rw (read, not_empty t, text) refl

  -- A line is obeyed, and the next one is read from what stands behind it.
  pub worker_round-line :
      (s : Session) (t rest : Bytes)
      → IsOpen before.0 before.1
      → IsLine (length s.buf) t
      → s.coming ≡ t ++ crlf ++ rest
      → (buf : Bytes) × (length buf ≡ length s.buf)
        × (worker_round zero_behind before data_before fuel md5 backend connect_to is_mailbox
              unset_string s
            ≡ obeyed s (t ++ crlf) (record s { buf = buf; coming = rest }))
  unfolding read_command
  worker_round-line s t rest o l e =
      let (over, z, stale, split, n) = split_buffer (length t + 2) s.buf l.2 in
      let read : read_command before s.buf s.coming ≡ ok (end_line t (z ∷ stale) rest) =
        ap (λ b. read_command before b s.coming) split
        ∙ ap (read_command before (over ++ z ∷ stale)) e
        ∙ read_from-line before.0 before.1 t rest over (z ∷ stale) o l.0 n in
      (
        (t ++ crlf) ++ 0 ∷ stale,
        omega (
          arith,
          ap length split,
          n,
          length-append {0} over (z ∷ stale),
          length-append {0} (t ++ crlf) (0 ∷ stale),
          length-append {0} t crlf,
        ),
        round_read s t rest z stale l.1 read,
      )

  -- The session that this many rounds, all of which go on, lead to.
  pub data Rounds : ℕ → Session → Session → Type 0 where
    none_left : {s : Session} → Rounds zero s s
    then_one :
        {n : ℕ} {s s' s'' : Session}
        → worker_round zero_behind before data_before fuel md5 backend connect_to is_mailbox
            unset_string s
          ≡ ok (true, s')
        → Rounds n s' s''
        → Rounds (suc n) s s''

  -- A loop that all these rounds go on has not ended.
  pub Rounds-timeout :
      {n : ℕ} {s s' : Session}
      → Rounds n s s'
      → worker_loop zero_behind before data_before fuel md5 backend connect_to is_mailbox
          unset_string n s
        ≡ timeout
  unfolding worker_loop
  Rounds-timeout none_left = refl
  Rounds-timeout (then_one e rounds) = rw e (Rounds-timeout rounds)

  -- Where the buffer holds a line that is taken for `NOOP`, and a client has ended its sending side but
  -- still takes the replies: the same line is read again in every round. For every number of rounds,
  -- that many can be run, they have written "250 OK" as many times, and the loop has not ended.
  pub worker_loop-closed :
      (rounds : ℕ) (s : Session) (t : Bytes) (z : ℕ) (stale : Bytes)
      → IsOpen before.0 before.1
      → has 10 t ≡ false
      → has 0 t ≡ false
      → s.buf ≡ t ++ crlf ++ z ∷ stale
      → s.coming ≡ []
      → s.takes ≡ none
      → command_of zero_behind s (t ++ crlf) ≡ noop
      → (s' : Session) × Rounds rounds s s'
        × (s'.written ≡ s.written ++ repeated rounds ok_text)
        × (worker_loop zero_behind before data_before fuel md5 backend connect_to is_mailbox
              unset_string rounds s
            ≡ timeout)
  unfolding read_command
  worker_loop-closed zero s t z stale o h10 h0 e closed all c =
      (s, none_left, sym (append-nil s.written), Rounds-timeout none_left)
  worker_loop-closed (suc rounds) s t z stale o h10 h0 e closed all c =
      let read : read_command before s.buf s.coming ≡ ok (end_line t (z ∷ stale) []) =
        ap (λ b. read_command before b s.coming) e
        ∙ ap (read_command before (t ++ crlf ++ z ∷ stale)) closed
        ∙ read_from-closed before.0 before.1 t (z ∷ stale) o h10 in
      let next = reply ok_text (record s { buf = t ++ crlf ++ 0 ∷ stale; coming = [] }) in
      let round : worker_round zero_behind before data_before fuel md5 backend connect_to is_mailbox
            unset_string s
          ≡ ok (true, next) =
        round_read s t [] z stale h0 read ∙ unfold run_command in rw (c, all) refl in
      let (s', later, written, _) =
        worker_loop-closed rounds next t 0 stale o h10 h0 refl refl all (unfold command_of in c) in
      (
        s',
        then_one round later,
        written ∙ append_assoc s.written ok_text (repeated rounds ok_text),
        Rounds-timeout (then_one round later),
      )
