-- ===== src/Webmail/Session/Frontends.antt =====
-- A connection of the frontend to the mail server of webmail/webmail_server.cc: one mail, then `QUIT`.
use cis505_penn_cloud.Prelude.{
  ℕ, suc, ◌+◌, ◌<◌, ◌≡◌, refl, ap, ◌∙◌, Bool, true, false, none, List, [], ◌∷◌, ◌++◌, arith, All,
  length,
}
use cis505_penn_cloud.Prelude.Text.{Bytes, codes, crlf, has, to_lower}
use cis505_penn_cloud.Kv.Outcome.{Outcome, ok, ◌>>=◌}
use cis505_penn_cloud.Frontend.Backend.{lines_text}
use cis505_penn_cloud.Frontend.Mails.{mail_text, mail_message}
use cis505_penn_cloud.Frontend.Mails.Lines.{head_lines}
use cis505_penn_cloud.Webmail.Client.{Arrival}
use cis505_penn_cloud.Webmail.Input.Lines.{IsOpen}
use cis505_penn_cloud.Webmail.Send.{Delivery, stored, handle_send}
use cis505_penn_cloud.Webmail.Send.Letters.{IsMailLine}
use cis505_penn_cloud.Webmail.Send.Addresses.{IsAddress, local_address}
use cis505_penn_cloud.Webmail.Send.Local.{IsBody, local_message, handle_send-mail}
use cis505_penn_cloud.Webmail.Session.{
  Session, send, quit, command_of, run_command, reply, written_all, sent, worker_round, worker_loop,
  greeted,
}
use cis505_penn_cloud.Webmail.Session.Rounds.{worker_round-line}

abbrev pub quit_line : Bytes
quit_line = codes "QUIT" ++ crlf

abbrev pub bye : Bytes
bye = codes "221 Service closing transmission channel" ++ crlf

abbrev pub send_line : Bytes
send_line = codes "Send" ++ crlf

module _ (zero_behind : Bytes → Bytes → Bool) (s : Session) where
  send_line_lem :
      zero_behind (codes "SEND") send_line ≡ true → command_of zero_behind s send_line ≡ send
  unfolding command_of to_lower
  send_line_lem z = rw z refl

  quit_line_lem : zero_behind quit_line quit_line ≡ true → command_of zero_behind s quit_line ≡ quit
  unfolding command_of to_lower
  quit_line_lem z = rw z refl

module _ (zero_behind : Bytes → Bytes → Bool) (before data_before : ℕ × ℕ) (fuel : ℕ)
    (md5 : Bytes → Bytes) (backend : Bytes → Bytes → Outcome (List Bytes))
    (connect_to : Bytes → Outcome (List Arrival)) (is_mailbox : Bytes → Bool)
    (unset_string : Outcome Bytes) where
  round_send :
      (s : Session) (text left answer : Bytes) (ds : List Delivery)
      → zero_behind (codes "SEND") send_line ≡ true
      → IsOpen before.0 before.1
      → length s.buf ≡ 1024
      → s.coming ≡ send_line ++ text
      → s.takes ≡ none
      → handle_send md5 backend connect_to fuel data_before text ≡ ok (ds, answer, left)
      → (buf : Bytes) × (length buf ≡ 1024)
        × (worker_round zero_behind before data_before fuel md5 backend connect_to is_mailbox
              unset_string s
            ≡ ok (true, sent (record s { buf = buf; coming = text }) (ds, answer, left)))
  unfolding run_command has
  round_send s text left answer ds z o sized e all ran =
      let (buf, same_size, step) =
        worker_round-line zero_behind before data_before fuel md5 backend connect_to is_mailbox
          unset_string s (codes "Send") text o (refl, refl, omega (arith, sized)) e in
      (
        buf,
        same_size ∙ sized,
        step
            ∙ rw (send_line_lem zero_behind s z) (
                ap
                  (λ r.
                    r
                    >>= (λ a. ok (true, sent (record s { buf = buf; coming = text }) a))
                    >>= written_all)
                  ran
                ∙ rw all refl),
      )

  round_quit :
      (s : Session)
      → zero_behind quit_line quit_line ≡ true
      → IsOpen before.0 before.1
      → length s.buf ≡ 1024
      → s.coming ≡ quit_line
      → s.takes ≡ none
      → (buf : Bytes) × (worker_round zero_behind before data_before fuel md5 backend connect_to
            is_mailbox unset_string s
          ≡ ok (false, reply bye (record s { buf = buf; coming = [] })))
  unfolding run_command has
  round_quit s z o sized e all =
      let (buf, same_size, step) =
        worker_round-line zero_behind before data_before fuel md5 backend connect_to is_mailbox
          unset_string s (codes "QUIT") [] o (refl, refl, omega (arith, sized)) e in
      (buf, step ∙ rw (quit_line_lem zero_behind s z, all) refl)

  -- The frontend's mail to a user at this server, sent with `QUIT` behind it over one connection, ends
  -- as one message that stores it for him, and the connection is greeted, answered and closed. The
  -- conditions are those of `handle_send-mail`, and that the two copied commands end in a zero byte.
  pub worker_loop-mail_message :
      (rounds : ℕ) (name user date title content : Bytes) (cs rep : List Bytes)
      → zero_behind (codes "SEND") send_line ≡ true
      → zero_behind quit_line quit_line ≡ true
      → IsOpen before.0 before.1
      → IsOpen data_before.0 data_before.1
      → content ++ crlf ≡ lines_text cs
      → All
          (IsMailLine 1024)
          (head_lines (local_address name) (local_address user) date title ++ cs)
      → IsAddress (local_address name)
      → IsAddress (local_address user)
      → All IsBody cs
      → has b'@' user ≡ false
      → length cs + 4 < fuel
      → backend (local_message md5 (local_address name) user date title content) user ≡ ok rep
      → (s : Session) × (worker_loop zero_behind before data_before fuel md5 backend connect_to
            is_mailbox unset_string
            (suc (suc rounds))
            (greeted (mail_message name (local_address user) date title content ++ quit_line))
          ≡ ok s)
        × (s.deliveries
            ≡ stored (local_message md5 (local_address name) user date title content) user ∷ [])
        × (s.written ≡ codes "220 localhost *" ++ crlf ++ (codes "250 OK" ++ crlf) ++ bye)
  unfolding worker_loop mail_message
  worker_loop-mail_message rounds name user date title content cs rep zs zq o od e lines hf ht hc hu
        f put =
      let from = local_address name in
      let message = local_message md5 from user date title content in
      let text = mail_text from (local_address user) date title content ++ quit_line in
      let start = greeted (send_line ++ text) in
      let ds = stored message user ∷ [] in
      let stored_mail =
        handle_send-mail md5 backend connect_to fuel data_before from user date title content
          quit_line cs rep e od lines hf ht hc hu f put in
      let (buf1, sized1, first) =
        round_send start text quit_line (codes "250 OK" ++ crlf) ds zs o refl refl refl
          stored_mail in
      let s1 =
        sent (record start { buf = buf1; coming = text }) (ds, codes "250 OK" ++ crlf, quit_line) in
      let (buf2, second) = round_quit s1 zq o sized1 refl refl in
      (reply bye (record s1 { buf = buf2; coming = [] }), rw (first, second) refl, refl, refl)
