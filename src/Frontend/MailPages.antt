-- ===== src/Frontend/MailPages.antt =====
-- The mail handlers of frontend/response.cc.
pub mod Inbox
use cis505_penn_cloud.Prelude.{ℕ, ◌+◌, List, [], ◌∷◌, ◌++◌, length, drop}
use cis505_penn_cloud.Prelude.Text.{Bytes, codes, crlf}
use cis505_penn_cloud.Kv.Outcome.{Outcome, ok, fault, ◌>>=◌}
use cis505_penn_cloud.Frontend.Text.{c_str, split, replace_all, url_decode}
use cis505_penn_cloud.Frontend.Requests.{HttpRequest}
use cis505_penn_cloud.Frontend.Pages.{HttpResponse, with_body, html, value_at}
use cis505_penn_cloud.Frontend.World.{World, text_of, ask}
use cis505_penn_cloud.Frontend.Mails.{
  substr, at, Mail, read_mail, mail_rows, mail_message, mail_params,
}
use cis505_penn_cloud.Webmail.Client.{
  Arrival, initialize_buffers, write_string, do_read, expect_remote_close,
}

-- A page of a file of the server, and the page with a text in place of a mark.
abbrev pub page_of : World → Bytes → HttpResponse → HttpResponse
page_of w path res = with_body (text_of w path) (html res)

abbrev pub Marks : Type 0
Marks = List (Bytes × Bytes)

abbrev pub marked : Marks → Bytes → Bytes
marked [] text = text
marked ((mark, value) ∷ marks) text = marked marks (replace_all text mark value)

abbrev pub filled : World → Bytes → Marks → HttpResponse → HttpResponse
filled w path marks res = with_body (marked marks (text_of w path)) (html res)

unfoldable pub send_email : World → HttpResponse → HttpResponse
send_email w res = page_of w (codes "html/send-email.html") res

-- The key in the path of a page, behind so many bytes.
abbrev key_in : ℕ → HttpRequest → Outcome Bytes
key_in n req = do path ← substr n req.path; value_at (split path b'=')

unfoldable pub view_marks : Bytes → Mail → Marks
view_marks key mail =
    (codes "$from", mail.from)
    ∷ (codes "$title", mail.title)
    ∷ (codes "$date", mail.date)
    ∷ (codes "$content", mail.content)
    ∷ (codes "$replyQuery", codes "key=" ++ key)
    ∷ (codes "$forwardQuery", codes "key=" ++ key)
    ∷ (codes "$deleteQuery", codes "key=" ++ key)
    ∷ []

-- The content of a mail that is sent on, or replied to.
unfoldable pub quoted : Mail → Bytes
quoted mail =
    codes "\n==========\n||From: "
    ++ mail.from
    ++ codes "\n||Date: "
    ++ mail.date
    ++ codes "\n\n"
    ++ mail.content

unfoldable pub forward_marks : Mail → Marks
unfolding quoted
forward_marks mail =
    (codes "$title", codes "FW: " ++ mail.title) ∷ (codes "$content", quoted mail) ∷ []

unfoldable pub reply_marks : Mail → Marks
unfolding quoted
reply_marks mail =
    (codes "$email", mail.from)
    ∷ (codes "$title", codes "RE: " ++ mail.title)
    ∷ (codes "$content", quoted mail)
    ∷ []

-- `junk` and `curr_time` are the value that is not set in `url_decode` and the text of the clock, and
-- `mail_server` what the mail server sends for a message.
module _ (junk : ℕ) (curr_time : Bytes) (mail_server : Bytes → List Arrival) where
  -- The message, `QUIT`, the reading of one line, and the end of the connection.
  unfoldable pub send_to_email_server : Bytes → World → Outcome World
  unfolding initialize_buffers write_string do_read expect_remote_close
  send_to_email_server message w = do
    let conn = write_string message (initialize_buffers 5000 (mail_server message))
    r ← do_read (write_string (codes "QUIT" ++ crlf) conn)
    ok (record w { mailed = w.mailed ++ (expect_remote_close r.1).written ∷ [] })

  unfoldable pub handle_send_email :
      HttpRequest → World → HttpResponse → Outcome (HttpResponse × World)
  unfolding mail_params mail_message send_to_email_server
  handle_send_email req w res = do
    (sent_to, title, content) ← mail_params (split (c_str (url_decode junk req.body)) b'&')
    w' ← send_to_email_server (mail_message w.user_name sent_to curr_time title content) w
    ok (page_of w' (codes "html/send-email-success.html") res, w')

-- `backend` is `send_to_backend`.
module _ (backend : Bytes → Bytes → Outcome (List Bytes)) where
  -- The reply to a `get` of a mail.
  abbrev pub get_mail_of : Bytes → World → Outcome (Mail × World)
  get_mail_of key w = do
    (rep, w') ←
        ask backend (codes "get " ++ w.user_name ++ codes ",##" ++ key ++ crlf) w.user_name w
    mail ← read_mail rep
    ok (mail, w')

  unfoldable pub view_email : HttpRequest → World → HttpResponse → Outcome (HttpResponse × World)
  unfolding view_marks
  view_email req w res = do
    key ← key_in 11 req
    (mail, w') ← get_mail_of key w
    ok (filled w' (codes "html/view-email.html") (view_marks key mail) res, w')

  unfoldable pub forward_email : HttpRequest → World → HttpResponse → Outcome (HttpResponse × World)
  unfolding forward_marks
  forward_email req w res = do
    key ← key_in 9 req
    (mail, w') ← get_mail_of key w
    ok (filled w' (codes "html/forward-email.html") (forward_marks mail) res, w')

  unfoldable pub reply_email : HttpRequest → World → HttpResponse → Outcome (HttpResponse × World)
  unfolding reply_marks
  reply_email req w res = do
    key ← key_in 12 req
    (mail, w') ← get_mail_of key w
    ok (filled w' (codes "html/reply-email.html") (reply_marks mail) res, w')

  abbrev first_of : List Bytes → Outcome Bytes
  first_of [] = fault
  first_of (p ∷ _) = ok p

  unfoldable pub delete_email :
      ℕ → HttpRequest → World → HttpResponse → Outcome (HttpResponse × World)
  delete_email junk req w res = do
    path ← substr 13 req.path
    param ← first_of (split (c_str (url_decode junk path)) b'&')
    key ← value_at (split param b'=')
    (rep, w') ←
        ask backend (codes "dele " ++ w.user_name ++ codes ",##" ++ key ++ crlf) w.user_name w
    ok (page_of w' (codes "html/delete-email.html") res, w')

  -- The loop over the reply ends within one round more than the reply has lines.
  unfoldable pub inbox : World → HttpResponse → Outcome (HttpResponse × World)
  unfolding mail_rows
  inbox w res = do
    (rep, w') ←
        ask backend (codes "getlist " ++ w.user_name ++ codes ",email" ++ crlf) w.user_name w
    maillist ← mail_rows (length rep + 1) 0 rep
    ok (filled w' (codes "html/inbox.html") ((codes "$maillist", maillist) ∷ []) res, w')
