-- ===== src/Frontend/Respond.antt =====
-- `Response::Response` of frontend/response.cc: one request, through the choice of a handler.
pub mod Guests
pub mod Clients
use cis505_penn_cloud.Prelude.{
  ℕ, Bool, true, false, not, ◌&&◌, ◌||◌, Option, none, some, List, [], ◌∷◌, ◌++◌, if◌then◌else◌,
}
use cis505_penn_cloud.Prelude.Int.{ℤ}
use cis505_penn_cloud.Prelude.Ordered.{bytes_ordered, same}
use cis505_penn_cloud.Prelude.Text.{Bytes, codes}
use cis505_penn_cloud.StdMap.{insert}
use cis505_penn_cloud.Kv.Outcome.{Outcome, ok, ◌>>=◌}
use cis505_penn_cloud.Frontend.Text.{c_str}
use cis505_penn_cloud.Frontend.Requests.{HttpRequest, read_request}
use cis505_penn_cloud.Frontend.Backend.{delete_session, get_password}
use cis505_penn_cloud.Frontend.Pages.{
  Route, static_file, admin_console, register, login_page, upload, handle_upload, download_file,
  download, create_new_folder, rename_file, delete_file, delete_folder, move_file, send_email,
  handle_send_email, inbox, view_email, forward_email, reply_email, delete_email, logout, nothing,
  route, is_already_login, HttpResponse, html, login, login_params, reply,
}
use cis505_penn_cloud.Frontend.World.{World, text_of, is_file_exist}
use cis505_penn_cloud.Frontend.MailPages
use cis505_penn_cloud.Frontend.FilePages
use cis505_penn_cloud.Frontend.Admin
use cis505_penn_cloud.Frontend.FilePages.{form}
use cis505_penn_cloud.Webmail.Client.{Arrival}

-- What the other processes, the clock and the file system give. `stale` is what is read behind a
-- pointer to a string that is gone.
pub record Services : Type 0 where
  pub junk : ℕ
  pub curr_time : Bytes
  pub now : ℤ
  pub stale : Bytes → Bytes
  pub writable : Bytes → Bool
  pub backend : Bytes → Bytes → Outcome (List Bytes)
  pub login_valid : Bytes → Bytes → Outcome Bool
  pub user_exist : Bytes → Outcome Bool
  pub mail_server : Bytes → List Arrival
  pub master : Bytes → Bytes
  pub alive : Bytes × ℤ → Bool

abbrev pub Handled : Type 0
Handled = Outcome (HttpResponse × World)

-- What a login asks of a storage node: the password of the name that is posted.
abbrev pub login_asked : HttpRequest → List (Bytes × Bytes)
login_asked req =
    let asked = elim (login_params (form req)) as (λ _. List (Bytes × Bytes)) [
      | ok p ↦ (c_str (get_password p.0), p.0) ∷ []
      | _ ↦ []
    ] in
    if same req.method (codes "POST") then asked else []

-- The test for a login comes behind four other tests, and sets the name of the user where it holds.
abbrev pub recognised : Bool → HttpRequest → World → World
recognised exists req w =
    let first =
      not (same req.path (codes "/")) && exists
      || same req.path (codes "/adminconsole")
      || same req.path (codes "/register")
      || same req.path (codes "/login") in
    elim (is_already_login req.cookies w.sessions) [
      | none ↦ w
      | some name ↦ if first then w else record w { user_name = name }
    ]

module _ (by : Services) where
  unfoldable pub log_in : HttpRequest → World → HttpResponse → Handled
  unfolding login
  log_in req w res = login (text_of w) by.login_valid by.now req w.sessions res >>= λ r.
      ok (r.0, record w { sessions = r.1; asked = w.asked ++ login_asked req })

  unfoldable pub handler : Route → HttpRequest → World → HttpResponse → Handled
  unfolding log_in delete_session
  handler static_file req w res = ok (FilePages.file (by.stale (b'.' ∷ req.path)) w res, w)
  handler admin_console req w res = Admin.admin_console by.backend by.master by.alive by.junk w res
  handler register req w res = FilePages.reg by.backend by.stale by.user_exist req w res
  handler login_page req w res = log_in req w res
  handler upload req w res = ok (FilePages.upload w res, w)
  handler handle_upload req w res = FilePages.handle_upload by.backend by.writable req w res
  handler download_file req w res = FilePages.download_file req w res >>= λ page. ok (page, w)
  handler download req w res = FilePages.download by.backend req w res
  handler create_new_folder req w res = FilePages.create_new_folder by.writable req w res
  handler rename_file req w res = FilePages.rename_file by.writable req w res
  handler delete_file req w res = FilePages.delete_file by.backend req w res
  handler delete_folder req w res = FilePages.delete_folder req w res
  handler move_file req w res = FilePages.move_file by.writable req w res
  handler send_email req w res = ok (MailPages.send_email w res, w)
  handler handle_send_email req w res =
      MailPages.handle_send_email by.junk by.curr_time by.mail_server req w res
  handler inbox req w res = MailPages.inbox by.backend w res
  handler view_email req w res = MailPages.view_email by.backend req w res
  handler forward_email req w res = MailPages.forward_email by.backend req w res
  handler reply_email req w res = MailPages.reply_email by.backend req w res
  handler delete_email req w res = MailPages.delete_email by.backend by.junk req w res
  handler logout req w res =
      log_in req (record w { sessions = delete_session w.user_name w.sessions }) res
  handler nothing req w res = ok (res, w)

  unfoldable pub respond : HttpRequest → World → Handled
  unfolding handler route is_already_login
  respond req w =
      let exists = is_file_exist w (by.stale (b'.' ∷ req.path)) in
      let logged_in = elim (is_already_login req.cookies w.sessions) as (λ _. Bool) [
        | none ↦ false
        | some _ ↦ true
      ] in
      let res : HttpResponse = record {
        http_version = req.http_version;
        status = [];
        headers = insert (codes "Connection: ") (codes "close") [];
        body = [];
      } in
      handler (route exists logged_in req.method req.path) req (recognised exists req w) res

  -- `client_handler` of frontend/frontend.cc: the bytes that a connection gets for the bytes it has
  -- sent. `unset` is the request as it is allocated.
  unfoldable pub client_handler : HttpRequest → Bytes → World → Outcome (Bytes × World)
  unfolding respond
  client_handler unset input w = read_request unset by.junk input >>= λ req.
      let answered : Outcome (Bytes × World) = respond req w >>= λ r. ok (reply r.0, r.1) in
      if req.valid then answered else ok ([], w)
