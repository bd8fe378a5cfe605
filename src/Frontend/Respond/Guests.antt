-- ===== src/Frontend/Respond/Guests.antt =====
-- What a visitor who is not logged in gets out of `Response::Response` of frontend/response.cc.
use cis505_penn_cloud.Prelude.{
  ◌≡◌, refl, sym, ap, ◌∙◌, ◌⊎◌, inl, inr, Bool, true, false, not, ◌&&◌, none, some, [], ◌∷◌, ◌++◌,
  arith, if◌then◌else◌,
}
use cis505_penn_cloud.Prelude.Ordered.{bytes_ordered, same}
use cis505_penn_cloud.Prelude.Text.{Bytes, codes}
use cis505_penn_cloud.StdMap.{lookup, insert, lookup_or}
use cis505_penn_cloud.Kv.Outcome.{ok, >>=-eq-ok}
use cis505_penn_cloud.Frontend.Requests.{HttpRequest}
use cis505_penn_cloud.Frontend.Pages.{
  Route, static_file, login_page, route, is_already_login, HttpResponse, login,
}
use cis505_penn_cloud.Frontend.World.{World, at_path, text_of, is_file_exist}
use cis505_penn_cloud.Frontend.FilePages.{file}
use cis505_penn_cloud.Frontend.Respond.{Services, handler, log_in, login_asked, recognised, respond}

-- Nothing that belongs to a user has changed, and at most a password has been asked for.
pub record OnlyAsks (req : HttpRequest) (w w' : World) : Type 0 where
  pub same_files : w'.files ≡ w.files
  pub same_mails : w'.mailed ≡ w.mailed
  pub same_name : w'.user_name ≡ w.user_name
  pub asks : (w'.asked ≡ w.asked) ⊎ (w'.asked ≡ w.asked ++ login_asked req)

module _ (by : Services) (req : HttpRequest) (w w' : World) (res res' : HttpResponse) where
  log_in-OnlyAsks : log_in by req w res ≡ ok (res', w') → OnlyAsks req w w'
  unfolding log_in
  log_in-OnlyAsks e =
      let (r, ran, after) =
        >>=-eq-ok (login (text_of w) by.login_valid by.now req w.sessions res)
          (λ r. ok (r.0, record w { sessions = r.1; asked = w.asked ++ login_asked req })) e in
      let same_world : record w { sessions = r.1; asked = w.asked ++ login_asked req } ≡ w' =
        ground (arith, after) in
      rw (sym same_world)
        (record { same_files = refl; same_mails = refl; same_name = refl; asks = inr refl })

  handler-OnlyAsks :
      (r : Route)
      → (r ≡ static_file) ⊎ (r ≡ login_page)
      → handler by r req w res ≡ ok (res', w')
      → OnlyAsks req w w'
  unfolding handler
  handler-OnlyAsks static_file h e =
      let same_world : w ≡ w' = ground (arith, e) in
      rw (sym same_world)
        (record { same_files = refl; same_mails = refl; same_name = refl; asks = inl refl })
  handler-OnlyAsks login_page h e = log_in-OnlyAsks e
  handler-OnlyAsks other h e = ground (arith, h)

static_or_login :
    (a b : Bool)
    → let r = if a then static_file else if b then login_page else login_page in
      (r ≡ static_file) ⊎ (r ≡ login_page)
static_or_login true b = inl refl
static_or_login false true = inr refl
static_or_login false false = inr refl

route_visitor :
    (exists : Bool) (method path : Bytes)
    → same path (codes "/adminconsole") ≡ false
    → same path (codes "/register") ≡ false
    → let r = route exists false method path in (r ≡ static_file) ⊎ (r ≡ login_page)
unfolding route
route_visitor exists method path a b =
    rw (a, b) (static_or_login (not (same path (codes "/")) && exists) (same path (codes "/login")))

route_static :
    (exists logged_in : Bool) (method path : Bytes)
    → exists ≡ true
    → same path (codes "/") ≡ false
    → route exists logged_in method path ≡ static_file
unfolding route
route_static exists logged_in method path e h = rw (e, h) refl

recognised_files :
    (exists : Bool) (req : HttpRequest) (w : World) → (recognised exists req w).files ≡ w.files
recognised_files exists req w = ground arith

abbrev fresh : HttpRequest → HttpResponse
fresh req = record {
  http_version = req.http_version;
  status = [];
  headers = insert (codes "Connection: ") (codes "close") [];
  body = [];
}

module _ (by : Services) (req : HttpRequest) (w : World) where
  -- A request of a visitor who is not logged in, other than for the registration and the admin console,
  -- changes no file, sends no mail, and asks the storage nodes for nothing but the password of a name
  -- that a login posts.
  pub respond-OnlyAsks :
      (w' : World) (res : HttpResponse)
      → is_already_login req.cookies w.sessions ≡ none
      → same req.path (codes "/adminconsole") ≡ false
      → same req.path (codes "/register") ≡ false
      → respond by req w ≡ ok (res, w')
      → OnlyAsks req w w'
  unfolding respond
  respond-OnlyAsks w' res guest a b e =
      let exists = is_file_exist w (by.stale (b'.' ∷ req.path)) in
      let r = route exists false req.method req.path in
      let unmarked : recognised exists req w ≡ w = ground (arith, guest) in
      let handled : respond by req w ≡ handler by r req w (fresh req) =
        rw guest (ap (λ v. handler by r req v (fresh req)) unmarked) in
      handler-OnlyAsks by req w w' (fresh req) res r (route_visitor exists req.method req.path a b)
        (sym handled ∙ e)

  -- Every file that stands at the path of a request is sent, whoever asks for it: the test for a static
  -- file comes before the test for a login, and the users' files stand below the same directory.
  pub respond-static :
      (text : Bytes)
      → same req.path (codes "/") ≡ false
      → lookup (at_path (by.stale (b'.' ∷ req.path))) w.files ≡ some text
      → (res : HttpResponse) × (w' : World) × (respond by req w ≡ ok (res, w')) × (res.body ≡ text)
  unfolding respond handler file
  respond-static text home found =
      let filename = by.stale (b'.' ∷ req.path) in
      let exists = is_file_exist w filename in
      let w1 = recognised exists req w in
      let there : exists ≡ true = ground (arith, found) in
      let logged_in = elim (is_already_login req.cookies w.sessions) as (λ _. Bool) [
        | none ↦ false
        | some _ ↦ true
      ] in
      let first : route exists logged_in req.method req.path ≡ static_file =
        route_static exists logged_in req.method req.path there home in
      let kept : w1.files ≡ w.files = recognised_files exists req w in
      let body : text_of w1 filename ≡ text =
        ap (λ files. lookup_or [] (at_path filename) files) kept ∙ ground (arith, found) in
      (file filename w1 (fresh req), w1, ap (λ r. handler by r req w1 (fresh req)) first, body)
