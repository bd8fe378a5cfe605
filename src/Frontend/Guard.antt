-- ===== src/Frontend/Guard.antt =====
-- Who gets to see what in frontend/response.cc.
use cis505_penn_cloud.Prelude.{
  ◌≡◌, refl, ◌⊎◌, inl, inr, ap, ◌∙◌, Bool, true, false, not, ◌&&◌, some, length, if◌then◌else◌,
}
use cis505_penn_cloud.Prelude.Int.{ℤ}
use cis505_penn_cloud.Prelude.Ordered.{bytes_ordered, same}
use cis505_penn_cloud.Prelude.Text.{Bytes, codes}
use cis505_penn_cloud.Prelude.Decimal.{print_nat}
use cis505_penn_cloud.StdMap.{insert, insert_again}
use cis505_penn_cloud.Kv.Outcome.{Outcome, ok, ◌>>=◌}
use cis505_penn_cloud.Frontend.Text.{c_str, split, replace_all}
use cis505_penn_cloud.Frontend.Requests.{HttpRequest}
use cis505_penn_cloud.Frontend.Backend.{Sessions, add_session}
use cis505_penn_cloud.Frontend.Pages.{
  static_file, admin_console, register, login_page, route, HttpResponse, is_already_login,
  user_home, login, login_params, try_login, html, with_body,
}

-- Four branches behind four tests.
one_of_four :
    (a b c d : Bool)
    → let r =
        if a
        then static_file
        else if b
        then admin_console
        else if c
        then register
        else if d
        then login_page
        else login_page in
      (r ≡ static_file) ⊎ (r ≡ admin_console) ⊎ (r ≡ register) ⊎ (r ≡ login_page)
one_of_four true b c d = inl refl
one_of_four false true c d = inr (inl refl)
one_of_four false false true d = inr (inr (inl refl))
one_of_four false false false true = inr (inr (inr refl))
one_of_four false false false false = inr (inr (inr refl))

-- A visitor who is not logged in gets no handler but four: a static file, the admin console, the
-- registration and the login.
pub route_guest :
    (file_exists : Bool) (method path : Bytes)
    → let r = route file_exists false method path in
      (r ≡ static_file) ⊎ (r ≡ admin_console) ⊎ (r ≡ register) ⊎ (r ≡ login_page)
unfolding route
route_guest file_exists method path =
    one_of_four (not (same path (codes "/")) && file_exists) (same path (codes "/adminconsole"))
      (same path (codes "/register")) (same path (codes "/login"))

-- A page that was filled in before leaves nothing behind.
user_home-with_body :
    (page : Bytes → Bytes) (username text : Bytes) (res : HttpResponse)
    → user_home page username (with_body text res) ≡ user_home page username res
unfolding user_home
user_home-with_body page username text res =
    rw
      (insert_again (codes "Content-Length: ") (print_nat (length text))
        (print_nat
          (length (replace_all (page (codes "html/user-home.html")) (codes "$username") username)))
        res.headers)
      refl

module _ (page : Bytes → Bytes) (login_valid : Bytes → Bytes → Outcome Bool) (now : ℤ) where
  login_post :
      (req : HttpRequest) (sessions : Sessions) (res0 : HttpResponse) (p : Bytes × Bytes)
      → same req.method (codes "POST") ≡ true
      → login_params (split (c_str req.body) b'&') ≡ ok p
      → login page login_valid now req sessions res0
        ≡ try_login page login_valid now
            (is_already_login req.cookies sessions)
            sessions
            (html res0)
            p
  unfolding login
  login_post req sessions res0 p post params = rw post (
      ap
        (λ o.
          o
          >>= try_login page login_valid now (is_already_login req.cookies sessions) sessions
              (html res0))
        params)

-- A visitor who is logged in, and posts a name with a wrong password, gets the very response, page and
-- cookie, that this name gets with the right password; the two requests have the same method, the form
-- of the second one carries the right password. Only the sessions differ: none is started.
pub login_wrong_password :
    (page : Bytes → Bytes) (login_valid : Bytes → Bytes → Outcome Bool) (now : ℤ)
    (req req' : HttpRequest) (sessions : Sessions) (res0 : HttpResponse)
    (me username wrong_one right_one : Bytes)
    → same req.method (codes "POST") ≡ true
    → same req'.method (codes "POST") ≡ true
    → login_params (split (c_str req.body) b'&') ≡ ok (username, wrong_one)
    → login_params (split (c_str req'.body) b'&') ≡ ok (username, right_one)
    → login_valid username wrong_one ≡ ok false
    → login_valid username right_one ≡ ok true
    → is_already_login req.cookies sessions ≡ some me
    → (res : HttpResponse) × (login page login_valid now req sessions res0 ≡ ok (res, sessions))
      × (login page login_valid now req' sessions res0 ≡ ok (res, insert username now sessions))
unfolding add_session
login_wrong_password page login_valid now req req' sessions res0 me username wrong_one right_one
      post post' params params' wrong right already =
    let failed = with_body (page (codes "html/login-failed.html")) (html res0) in
    (
      user_home page username (html res0),
      login_post page login_valid now req sessions res0 (username, wrong_one) post params
          ∙ rw (wrong, already, try_login)
              (ap (λ r. ok (r, sessions))
                (user_home-with_body page username (page (codes "html/login-failed.html"))
                  (html res0))),
      login_post page login_valid now req' sessions res0 (username, right_one) post' params'
          ∙ rw (right, try_login) refl,
    )
