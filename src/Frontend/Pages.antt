-- ===== src/Frontend/Pages.antt =====
-- frontend/response.cc: which handler a request goes to, the login page, and the text of a response.
use cis505_penn_cloud.Prelude.{
  Bool, not, ◌&&◌, Option, none, some, List, [], ◌∷◌, ◌++◌, if◌then◌else◌, length,
}
use cis505_penn_cloud.Prelude.Int.{ℤ}
use cis505_penn_cloud.Prelude.Ordered.{bytes_ordered, same}
use cis505_penn_cloud.Prelude.Text.{Bytes, codes, crlf, starts_with}
use cis505_penn_cloud.Prelude.Decimal.{print_nat}
use cis505_penn_cloud.StdMap.{StdMap, lookup, insert}
use cis505_penn_cloud.Kv.Outcome.{Outcome, ok, fault, ◌>>=◌}
use cis505_penn_cloud.Frontend.Text.{c_str, split, replace_all}
use cis505_penn_cloud.Frontend.Requests.{HttpRequest}
use cis505_penn_cloud.Frontend.Backend.{Sessions, add_session, is_session_valid}

-- The handlers. `nothing` is the way of a method other than GET and POST on two of the paths.
pub data Route : Type 0 where
  static_file admin_console register login_page upload handle_upload download_file download
        create_new_folder rename_file delete_file delete_folder move_file send_email
        handle_send_email inbox view_email forward_email reply_email delete_email logout nothing :
      Route

-- The handlers behind the login: those of a whole path, then those of a prefix of it.
unfoldable pub user_route : Bytes → Bytes → Route
user_route method path =
    let by_method = λ (on_get on_post : Route).
      if same method (codes "GET")
      then on_get
      else if same method (codes "POST")
      then on_post
      else nothing in
    if same path (codes "/upload")
    then by_method upload handle_upload
    else if starts_with (codes "/download?") path
    then download_file
    else if starts_with (codes "/download") path
    then download
    else if same path (codes "/newfolder")
    then create_new_folder
    else if same path (codes "/renamefile")
    then rename_file
    else if same path (codes "/deletefile")
    then delete_file
    else if same path (codes "/deletefolder")
    then delete_folder
    else if same path (codes "/movefile")
    then move_file
    else if same path (codes "/sendemail")
    then by_method send_email handle_send_email
    else if same path (codes "/inbox")
    then inbox
    else if starts_with (codes "/viewemail") path
    then view_email
    else if starts_with (codes "/forward") path
    then forward_email
    else if starts_with (codes "/replyemail") path
    then reply_email
    else if starts_with (codes "/deleteemail") path
    then delete_email
    else if same path (codes "/logout")
    then logout
    else login_page

-- The tests of the constructor: whether a file stands at the path, and whether the user is logged in.
unfoldable pub route : Bool → Bool → Bytes → Bytes → Route
unfolding user_route
route file_exists logged_in method path =
    if not (same path (codes "/")) && file_exists
    then static_file
    else if same path (codes "/adminconsole")
    then admin_console
    else if same path (codes "/register")
    then register
    else if same path (codes "/login")
    then login_page
    else if not logged_in
    then login_page
    else user_route method path

-- The name under which a request is logged in, if it is.
unfoldable pub is_already_login : StdMap Bytes Bytes → Sessions → Option Bytes
is_already_login cookies sessions = elim (lookup (codes "sessionid") cookies) [
  | none ↦ none
  | some id ↦ if is_session_valid id sessions then some id else none
]

pub record HttpResponse : Type 0 where
  pub http_version : Bytes
  pub status : Bytes
  pub headers : StdMap Bytes Bytes
  pub body : Bytes

abbrev pub with_body : Bytes → HttpResponse → HttpResponse
with_body text res = record res {
  body = text;
  headers = insert (codes "Content-Length: ") (print_nat (length text)) res.headers;
}

-- The second part of a parameter `name=value`; `at` throws where there is none.
abbrev pub value_at : List Bytes → Outcome Bytes
value_at (_ ∷ value ∷ _) = ok value
value_at _ = fault

abbrev pub login_params : List Bytes → Outcome (Bytes × Bytes)
login_params (p ∷ q ∷ _) = do
  username ← value_at (split p b'=')
  password ← value_at (split q b'=')
  ok (username, password)
login_params _ = fault

-- The page of a user who is logged in.
unfoldable pub user_home : (Bytes → Bytes) → Bytes → HttpResponse → HttpResponse
user_home page username res =
    let text = replace_all (page (codes "html/user-home.html")) (codes "$username") username in
    let res1 = with_body text res in
    record res1 {
      headers = insert (codes "Set-Cookie: ") (codes "sessionid=" ++ username) res1.headers;
    }

abbrev pub html : HttpResponse → HttpResponse
html res = record res {
  status = codes "200 OK";
  headers = insert (codes "Content-Type: ") (codes "text/html") res.headers;
}

-- `page` is the text of a file, `login_valid` stands for `is_login_valid`, and `now` for the clock.
module _ (page : Bytes → Bytes) (login_valid : Bytes → Bytes → Outcome Bool) (now : ℤ) where
  -- A login by POST: the name that is logged in then, if any, which stays the one before where the
  -- password is wrong.
  abbrev pub try_login :
      Option Bytes → Sessions → HttpResponse → Bytes × Bytes → Outcome (HttpResponse × Sessions)
  try_login already sessions res (username, password) = do
    valid ← login_valid username password
    let failed = with_body (page (codes "html/login-failed.html")) res
    ok (
        if valid
        then (user_home page username res, add_session username now sessions)
        else (elim already as (λ _. HttpResponse × Sessions) [
          | none ↦ (failed, sessions)
          | some _ ↦ (user_home page username failed, sessions)
        ]))

  unfoldable pub login : HttpRequest → Sessions → HttpResponse → Outcome (HttpResponse × Sessions)
  unfolding is_already_login user_home
  login req sessions res0 =
      let res = html res0 in
      let already = is_already_login req.cookies sessions in
      let get = same req.method (codes "GET") in
      let post : Outcome (HttpResponse × Sessions) =
        login_params (split (c_str req.body) b'&') >>= try_login already sessions res in
      let home : HttpResponse = elim already [
        | none ↦ if get then with_body (page (codes "html/login.html")) res else res
        | some username ↦ user_home page username res
      ] in
      if same req.method (codes "POST") then post else ok (home, sessions)

abbrev pub header_text : StdMap Bytes Bytes → Bytes
header_text [] = []
header_text ((name, value) ∷ m) = name ++ value ++ crlf ++ header_text m

-- `reply`: the bytes that are written.
unfoldable pub reply : HttpResponse → Bytes
reply res =
    res.http_version ++ b' ' ∷ res.status ++ crlf ++ header_text res.headers ++ crlf ++ res.body
