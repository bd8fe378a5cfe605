-- ===== src/Tests/OnPages.antt =====
-- Runs of the frontend's pages and of its calls of a storage node.
use cis505_penn_cloud.Prelude.{◌≡◌, refl, Bool, true, false, [], ◌∷◌, ◌++◌, arith}
use cis505_penn_cloud.Prelude.Int.{ℤ, pos}
use cis505_penn_cloud.Prelude.Ordered.{bytes_ordered, same}
use cis505_penn_cloud.Prelude.Text.{Bytes, codes, crlf, has, fields, starts_with}
use cis505_penn_cloud.StdMap.{lookup, insert}
use cis505_penn_cloud.Kv.Outcome.{Outcome, ok, timeout}
use cis505_penn_cloud.Kv.Cache.Reply
use cis505_penn_cloud.Frontend.Text.{c_str, split}
use cis505_penn_cloud.Frontend.Requests.{HttpRequest}
use cis505_penn_cloud.Frontend.Backend.{
  is_login_valid, address_of, done, read_reply, read_reply_hangs, Sessions, is_session_valid,
}
use cis505_penn_cloud.Frontend.Pages.{HttpResponse, is_already_login, login}
use cis505_penn_cloud.Prelude.Decimal.{atoi, read_int, read_digits}
use cis505_penn_cloud.Frontend.Passwords.{password_reply, is_login_valid-reply}
use cis505_penn_cloud.Frontend.Guard.{login_wrong_password}

abbrev list_ann : Bytes
list_ann = codes "getlist ann,file" ++ crlf

read_reply_hangs_example : read_reply 1000 list_ann (Reply.no_such_user ++ (done ++ crlf)) ≡ timeout
unfolding starts_with
read_reply_hangs_example = read_reply_hangs 1000 list_ann refl

abbrev posted : HttpRequest
posted = record {
  method = codes "POST";
  path = codes "/login";
  http_version = codes "HTTP/1.1";
  content_length = pos 19;
  cookies = (codes "sessionid", codes "bob") ∷ [];
  body = codes "user=ann&pwd=secret";
  valid = true;
}

abbrev blank : HttpResponse
blank = record { http_version = codes "HTTP/1.1"; status = []; headers = []; body = [] }

abbrev bob_is_in : Sessions
bob_is_in = (codes "bob", pos 100) ∷ []

abbrev no_page : Bytes → Bytes
no_page name = []

abbrev accepting : Bytes → Bytes → Outcome Bool
accepting username password = ok (same password (codes "secret"))

abbrev mistyped : HttpRequest
mistyped = record posted { body = codes "user=ann&pwd=sekret" }

login_wrong_password_example :
    (res : HttpResponse) × (login no_page accepting (pos 200) mistyped bob_is_in blank
      ≡ ok (res, bob_is_in))
    × (login no_page accepting (pos 200) posted bob_is_in blank
        ≡ ok (res, insert (codes "ann") (pos 200) bob_is_in))
unfolding split fields c_str lookup is_already_login is_session_valid
login_wrong_password_example =
    login_wrong_password no_page accepting (pos 200) mistyped posted bob_is_in blank (codes "bob")
      (codes "ann") (codes "sekret") (codes "secret") refl refl refl refl refl refl refl

abbrev the_master : Bytes → Bytes
the_master question = codes "10.0.0.1:5000"

abbrev the_node : Bytes × ℤ → Bytes → Bytes
the_node address message = password_reply (codes "secret")

the_address : address_of (split (codes "10.0.0.1:5000") b':') ≡ ok (codes "10.0.0.1", pos 5000)
unfolding split fields atoi read_int read_digits
the_address = refl

is_login_valid-reply_example :
    is_login_valid 3 the_master the_node (codes "ann") (codes "guess") ≡ ok false
unfolding has
is_login_valid-reply_example =
    is_login_valid-reply 3 the_master the_node (codes "ann") (codes "guess") (codes "secret")
      (codes "10.0.0.1", pos 5000) (ground arith) the_address refl refl refl refl
