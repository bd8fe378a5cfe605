-- ===== src/Tests/OnMails.antt =====
-- Runs of the pages of mails and files, and of the admin console.
use cis505_penn_cloud.Prelude.{
  ◌≡◌, refl, Bool, true, false, none, some, List, [], ◌∷◌, ◌++◌, length, take, ◌⊎◌, inr, arith,
}
use cis505_penn_cloud.Prelude.Int.{ℤ, pos}
use cis505_penn_cloud.Prelude.Ordered.{bytes_ordered, int_ordered}
use cis505_penn_cloud.Prelude.Text.{Bytes, codes, crlf, has, cut, fields, starts_with}
use cis505_penn_cloud.Prelude.Decimal.{print_nat, print_int}
use cis505_penn_cloud.StdMap.{StdMap, lookup, insert}
use cis505_penn_cloud.Kv.Outcome.{Outcome, ok}
use cis505_penn_cloud.Master.Ring.{Server, Pair}
use cis505_penn_cloud.Master.Handler.{list_servers}
use cis505_penn_cloud.Frontend.Text.{c_str, find, split, extract_file_content, extract_file_name}
use cis505_penn_cloud.Frontend.Requests.{HttpRequest}
use cis505_penn_cloud.Frontend.Pages.{
  HttpResponse, with_body, html, is_already_login, login, route, user_route,
}
use cis505_penn_cloud.Frontend.World.{World, at_path, list_names}
use cis505_penn_cloud.Frontend.FilePages.{handle_upload, download_file, delete_folder}
use cis505_penn_cloud.Frontend.FilePages.Uploads.{
  upload_message, length_header, download_file-handle_upload,
}
use cis505_penn_cloud.Frontend.FilePages.Folders.{Taken, delete_folder-Inside, delete_folder-Taken}
use cis505_penn_cloud.Frontend.Servers.{AdminServer, Servers, parse_backend_servers}
use cis505_penn_cloud.Frontend.Servers.Masters.{parse_backend_servers-list_servers}
use cis505_penn_cloud.Frontend.Respond.{Services, handler, log_in, respond, client_handler}
use cis505_penn_cloud.Frontend.Respond.Guests.{OnlyAsks, respond-OnlyAsks}
use cis505_penn_cloud.Frontend.Requests.RoundTrip.{request_text}
use cis505_penn_cloud.Frontend.Respond.Clients.{client_handler-static}

abbrev blank : HttpResponse
blank = record { http_version = codes "HTTP/1.1"; status = []; headers = []; body = [] }

-- Two files of a user's folders below the directory "bob/", and one of the user himself.
abbrev bobs : World
bobs = record {
  user_name = codes "bob";
  curr_user = some (codes "bob/");
  sessions = [];
  frontend_servers = [];
  backend_servers = [];
  files =
      (codes "bob/a+x", codes "one")
      ∷ (codes "bob/ba+y", codes "two")
      ∷ (codes "bob/z", codes "three")
      ∷ [];
  asked = [];
  mailed = [];
}

abbrev answering : List Bytes → Bytes → Bytes → Outcome (List Bytes)
answering rep message user = ok rep

abbrev asking : Bytes → Bytes → Bytes → HttpRequest
asking method path body = record {
  method = method;
  path = path;
  http_version = codes "HTTP/1.1";
  content_length = pos (length body);
  cookies = [];
  body = body;
  valid = true;
}

abbrev uploading : HttpRequest
uploading =
    asking (codes "POST") (codes "/upload")
      (codes "filename=\"n\"" ++ crlf ++ crlf ++ codes "text" ++ crlf ++ codes "----")

abbrev anywhere : Bytes → Bool
anywhere path = true

abbrev getting : HttpRequest
getting = asking (codes "GET") (codes "/download?bob/n") []

download_file-handle_upload_example :
    (page : HttpResponse) × (w' : World) × (file : HttpResponse) × (handle_upload
        (answering [])
        anywhere
        uploading
        bobs
        blank
      ≡ ok (page, w'))
    × (w'.asked ≡ (c_str (upload_message bobs (codes "n") (codes "text")), codes "bob") ∷ [])
    × (download_file getting w' blank ≡ ok file)
    × (file.body ≡ codes "text")
    × (lookup length_header file.headers ≡ some (print_nat 4))
unfolding extract_file_name extract_file_content find starts_with
download_file-handle_upload_example =
    download_file-handle_upload (answering []) anywhere uploading bobs blank (codes "bob/")
      (codes "n") (codes "text") [] getting blank refl refl refl refl refl refl

abbrev deleting : HttpRequest
deleting = asking (codes "POST") (codes "/deletefolder") (codes "foldername=a")

delete_folder-Inside_example :
    (page : HttpResponse) × (w' : World) × (delete_folder deleting bobs blank ≡ ok (page, w'))
    × (lookup (codes "bob/ba+y") w'.files ≡ none)
unfolding c_str list_names starts_with has cut
delete_folder-Inside_example =
    delete_folder-Inside deleting bobs blank (codes "bob/") refl b'a' [] (codes "ba+y")
      (codes "a+x" ∷ []) (codes "z" ∷ []) refl refl (inr (codes "b", codes "y", refl))

delete_folder-Taken_example :
    (page : HttpResponse) × (w' : World) × (delete_folder deleting bobs blank ≡ ok (page, w'))
    × ((lookup (codes "bob/z") w'.files ≡ lookup (codes "bob/z") bobs.files)
        ⊎ ((lookup (codes "bob/z") w'.files ≡ none)
            × Taken
                (codes "bob/")
                (codes "a")
                (codes "bob/z")
                (list_names (at_path (codes "bob/")) bobs.files)))
unfolding cut
delete_folder-Taken_example =
    delete_folder-Taken deleting bobs blank (codes "bob/") refl b'a' [] (codes "bob/z") refl

-- What was freed is still intact, and no server is reached.
abbrev services : Services
services = record {
  junk = 0;
  curr_time = codes "today";
  now = pos 0;
  stale = λ text. text;
  writable = anywhere;
  backend = answering [];
  login_valid = λ user password. ok false;
  user_exist = λ user. ok false;
  mail_server = λ message. [];
  master = λ message. [];
  alive = λ address. false;
}

client_handler-static_example :
    (front : Bytes) × (w' : World) × (client_handler services
        (asking [] [] [])
        (request_text (codes "GET") (codes "/bob/z") (codes "HTTP/1.1") (codes "Host: x" ∷ []) [])
        bobs
      ≡ ok (front ++ codes "three", w'))
unfolding c_str lookup starts_with has
client_handler-static_example =
    client_handler-static services (asking [] [] []) bobs (codes "GET") (codes "/bob/z")
      (codes "HTTP/1.1") [] (codes "three") (codes "Host: x" ∷ []) refl refl refl refl refl
      (refl, refl, refl) ((refl, refl, refl), tt) refl refl

abbrev primary : Server
primary = record { id = pos 7; ip = codes "10.0.0.1"; port = pos 8000; running = true }

abbrev second : Server
second = record { id = pos 7; ip = codes "10.0.0.2"; port = pos 8001; running = true }

abbrev pairs : StdMap ℤ Pair
pairs = (pos 7, record { primary = primary; secondary = second }) ∷ []

-- The rows of a longer list than the one that comes now.
abbrev gone : AdminServer
gone = record { ip = codes "10.0.0.9"; port = pos 8009; running = true; backend_type = 1 }

abbrev old_rows : Servers
old_rows = (pos 1, gone) ∷ (pos 2, gone) ∷ (pos 3, gone) ∷ []

parse_backend_servers-list_servers_example :
    (table : Servers) × (parse_backend_servers (c_str (take 1023 (list_servers pairs))) old_rows
      ≡ ok table)
    × (lookup (pos 3) table ≡ some gone)
unfolding has list_servers print_int print_nat lookup
parse_backend_servers-list_servers_example =
    parse_backend_servers-list_servers pairs old_rows 2 ((refl, refl), (refl, refl), tt) refl
      (ground arith)

abbrev logging_in : HttpRequest
logging_in = asking (codes "POST") (codes "/login") (codes "u=bob&p=guess")

abbrev refused : HttpResponse
refused =
    with_body []
      (html (record blank { headers = insert (codes "Connection: ") (codes "close") [] }))

abbrev asked_bob : World
asked_bob = record bobs { asked = (codes "get bob,pwd" ++ crlf, codes "bob") ∷ [] }

respond-OnlyAsks_example : OnlyAsks logging_in bobs asked_bob
unfolding respond handler route user_route log_in login is_already_login lookup split fields c_str
    starts_with cut
respond-OnlyAsks_example =
    respond-OnlyAsks services logging_in bobs asked_bob refused refl refl refl refl
