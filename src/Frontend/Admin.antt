-- ===== src/Frontend/Admin.antt =====
-- The admin console of frontend/response.cc: the state of all servers, and what each storage node holds.
use cis505_penn_cloud.Prelude.{ℕ, Bool, List, [], ◌∷◌, ◌++◌, if◌then◌else◌, take}
use cis505_penn_cloud.Prelude.Int.{ℤ}
use cis505_penn_cloud.Prelude.Text.{Bytes, codes, crlf}
use cis505_penn_cloud.Prelude.Decimal.{print_int}
use cis505_penn_cloud.Kv.Outcome.{Outcome, ok, ◌>>=◌}
use cis505_penn_cloud.Kv.Ops.{is_empty}
use cis505_penn_cloud.Frontend.Text.{c_str, split}
use cis505_penn_cloud.Frontend.Pages.{HttpResponse}
use cis505_penn_cloud.Frontend.Servers.{
  AdminServer, Servers, parse_frontend_servers, parse_backend_servers, check_servers,
}
use cis505_penn_cloud.Frontend.World.{World, text_of, ask}
use cis505_penn_cloud.Frontend.MailPages.{filled}

abbrev pub address_text : AdminServer → Bytes
address_text server = server.ip ++ b':' ∷ print_int server.port

-- The cells of a server.
unfoldable pub server_cells : AdminServer → Bytes
server_cells server =
    if server.running
    then codes "<td class=\"success\">"
      ++ address_text server
      ++ codes "</td><td class=\"success\">Active</td>"
    else codes "<td class=\"danger\">"
      ++ address_text server
      ++ codes "</td><td class=\"danger\">Down</td>"

unfoldable pub frontend_rows : Servers → Bytes
unfolding server_cells
frontend_rows [] = []
frontend_rows ((_, server) ∷ servers) =
    codes "<tr>" ++ server_cells server ++ codes "</tr>" ++ frontend_rows servers

abbrev cells : List Bytes → Bytes
cells [] = []
cells (line ∷ lines) = codes "<td>" ++ line ++ codes "</td>" ++ cells lines

abbrev row_of : Bytes → Bytes → List Bytes → Bytes
row_of name what lines = codes "<tr><td>" ++ name ++ what ++ cells lines ++ codes "</tr>"

-- `backend` is `send_to_backend`, `master` what the master answers, and `alive` where a connection
-- comes about.
module _ (backend : Bytes → Bytes → Outcome (List Bytes)) (master : Bytes → Bytes)
    (alive : Bytes × ℤ → Bool) where
  -- The mails and the files of each user; an empty name is passed over.
  unfoldable pub user_rows : List Bytes → World → Outcome (Bytes × World)
  user_rows [] w = ok ([], w)
  user_rows (name ∷ names) w =
      let asked : Outcome (Bytes × World) =
        ask backend (codes "getlist " ++ name ++ codes ",email" ++ crlf) name w >>= λ mails.
        ask backend (codes "getfile " ++ name ++ crlf) name mails.1 >>= λ files.
        user_rows names files.1 >>= λ rows. ok (
          row_of name (codes " emails:</td>") mails.0
              ++ row_of name (codes " files and pwd:</td>") files.0
              ++ rows.0,
          rows.1,
        ) in
      let passed = user_rows names w in if is_empty name then passed else asked

  -- A running node is followed by the rows of its users, as the master names them.
  unfoldable pub backend_rows : Servers → World → Outcome (Bytes × World)
  unfolding user_rows server_cells
  backend_rows [] w = ok ([], w)
  backend_rows ((_, server) ∷ servers) w =
      let names = split (c_str (take 4999 (master (b'U' ∷ address_text server)))) b',' in
      let none_ : Outcome (Bytes × World) = ok ([], w) in
      (if server.running then user_rows names w else none_) >>= λ users.
      backend_rows servers users.1 >>= λ rows.
      ok (codes "<tr>" ++ server_cells server ++ users.0 ++ codes "</tr>" ++ rows.0, rows.1)

  -- The request is not looked at.
  unfoldable pub admin_console : ℕ → World → HttpResponse → Outcome (HttpResponse × World)
  unfolding backend_rows frontend_rows parse_frontend_servers parse_backend_servers check_servers
  admin_console junk w res = do
    read ←
        parse_frontend_servers junk 1 (split (text_of w (codes "servers.txt")) 10)
          w.frontend_servers
    let frontends = check_servers alive read
    let w1 = record w { frontend_servers = frontends }
    listed ← parse_backend_servers (c_str (take 1023 (master (codes "A")))) w1.backend_servers
    let backends = check_servers alive listed
    (rows, w2) ← backend_rows backends (record w1 { backend_servers = backends })
    ok (
      filled w2 (codes "html/admin-console.html")
          ((codes "$frontend", frontend_rows frontends) ∷ (codes "$backend", rows) ∷ []) res,
      w2,
    )
