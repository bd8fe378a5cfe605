-- ===== src/Tests/OnFrontend.antt =====
-- Runs of the web frontend.
use cis505_penn_cloud.Prelude.{
  ℕ, ◌+◌, List, [], ◌∷◌, ◌≤◌, ◌≡◌, refl, Bool, true, some, [], ◌++◌, arith,
}
use cis505_penn_cloud.Prelude.Int.{ℤ, pos}
use cis505_penn_cloud.Prelude.Ordered.{int_ordered, same}
use cis505_penn_cloud.Prelude.Text.{Bytes, codes, crlf, starts_with}
use cis505_penn_cloud.Kv.Outcome.{ok}
use cis505_penn_cloud.Frontend.Text.{url_decode, decode_from, scan_hex, replace_all, replace_from}
use cis505_penn_cloud.Frontend.Balancer.{FrontendServer}
use cis505_penn_cloud.Frontend.Balancer.Clients.{
  server_at, server_text, response_text, accept_client, check_server_state,
  accept_client-check_server_state,
}
use cis505_penn_cloud.Frontend.Requests.{HttpRequest, read_request, read_request-ends}

-- Three servers, of which only the last can be reached.
abbrev a_server : ℕ → FrontendServer
a_server id = record { id = id; ip = codes "10.0.0.1"; port = pos (8000 + id); running = true }

abbrev three_servers : List FrontendServer
three_servers = a_server 1 ∷ a_server 2 ∷ a_server 3 ∷ []

abbrev only_third : Bytes × ℤ → Bool
only_third address = same address.1 (pos 8003)

accept_client-check_server_state_example :
    (j : ℕ) × (server : FrontendServer) × (k : ℕ) × (server_at j three_servers ≡ some server)
    × (only_third (server.ip, server.port) ≡ true)
    × (accept_client
          (codes "none")
          (codes "go to $server")
          (check_server_state only_third three_servers)
          1
        ≡ ok (
          response_text
              (replace_all (codes "go to $server") (codes "$server") (server_text server)),
          k,
        ))
    × (1 ≤ k)
    × (k ≤ 3)
unfolding server_at
accept_client-check_server_state_example =
    accept_client-check_server_state only_third (codes "none") (codes "go to $server") three_servers
      1 3 (a_server 3) (ground arith) (ground arith) (ground arith) (ground arith) refl refl

abbrev unset : HttpRequest
unset = record {
  method = [];
  path = [];
  http_version = [];
  content_length = pos 3;
  cookies = [];
  body = [];
  valid = true;
}

read_request-ends_example :
    (req : HttpRequest) × (read_request unset 0
        (codes "POST / HTTP/1.1" ++ crlf ++ crlf ++ codes "abc")
      ≡ ok req)
read_request-ends_example =
    read_request-ends unset 0 (codes "POST / HTTP/1.1" ++ crlf ++ crlf ++ codes "abc")

plus_is_kept : url_decode 0 (codes "a%20b+c") ≡ codes "a b+c"
unfolding url_decode decode_from scan_hex
plus_is_kept = refl

replaced : replace_all (codes "x$sy$s") (codes "$s") (codes "10") ≡ codes "x10y10"
unfolding replace_all replace_from starts_with
replaced = refl
