-- ===== src/Frontend/Balancer/Clients.antt =====
-- The probe of the servers and the answer to a client in frontend/load_balancer.cc.
use cis505_penn_cloud.Prelude.{
  ℕ, ◌≤◌, ◌≡◌, refl, ap, ◌∙◌, Bool, true, false, Option, none, some, List, [], ◌∷◌, ◌++◌, arith,
  Option-cases, inl, inr, if◌then◌else◌, ◌==◌, length,
}
use cis505_penn_cloud.Prelude.Int.{ℤ}
use cis505_penn_cloud.Prelude.Text.{Bytes, codes, crlf}
use cis505_penn_cloud.Prelude.Decimal.{print_nat, print_int}
use cis505_penn_cloud.Kv.Outcome.{Outcome, ok, fault, ◌>>=◌}
use cis505_penn_cloud.Frontend.Text.{replace_all}
use cis505_penn_cloud.Frontend.Balancer.{
  FrontendServer, handle_connection, handle_connection-running,
}

abbrev probed : (Bytes × ℤ → Bool) → FrontendServer → FrontendServer
probed alive server = record server { running = alive (server.ip, server.port) }

-- One sweep of the probe: `alive` says where a connection comes about.
unfoldable pub check_server_state : (Bytes × ℤ → Bool) → List FrontendServer → List FrontendServer
check_server_state alive [] = []
check_server_state alive (server ∷ servers) = probed alive server ∷ check_server_state alive servers

-- `servers[id]`
unfoldable pub server_at : ℕ → List FrontendServer → Option FrontendServer
server_at id [] = none
server_at id (server ∷ servers) =
    let rest = server_at id servers in if server.id == id then some server else rest

abbrev pub is_running : List FrontendServer → ℕ → Bool
is_running servers id = elim (server_at id servers) [ none ↦ false | some server ↦ server.running ]

abbrev pub server_text : FrontendServer → Bytes
server_text server = server.ip ++ b':' ∷ print_int server.port

unfoldable pub response_text : Bytes → Bytes
response_text content =
    codes "HTTP/1.1 200 OK"
    ++ crlf
    ++ codes "Content-Type: text/html"
    ++ crlf
    ++ codes "Content-Length: "
    ++ print_nat (length content)
    ++ crlf
    ++ crlf
    ++ content

-- The page for a client: `no_server` and `redirect` are the texts of the two pages. The port of a
-- server that is not in the table is not set.
abbrev pub content_for : Bytes → Bytes → List FrontendServer → Option ℕ → Outcome Bytes
content_for no_server redirect servers none = ok no_server
content_for no_server redirect servers (some id) = elim (server_at id servers) [
  | none ↦ fault
  | some server ↦ ok (replace_all redirect (codes "$server") (server_text server))
]

-- One round of the loop of `main`: what is written to the client, and where the next search starts.
unfoldable pub accept_client : Bytes → Bytes → List FrontendServer → ℕ → Outcome (Bytes × ℕ)
unfolding response_text
accept_client no_server redirect servers handler_server_id =
    handle_connection (is_running servers) (length servers) handler_server_id >>= λ r.
    content_for no_server redirect servers r.0 >>= λ content. ok (response_text content, r.1)

length-check_server_state :
    (alive : Bytes × ℤ → Bool) (servers : List FrontendServer)
    → length (check_server_state alive servers) ≡ length servers
unfolding check_server_state
length-check_server_state alive [] = refl
length-check_server_state alive (server ∷ servers) =
    omega (arith, length-check_server_state alive servers)

-- A sweep marks a server as running exactly if it can be reached, and leaves its address.
server_at-check_server_state :
    (alive : Bytes × ℤ → Bool) (id : ℕ) (servers : List FrontendServer)
    → server_at id (check_server_state alive servers)
      ≡ (elim (server_at id servers) [ none ↦ none | some server ↦ some (probed alive server) ])
unfolding check_server_state server_at
server_at-check_server_state alive id [] = refl
server_at-check_server_state alive id (server ∷ servers) =
    ground (arith, server_at-check_server_state alive id servers)

reached_server :
    (alive : Bytes × ℤ → Bool) (servers : List FrontendServer) (id : ℕ)
    → is_running (check_server_state alive servers) id ≡ true
    → (server : FrontendServer) × (server_at id servers ≡ some server)
      × (alive (server.ip, server.port) ≡ true)
      × (server_at id (check_server_state alive servers) ≡ some (probed alive server))
reached_server alive servers id on =
    let swept = server_at-check_server_state alive id servers in
    elim (Option-cases (server_at id servers)) [
      | inl absent ↦ ground (arith, on, swept, absent)
      | inr (server, e) ↦
          let marked : server_at id (check_server_state alive servers)
              ≡ some (probed alive server) =
            ground (arith, swept, e) in
          (server, e, ground (arith, on, marked), marked)
    ]

accept_client-chosen :
    (no_server redirect : Bytes) (table : List FrontendServer) (h j k : ℕ) (server : FrontendServer)
    → handle_connection (is_running table) (length table) h ≡ ok (some j, k)
    → server_at j table ≡ some server
    → accept_client no_server redirect table h
      ≡ ok (response_text (replace_all redirect (codes "$server") (server_text server)), k)
unfolding accept_client
accept_client-chosen no_server redirect table h j k server ran e =
    let page : content_for no_server redirect table (some j)
        ≡ ok (replace_all redirect (codes "$server") (server_text server)) =
      ground (arith, e) in
    ap
      (λ o. o >>= λ r.
        content_for no_server redirect table r.0 >>= λ content. ok (response_text content, r.1))
      ran
    ∙ ap (λ o. o >>= λ content. ok (response_text content, k)) page

-- A client who comes after a sweep that reached one of the servers is sent to a server that the sweep
-- reached: the page that is written names the address of such a server, and the next search starts at an
-- id of the table.
pub accept_client-check_server_state :
    (alive : Bytes × ℤ → Bool) (no_server redirect : Bytes) (servers : List FrontendServer)
    (h i : ℕ) (reached : FrontendServer)
    → 1 ≤ h
    → h ≤ length servers
    → 1 ≤ i
    → i ≤ length servers
    → server_at i servers ≡ some reached
    → alive (reached.ip, reached.port) ≡ true
    → (j : ℕ) × (server : FrontendServer) × (k : ℕ) × (server_at j servers ≡ some server)
      × (alive (server.ip, server.port) ≡ true)
      × (accept_client no_server redirect (check_server_state alive servers) h
          ≡ ok (response_text (replace_all redirect (codes "$server") (server_text server)), k))
      × (1 ≤ k)
      × (k ≤ length servers)
accept_client-check_server_state alive no_server redirect servers h i reached lh hh li hi e on =
    let table = check_server_state alive servers in
    let n : length table ≡ length servers = length-check_server_state alive servers in
    let runs : is_running table i ≡ true =
      ground (arith, server_at-check_server_state alive i servers, e, on) in
    let (j, k, ran, found, low, high) =
      handle_connection-running (is_running table) (length table) h i lh (rw n hh) li (rw n hi)
        runs in
    let (server, here, up, marked) = reached_server alive servers j found in
    (
      j,
      server,
      k,
      here,
      up,
      accept_client-chosen no_server redirect table h j k (probed alive server) ran marked,
      low,
      omega (arith, high, n),
    )
