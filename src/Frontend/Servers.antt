-- ===== src/Frontend/Servers.antt =====
-- The tables of servers of frontend/admin_console.h: the file of the frontends, the master's list of
-- the storage nodes, and the probes.
pub mod Listed
pub mod Masters
use cis505_penn_cloud.Prelude.{
  ℕ, zero, suc, ◌+◌, ◌-◌, Bool, true, false, Option, none, some, List, [], ◌∷◌, ◌++◌, if◌then◌else◌,
  leb, length, take, drop,
}
use cis505_penn_cloud.Prelude.Int.{ℤ, pos}
use cis505_penn_cloud.Prelude.Ordered.{bytes_ordered, int_ordered, same}
use cis505_penn_cloud.Prelude.Positions.{index_from, find_first_of, next_of}
use cis505_penn_cloud.Prelude.Text.{Bytes, codes, cut}
use cis505_penn_cloud.Prelude.Decimal.{atoi}
use cis505_penn_cloud.StdMap.{StdMap, insert}
use cis505_penn_cloud.Kv.Outcome.{Outcome, ok, fault, timeout, ◌>>=◌}

-- A server; the id is the key of the table. A frontend's type is never set.
pub record AdminServer : Type 0 where
  pub ip : Bytes
  pub port : ℤ
  pub running : Bool
  pub backend_type : ℕ

abbrev pub Servers : Type 0
Servers = StdMap ℤ AdminServer

-- The lines of the file; one without a colon ends the process. `junk` is the type that is not set.
unfoldable pub parse_frontend_servers : ℕ → ℕ → List Bytes → Servers → Outcome Servers
parse_frontend_servers junk id [] servers = ok servers
parse_frontend_servers junk id (line ∷ lines) servers = elim (cut b':' line) [
  | none ↦ fault
  | some (ip, port) ↦ parse_frontend_servers junk (suc id) lines (
      insert (pos id) (record { ip = ip; port = atoi port; running = false; backend_type = junk })
        servers)
]

-- `s.substr(start, stop - start)`, where a difference below zero, or to `npos`, is past every end.
abbrev pub part : ℕ → Option ℕ → Bytes → Outcome Bytes
part start stop s =
    let rest = drop start s in
    let cut_off : Bytes = elim stop [
      | none ↦ rest
      | some k ↦ if leb start k then take (k - start) rest else rest
    ] in
    if leb start (length s) then ok cut_off else fault

-- 1 for a primary, 2 for a secondary.
unfoldable pub type_of : Bytes → ℕ
type_of s = if same s (codes "P") then 1 else if same s (codes "S") then 2 else 3

-- One server of the list: it begins at `found1`, its colon is at `colon`, its comma at `found3`.
unfoldable pub listed_server : ℕ → ℕ → Option ℕ → Bytes → Outcome AdminServer
unfolding type_of
listed_server found1 colon found3 s = do
  ip ← part (found1 + 1) (some colon) s
  port ← part (colon + 1) found3 s
  backend_type ← part found1 (some (found1 + 1)) s
  ok (record { ip = ip; port = atoi port; running = false; backend_type = type_of backend_type })

-- The loop of `parse_backend_servers`, on fuel: each round goes on behind a colon.
unfoldable pub parse_listed : ℕ → ℕ → ℕ → Option ℕ → Option ℕ → Bytes → Servers → Outcome Servers
unfolding listed_server index_from
parse_listed zero id found1 found2 found3 s servers = timeout
parse_listed (suc fuel) id found1 none found3 s servers = ok servers
parse_listed (suc fuel) id found1 (some colon) found3 s servers =
    listed_server found1 colon found3 s >>= λ server.
    parse_listed fuel (suc id) (next_of found3) (find_first_of b':' (colon + 1) s)
      (find_first_of b',' (next_of found3) s) s (insert (pos id) server servers)

unfoldable pub parse_backend_servers : Bytes → Servers → Outcome Servers
unfolding parse_listed
parse_backend_servers s servers =
    parse_listed (suc (length s)) 1 0 (find_first_of b':' 0 s) (find_first_of b',' 0 s) s servers

-- One sweep of `check_server_state`, or of the console: `alive` says where a connection comes about.
unfoldable pub check_servers : (Bytes × ℤ → Bool) → Servers → Servers
check_servers alive [] = []
check_servers alive ((id, server) ∷ servers) =
    (id, record server { running = alive (server.ip, server.port) }) ∷ check_servers alive servers
