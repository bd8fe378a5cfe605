-- ===== src/Frontend/Balancer.antt =====
-- The choice of a frontend in frontend/load_balancer.cc.
pub mod Clients
use native.Mathlib.Nat.{mod-eq_of_lt, mod_self, add-mod_left}
use cis505_penn_cloud.Prelude.{
  ℕ, zero, suc, ◌+◌, ◌-◌, ◌%◌, ◌≤◌, ◌<◌, ◌≡◌, refl, Bool, true, false, Option, none, some, List, [],
  ◌∷◌, ◌++◌, arith, if◌then◌else◌, ◌==◌, leb, Bool-cases, inl, inr,
}
use cis505_penn_cloud.Prelude.Int.{ℤ}
use cis505_penn_cloud.Prelude.Text.{Bytes, cut, fields}
use cis505_penn_cloud.Prelude.Decimal.{atoi}
use cis505_penn_cloud.Kv.Outcome.{Outcome, ok, fault}
use cis505_penn_cloud.Kv.Ops.{is_empty}

pub record FrontendServer : Type 0 where
  pub id : ℕ
  pub ip : Bytes
  pub port : ℤ
  pub running : Bool

-- The loop of `parse_all_servers` over the lines of the file; a line without a colon ends the process.
unfoldable pub parse_servers : ℕ → List Bytes → Option (List FrontendServer)
parse_servers id [] = some []
parse_servers id (line ∷ lines) =
    let rest = parse_servers (suc id) lines in
    elim (cut b':' line) [
      | none ↦ none
      | some (ip_addr, port) ↦ (elim rest [
        | none ↦ none
        | some servers ↦
            some (record { id = id; ip = ip_addr; port = atoi port; running = false } ∷ servers)
      ])
    ]

unfoldable pub parse_all_servers : Bytes → Option (List FrontendServer)
unfolding parse_servers
parse_all_servers text =
    let (ts, r) = fields 10 text in parse_servers 1 (if is_empty r then ts else ts ++ r ∷ [])

-- `(handler_server_id + 1) % NUM_OF_SERVERS`, with `NUM_OF_SERVERS` for 0.
unfoldable pub next_server : ℕ → ℕ → ℕ
next_server n h = let i = (h + 1) % n in if i == 0 then n else i

-- The loop that looks for a running server: the rounds that are left, the id, and whether the
-- rounds have not run out.
unfoldable pub find_running : (ℕ → Bool) → ℕ → ℕ → ℕ → ℕ × Bool
find_running running n zero h = (h, false)
find_running running n (suc rounds) h =
    let rest = find_running running n rounds (next_server n h) in
    if running h then (h, true) else rest

-- One connection: the server that the client is sent to, if there is any, and the id from which the
-- next search starts. Without servers the remainder divides by 0, unless the entry that `servers[1]`
-- makes is a running one.
unfoldable pub handle_connection : (ℕ → Bool) → ℕ → ℕ → Outcome (Option ℕ × ℕ)
unfolding find_running next_server
handle_connection running n h =
    let (h', found) = find_running running n n h in
    if n == 0 then fault else ok (if found then (some h', next_server n h') else (none, h'))

-- How many steps lead from one id to another.
abbrev distance : ℕ → ℕ → ℕ → ℕ
distance n h i = if leb h i then i - h else i + n - h

next_server_lem : (n h : ℕ) → 1 ≤ h → h ≤ n → next_server n h ≡ (if h == n then 1 else h + 1)
unfolding next_server
next_server_lem n h low high = ground (
  arith,
  mod-eq_of_lt {n = h + 1} {m = n},
  mod_self n,
  add-mod_left n 1,
  mod-eq_of_lt {n = 1} {m = n},
  mod_self 1,
)

find_running-finds :
    (running : ℕ → Bool) (n rounds h i : ℕ)
    → 1 ≤ h
    → h ≤ n
    → 1 ≤ i
    → i ≤ n
    → running i ≡ true
    → distance n h i < rounds
    → let r = find_running running n rounds h in
      (r.1 ≡ true) × (running r.0 ≡ true) × (1 ≤ r.0) × (r.0 ≤ n)
unfolding find_running
find_running-finds running n zero h i lh hh li hi on d = elim d [ ]
find_running-finds running n (suc rounds) h i lh hh li hi on d =
    let step = next_server_lem n h lh hh in
    ground (arith, step, find_running-finds running n rounds (next_server n h) i)

find_running-none :
    (running : ℕ → Bool) (n rounds h : ℕ)
    → (find_running running n rounds h).1 ≡ true
    → running (find_running running n rounds h).0 ≡ true
unfolding find_running
find_running-none running n zero h e = cc
find_running-none running n (suc rounds) h e = elim (Bool-cases (running h)) [
  | inl on ↦ ground arith
  | inr off ↦ ground (arith, find_running-none running n rounds (next_server n h))
]

-- The load balancer sends a client to a running server whenever one of the servers runs: from any id
-- of the table, the search ends at the id of a running server within as many rounds as there are
-- servers, and the next search starts at an id of the table again.
pub handle_connection-running :
    (running : ℕ → Bool) (n h i : ℕ)
    → 1 ≤ h
    → h ≤ n
    → 1 ≤ i
    → i ≤ n
    → running i ≡ true
    → (j : ℕ) × (k : ℕ) × (handle_connection running n h ≡ ok (some j, k))
      × (running j ≡ true)
      × (1 ≤ k)
      × (k ≤ n)
unfolding handle_connection
handle_connection-running running n h i lh hh li hi on =
    let (found, runs, low, high) =
      find_running-finds running n n h i lh hh li hi on (ground arith) in
    let j = (find_running running n n h).0 in
    let step = next_server_lem n j low high in
    let some_server : (n == 0) ≡ false = ground arith in
    (
      j,
      next_server n j,
      rw (some_server, found) refl,
      runs,
      ground (arith, step),
      ground (arith, step),
    )
