-- ===== src/Master/Handler.antt =====
-- The request loop of master/master.cc: one request and its reply.
use cis505_penn_cloud.Prelude.{
  Bool, true, false, Option, none, some, List, [], ◌∷◌, ◌++◌, if◌then◌else◌, ◌==◌,
}
use cis505_penn_cloud.Prelude.Int.{ℤ, pos, ltb_ℤ}
use cis505_penn_cloud.Prelude.Ordered.{int_ordered, bytes_ordered}
use cis505_penn_cloud.Prelude.Text.{Bytes, codes}
use cis505_penn_cloud.Prelude.Decimal.{print_int, atoi}
use cis505_penn_cloud.StdMap.{StdMap, lookup, insert, erase, lookup_or}
use cis505_penn_cloud.Master.Hash.{hash_str}
use cis505_penn_cloud.Master.Ring.{Server, Pair, get_server_id}

-- `set<string>`
abbrev pub UserSet : Type 0
UserSet = StdMap Bytes (Unit {0})

pub record Master : Type 0 where
  pub servers : StdMap ℤ Pair
  pub users : StdMap ℤ UserSet
  pub server_index : StdMap Bytes ℤ

-- What a request brings: the address that it came from, and its text.
pub record Request : Type 0 where
  pub src_ip : Bytes
  pub src_port : ℤ
  pub message : Bytes

abbrev pub address : Bytes → ℤ → Bytes
address ip port = ip ++ b':' ∷ print_int port

abbrev pub server_address : Server → Bytes
server_address s = address s.ip s.port

abbrev pub is_empty {ℓ} : {A : Type ℓ} → List A → Bool
is_empty [] = true
is_empty (x ∷ xs) = false

-- The loop over the users of the server that has served the new node's keys: the names that the
-- reply lists, and the set that stays.
unfoldable pub hand_over : ℤ → UserSet → UserSet → Bytes × UserSet
hand_over id [] kept = ([], kept)
hand_over id ((user, _) ∷ list) kept =
    let (names, rest) =
      hand_over id list (if ltb_ℤ (pos (hash_str user)) id then erase user kept else kept) in
    if ltb_ℤ (pos (hash_str user)) id then (user ++ b',' ∷ names, rest) else (names, rest)

-- The reply to "A": all backend servers.
unfoldable pub list_servers : StdMap ℤ Pair → Bytes
list_servers [] = []
list_servers ((id, pair) ∷ m) =
    b'P' ∷ server_address pair.primary
    ++ b','
      ∷ ((if is_empty pair.secondary.ip
            then []
            else b'S' ∷ server_address pair.secondary ++ b',' ∷ [])
          ++ list_servers m)

unfoldable pub list_users : UserSet → Bytes
list_users [] = []
list_users ((user, _) ∷ m) = user ++ b',' ∷ list_users m

-- "U": the users of a node. `server_index.at` throws on an unknown address.
unfoldable pub users_of : Master → Bytes → Option (Master × Bytes)
users_of m content = elim (lookup content m.server_index) [
  | none ↦ none
  | some node_id ↦
      let list = lookup_or [] node_id m.users in
      some (record m { users = insert node_id list m.users }, list_users list)
]

-- `alive ip port` stands for `check_server_state`, and `junk` for an `int` that was never set.
module _ (alive : Bytes → ℤ → Bool) (junk : ℤ) where
  abbrev pub dummy : Server
  dummy = record { id = junk; ip = []; port = junk; running = false }

  abbrev pub no_pair : Pair
  no_pair = record { primary = dummy; secondary = dummy }

  -- The pair that answers: the secondary takes over from a primary that is down.
  abbrev pub promote : Pair → Pair
  promote pair =
      if alive pair.primary.ip pair.primary.port
      then pair
      else record { primary = pair.secondary; secondary = dummy }

  -- get server ip:port
  unfoldable pub get_backend_info : StdMap ℤ Pair → ℤ → StdMap ℤ Pair × Bytes
  get_backend_info servers key =
      let server_id = get_server_id servers key in
      let pair = promote (lookup_or no_pair server_id servers) in
      (insert server_id pair servers, server_address pair.primary)

  -- "?": a frontend asks for the server of a user.
  unfoldable pub find_user : Master → Bytes → Master × Bytes
  find_user m content =
      let key = pos (hash_str content) in
      let node_id = get_server_id m.servers key in
      let list = lookup_or [] node_id m.users in
      let (servers, rep) = get_backend_info m.servers key in
      (record m { servers = servers; users = insert node_id (insert content tt list) m.users }, rep)

  -- "!": a backend node joins. Its own record:
  abbrev pub joining : Request → ℤ → Server
  joining req id = record { id = id; ip = req.src_ip; port = req.src_port; running = true }

  -- A node of a new id is a primary; where users are known already, it is told whose data to fetch.
  unfoldable pub join_new : Master → ℤ → Server → Master × Bytes
  join_new m id server =
      let pair : Pair = record { primary = server; secondary = dummy } in
      if is_empty m.users
      then (record m { servers = insert id pair m.servers }, codes "P")
      else let dest = get_server_id m.servers id in
        let list = lookup_or [] dest m.users in
        let dest_pair = lookup_or no_pair dest m.servers in
        let (names, kept) = hand_over id list list in
        (
          record m {
            servers = insert id pair (insert dest dest_pair m.servers);
            users = insert dest kept m.users;
          },
          codes "P " ++ server_address dest_pair.primary ++ b',' ∷ names,
        )

  -- A node of an id that is there: the pair that is stored, and the reply.
  unfoldable pub join_pair : Pair → Server → Pair × Bytes
  join_pair pair server =
      if alive pair.primary.ip pair.primary.port
      then (record pair { secondary = server }, codes "P=" ++ server_address pair.primary)
      else if is_empty pair.secondary.ip
      then (record pair { primary = server }, codes "P")
      else (
        record { primary = pair.secondary; secondary = server },
        codes "P=" ++ server_address pair.secondary,
      )

  unfoldable pub join : Master → Request → Bytes → Master × Bytes
  unfolding join_new join_pair
  join m req content =
      let id = atoi content in
      let server = joining req id in
      let m' = record m { server_index = insert (server_address server) id m.server_index } in
      elim (lookup id m.servers) [
        | none ↦ join_new m' id server
        | some pair ↦
            let (pair', rep) = join_pair pair server in
            (record m' { servers = insert id pair' m.servers }, rep)
      ]

  unfoldable pub dispatch : Master → Request → Bytes → Option (Master × Bytes)
  unfolding find_user join users_of
  dispatch m req [] = none
  dispatch m req (command ∷ content) =
      if command == b'?'
      then some (find_user m content)
      else if command == b'!'
      then some (join m req content)
      else if command == b'A'
      then some (m, list_servers m.servers)
      else if command == b'U'
      then users_of m content
      else some (m, [])

  -- One round of the loop of `main`; `none` is an exception that ends the process.
  unfoldable pub handle : Master → Request → Option (Master × Bytes)
  unfolding dispatch
  handle m req = dispatch m req req.message
