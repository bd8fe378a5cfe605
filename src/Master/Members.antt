-- ===== src/Master/Members.antt =====
-- Membership in master/master.cc: failover, joining nodes, and what a new node is told to fetch.
use cis505_penn_cloud.Prelude.{
  ℕ, ◌≡◌, refl, ◌⊎◌, inl, inr, Bool, true, false, none, some, [], ◌∷◌, ◌++◌, arith, if◌then◌else◌,
  Bool-cases, Option-cases,
}
use cis505_penn_cloud.Prelude.Int.{ℤ, pos, ◌<ℤ◌, ltb_ℤ}
use cis505_penn_cloud.Prelude.Ordered.{int_ordered, bytes_ordered, cmp_ℤ_iff, same, same_iff}
use cis505_penn_cloud.Prelude.Text.{Bytes, codes}
use cis505_penn_cloud.Prelude.Decimal.{atoi}
use cis505_penn_cloud.StdMap.{
  StdMap, lookup, insert, erase, lookup_or, lookup-insert, lookup-insert_self, lookup-erase,
}
use cis505_penn_cloud.Master.Hash.{hash_str}
use cis505_penn_cloud.Master.Ring.{Server, Pair, get_server_id}
use cis505_penn_cloud.Master.Handler.{
  UserSet, Master, Request, is_empty, server_address, hand_over, dummy, no_pair, find_user,
  get_backend_info, joining, join_new, join_pair, join, promote,
}

-- Whether a new node of this id is told to fetch a user's data.
abbrev pub is_handed_over : ℤ → Bytes → Bool
is_handed_over id user = ltb_ℤ (pos (hash_str user)) id

abbrev pub is_in : Bytes → UserSet → Bool
is_in u set = elim (lookup u set) [ none ↦ false | some _ ↦ true ]

-- What stays of `kept` behind the loop over `list`.
hand_over-kept :
    (id : ℤ) (list kept : UserSet) (u : Bytes)
    → lookup u (hand_over id list kept).1 ≡ (
        if is_handed_over id u
        then (elim (lookup u list) [ none ↦ lookup u kept | some _ ↦ none ])
        else lookup u kept)
unfolding hand_over lookup
hand_over-kept id [] kept u = ground arith
hand_over-kept id ((v, _) ∷ list) kept u = ground (
  arith,
  same_iff v u,
  lookup-erase v u kept,
  hand_over-kept id list kept u,
  hand_over-kept id list (erase v kept) u,
)

-- A user who is handed over does not stay.
hand_over_all :
    (id : ℤ) (list : UserSet) (u : Bytes)
    → is_handed_over id u ≡ true
    → lookup u (hand_over id list list).1 ≡ none
hand_over_all id list u h = ground (arith, hand_over-kept id list list u)

not-is_in-insert :
    (head : ℤ) (u : Bytes) (set : UserSet) (m : StdMap ℤ UserSet)
    → lookup u set ≡ none
    → is_in u (lookup_or [] head (insert head set m)) ≡ false
not-is_in-insert head u set m h = ground (arith, h, lookup-insert_self head set m)

-- A key below the first id belongs to it.
get_server_id_first :
    (head : ℤ) (p : Pair) (rest : StdMap ℤ Pair) (h : ℕ)
    → pos h <ℤ head
    → get_server_id ((head, p) ∷ rest) (pos h) ≡ head
unfolding get_server_id
get_server_id_first head p rest h low = ground arith

-- The first entry is written again, and a later one added.
insert-insert_first :
    (head id : ℤ) (p q r : Pair) (rest : StdMap ℤ Pair)
    → head <ℤ id
    → insert id r (insert head q ((head, p) ∷ rest)) ≡ (head, q) ∷ insert id r rest
unfolding insert
insert-insert_first head id p q r rest lt = ground (arith, cmp_ℤ_iff head head)

module _ (alive : Bytes → ℤ → Bool) (junk : ℤ) where
  -- What becomes of the pair that is stored under an id, of which a node joins: behind a primary that is
  -- up the node is the secondary; in place of a primary that is down and has no secondary it is the
  -- primary; and where there is a secondary, that one is the primary now, and the node its secondary.
  abbrev pub Rejoined : Pair → Server → Bytes → Pair → Type 0
  Rejoined old server rep new =
      ((alive old.primary.ip old.primary.port ≡ true)
        × (new.primary ≡ old.primary)
        × (new.secondary ≡ server)
        × (rep ≡ codes "P=" ++ server_address old.primary))
      ⊎ ((alive old.primary.ip old.primary.port ≡ false)
          × (is_empty old.secondary.ip ≡ true)
          × (new.primary ≡ server)
          × (rep ≡ codes "P"))
      ⊎ ((alive old.primary.ip old.primary.port ≡ false)
          × (is_empty old.secondary.ip ≡ false)
          × (new.primary ≡ old.secondary)
          × (new.secondary ≡ server)
          × (rep ≡ codes "P=" ++ server_address old.secondary))

  join_pair-Rejoined :
      (pair : Pair) (server : Server)
      → Rejoined pair server
          (join_pair alive junk pair server).1
          (join_pair alive junk pair server).0
  unfolding join_pair
  join_pair-Rejoined pair server = elim (Bool-cases (alive pair.primary.ip pair.primary.port)) [
    | inl up ↦ inl (up, rw (up, join_pair) refl, rw (up, join_pair) refl, rw (up, join_pair) refl)
    | inr down ↦ elim (Bool-cases (is_empty pair.secondary.ip)) [
      | inl single ↦
          inr (
            inl
              (down, single, rw (down, single, join_pair) refl, rw (down, single, join_pair) refl))
      | inr double ↦ inr (
          inr (
            down,
            double,
            rw (down, double, join_pair) refl,
            rw (down, double, join_pair) refl,
            rw (down, double, join_pair) refl,
          ))
    ]
  ]

  -- What a node of a new id is told: nothing where no users are known, and otherwise the node whose
  -- users it shares, and their names.
  abbrev pub Told : Master → ℤ → Bytes → Type 0
  Told m id rep =
      let dest = lookup_or (no_pair alive junk) (get_server_id m.servers id) m.servers in
      ((is_empty m.users ≡ true) × (rep ≡ codes "P"))
      ⊎ ((is_empty m.users ≡ false)
          × ((names : Bytes) × (rep ≡ codes "P " ++ server_address dest.primary ++ b',' ∷ names)))

  -- A node that joins is stored under its id. Of a new id it is the primary, and is told the node whose
  -- users it shares, if users are known; of an id that is there, its role and what it is told depend on
  -- whether the stored primary is up and has a secondary, and a primary that is up stays.
  pub join-Rejoined :
      (m : Master) (req : Request) (content : Bytes)
      → let id = atoi content in
        let server = joining alive junk req id in
        let (m', rep) = join alive junk m req content in
        (pair : Pair) × (lookup id m'.servers ≡ some pair)
        × (((lookup id m.servers ≡ none) × (pair.primary ≡ server) × Told m id rep)
            ⊎ ((old : Pair) × (lookup id m.servers ≡ some old) × Rejoined old server rep pair))
  unfolding join join_new
  join-Rejoined m req content =
      let id = atoi content in
      let server = joining alive junk req id in
      elim (Option-cases (lookup id m.servers)) [
        | inl new ↦ elim (Bool-cases (is_empty m.users)) [
          | inl first ↦
              let pair : Pair = record { primary = server; secondary = dummy alive junk } in
              rw (new, first, join, join_new)
                (pair, lookup-insert_self id pair m.servers, inl (refl, refl, inl (refl, refl)))
          | inr later ↦
              let pair : Pair = record { primary = server; secondary = dummy alive junk } in
              rw (new, later, join, join_new)
                (pair, lookup-insert_self id pair _, inl (refl, refl, inr (refl, (_, refl))))
        ]
        | inr (pair, old) ↦
            rw (old, join)
              (
                (join_pair alive junk pair server).0,
                lookup-insert_self _ _ m.servers,
                inr (pair, refl, join_pair-Rejoined pair server),
              )
      ]

  -- A request for a user's server, where the ring assigns the user to an id that is in the table: if the
  -- primary is up, its address is the answer and the table stays as it is. If it is down, the answer is
  -- the address of the secondary, which is not probed and may be missing; the secondary is stored as the
  -- primary without a secondary, and every other id keeps its pair. The user is recorded under the id.
  pub find_user-failover :
      (m : Master) (user : Bytes) (pair : Pair) (j : ℤ)
      → lookup (get_server_id m.servers (pos (hash_str user))) m.servers ≡ some pair
      → let id = get_server_id m.servers (pos (hash_str user)) in
        let (m', rep) = find_user alive junk m user in
        (((alive pair.primary.ip pair.primary.port ≡ true)
            × (rep ≡ server_address pair.primary)
            × (lookup j m'.servers ≡ lookup j m.servers))
          ⊎ ((alive pair.primary.ip pair.primary.port ≡ false)
              × (rep ≡ server_address pair.secondary)
              × (lookup id m'.servers
                  ≡ some (record { primary = pair.secondary; secondary = dummy alive junk }))
              × ((j ≡ id) ⊎ (lookup j m'.servers ≡ lookup j m.servers))))
        × (is_in user (lookup_or [] id m'.users) ≡ true)
  unfolding find_user get_backend_info
  find_user-failover m user pair j h =
      let id = get_server_id m.servers (pos (hash_str user)) in
      let recorded : is_in user (lookup_or [] id (find_user alive junk m user).0.users) ≡ true =
        ground (
          arith,
          lookup-insert_self id (insert user tt (lookup_or {V = UserSet} [] id m.users)) m.users,
          lookup-insert_self user (tt {0}) (lookup_or {V = UserSet} [] id m.users),
        ) in
      let table = lookup-insert id j (promote alive junk pair) m.servers in
      let stored = lookup-insert_self id (promote alive junk pair) m.servers in
      elim (Bool-cases (alive pair.primary.ip pair.primary.port)) [
        | inl up ↦
            (inl (up, ground (arith, h, up), ground (arith, h, up, table, same_iff id j)), recorded)
        | inr down ↦ elim (Bool-cases (same id j)) [
          | inl here ↦ (
            inr (
              down,
              ground (arith, h, down),
              ground (arith, h, down, stored),
              inl (ground (arith, here, same_iff id j)),
            ),
            recorded,
          )
          | inr there ↦ (
            inr (
              down,
              ground (arith, h, down),
              ground (arith, h, down, stored),
              inr (ground (arith, h, down, table, there)),
            ),
            recorded,
          )
        ]
      ]

  -- Told to fetch users, a new node above the first id takes over all of the first node's users that
  -- hash below its own id. Where the first node is the one whose keys it shares, a user below the
  -- first id is struck off the first node's list, and the ring still assigns him to the first node.
  pub join_new-misplaces :
      (m : Master) (server : Server) (head id : ℤ) (p : Pair) (rest : StdMap ℤ Pair) (u : Bytes)
      → m.servers ≡ (head, p) ∷ rest
      → is_empty m.users ≡ false
      → head <ℤ id
      → get_server_id m.servers id ≡ head
      → pos (hash_str u) <ℤ head
      → let m' = (join_new alive junk m id server).0 in
        (is_in u (lookup_or [] head m'.users) ≡ false)
        × (get_server_id m'.servers (pos (hash_str u)) ≡ head)
  unfolding join_new
  join_new-misplaces m server head id p rest u e later lt own low =
      let list : UserSet = lookup_or [] head m.users in
      let over : is_handed_over id u ≡ true = ground arith in
      rw (later, own, join_new)
        (
          not-is_in-insert head u _ m.users (hand_over_all id list u over),
          rw (e, insert-insert_first _ _ _ _ _ _ lt) (get_server_id_first head _ _ _ low),
        )
