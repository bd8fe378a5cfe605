-- ===== src/Tests/OnMaster.antt =====
-- Runs of master/master.cc on a table of two nodes.
use cis505_penn_cloud.Prelude.{◌≡◌, refl, Bool, true, false, none, some, ◌⊎◌, arith, [], ◌∷◌}
use cis505_penn_cloud.Prelude.Int.{ℤ, pos}
use cis505_penn_cloud.Prelude.Ordered.{int_ordered, bytes_ordered, same}
use cis505_penn_cloud.Prelude.Text.{Bytes, codes}
use cis505_penn_cloud.Prelude.Decimal.{atoi}
use cis505_penn_cloud.StdMap.{StdMap, lookup, lookup_or}
use cis505_penn_cloud.Master.Hash.{hash_str, hash_from}
use cis505_penn_cloud.Master.Ring.{Server, Pair, next_id, get_server_id, Owns, get_server_id-Owns}
use cis505_penn_cloud.Master.Handler.{
  Master, Request, server_address, dummy, find_user, joining, join_new, join,
}
use cis505_penn_cloud.Master.Members.{
  is_in, Told, Rejoined, join-Rejoined, find_user-failover, join_new-misplaces,
}

abbrev ann : Bytes
ann = codes "ann"

abbrev server_a : Server
server_a = record { id = pos 50000; ip = codes "10.0.0.1"; port = pos 5000; running = true }

abbrev server_b : Server
server_b = record { id = pos 60000; ip = codes "10.0.0.2"; port = pos 5001; running = true }

-- Only the second server answers.
abbrev only_b : Bytes → ℤ → Bool
only_b ip port = same port (pos 5001)

abbrev nobody : Server
nobody = record { id = pos 0; ip = []; port = pos 0; running = false }

abbrev pair_a : Pair
pair_a = record { primary = server_a; secondary = server_b }

abbrev pair_b : Pair
pair_b = record { primary = server_b; secondary = nobody }

abbrev two_pairs : StdMap ℤ Pair
two_pairs = (pos 50000, pair_a) ∷ (pos 60000, pair_b) ∷ []

abbrev two_nodes : Master
two_nodes = record { servers = two_pairs; users = []; server_index = [] }

-- The first node serves a user, who hashes to 40327.
abbrev ann_served : Master
ann_served = record {
  servers = two_pairs;
  users = (pos 50000, (ann, tt) ∷ []) ∷ [];
  server_index = [];
}

abbrev asking : Request
asking = record { src_ip = codes "10.0.0.9"; src_port = pos 80; message = codes "?ann" }

hash_ann : hash_str ann ≡ 40327
unfolding hash_str hash_from
hash_ann = refl

ann_goes_first : get_server_id two_pairs (pos (hash_str ann)) ≡ pos 50000
unfolding get_server_id next_id hash_str hash_from
ann_goes_first = refl

get_server_id-Owns_example :
    Owns (pos 50000) (pos 50000 ∷ pos 60000 ∷ []) (pos 55000) (get_server_id two_pairs (pos 55000))
get_server_id-Owns_example =
    get_server_id-Owns (pos 50000) pair_a ((pos 60000, pair_b) ∷ []) (pos 55000)
      ((ground arith, tt), (tt, tt))

join-Rejoined_example :
    let id = atoi (codes "50000") in
    let server = joining only_b (pos 0) asking id in
    let (m', rep) = join only_b (pos 0) two_nodes asking (codes "50000") in
    (pair : Pair) × (lookup id m'.servers ≡ some pair)
    × (((lookup id two_pairs ≡ none)
          × (pair.primary ≡ server)
          × Told only_b (pos 0) two_nodes id rep)
        ⊎ ((old : Pair) × (lookup id two_pairs ≡ some old)
            × Rejoined only_b (pos 0) old server rep pair))
join-Rejoined_example = join-Rejoined only_b (pos 0) two_nodes asking (codes "50000")

find_user-failover_example :
    let id = get_server_id two_pairs (pos (hash_str ann)) in
    let (m', rep) = find_user only_b (pos 0) two_nodes ann in
    (((only_b (codes "10.0.0.1") (pos 5000) ≡ true)
        × (rep ≡ server_address server_a)
        × (lookup (pos 60000) m'.servers ≡ lookup (pos 60000) two_pairs))
      ⊎ ((only_b (codes "10.0.0.1") (pos 5000) ≡ false)
          × (rep ≡ server_address server_b)
          × (lookup id m'.servers
              ≡ some (record { primary = server_b; secondary = dummy only_b (pos 0) }))
          × ((pos 60000 ≡ id) ⊎ (lookup (pos 60000) m'.servers ≡ lookup (pos 60000) two_pairs))))
    × (is_in ann (lookup_or [] id m'.users) ≡ true)
unfolding lookup
find_user-failover_example =
    find_user-failover only_b (pos 0) two_nodes ann pair_a (pos 60000) (rw (ann_goes_first) refl)

join_new-misplaces_example :
    let m' = (join_new only_b (pos 0) ann_served (pos 70000) server_b).0 in
    (is_in ann (lookup_or [] (pos 50000) m'.users) ≡ false)
    × (get_server_id m'.servers (pos (hash_str ann)) ≡ pos 50000)
unfolding get_server_id next_id
join_new-misplaces_example =
    join_new-misplaces only_b (pos 0) ann_served server_b (pos 50000) (pos 70000) pair_a
      ((pos 60000, pair_b) ∷ []) ann refl refl (ground arith) refl (ground (arith, hash_ann))
