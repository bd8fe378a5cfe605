-- ===== src/Tests/OnNodes.antt =====
-- Runs of the list of users of kvstore/lrucache.cc.
use cis505_penn_cloud.Prelude.{◌≡◌, refl, ◌≢◌, false, none, some, [], ◌∷◌, ◌++◌, arith}
use cis505_penn_cloud.Prelude.Int.{pos}
use cis505_penn_cloud.Prelude.Ordered.{bytes_ordered}
use cis505_penn_cloud.Prelude.Text.{Bytes, codes}
use cis505_penn_cloud.StdMap.{lookup, lookup_or, erase, insert}
use cis505_penn_cloud.Kv.Outcome.{Outcome, ok}
use cis505_penn_cloud.Kv.Nodes.{Heap, head, tail, move_to_tail, update}
use cis505_penn_cloud.Kv.Nodes.Relink.{IsList}
use cis505_penn_cloud.Kv.Store.{virtual_memory, Store}
use cis505_penn_cloud.Kv.Disk.{
  read_extents, format_row, value_size, write_to_chunk, update_metadata, clear_metadata,
}
use cis505_penn_cloud.Kv.Cache.{use_virtual_memory, store_old, drop_first}
use cis505_penn_cloud.Kv.Cache.Evict.{use_virtual_memory_lem}
use cis505_penn_cloud.Kv.Cache.Stranded.{use_virtual_memory_stranded}
use cis505_penn_cloud.Tests.OnDisk.{empty_store, one_chunk}

abbrev pub note : Bytes
note = codes "note"

abbrev pub milk : Bytes
milk = codes "milk"

abbrev pub ann : Bytes
ann = codes "ann"

abbrev pub bob : Bytes
bob = codes "bob"

-- Two users, the nodes 2 and 3; the node 4 is in no list.
abbrev pub three_nodes : Heap
three_nodes = record {
  prev = update (update (update (λ _. none) 2 (some 0)) 3 (some 2)) 1 (some 3);
  next = update (update (update (λ _. none) 0 (some 2)) 2 (some 3)) 3 (some 1);
  key = update (update (λ _. []) 2 ann) 3 bob;
  value = update (λ _. []) 2 ((note, milk) ∷ []);
  fresh = 5;
}

abbrev pub two_users : Store
two_users = record empty_store {
  nodes = three_nodes;
  tablets = (ann, 2) ∷ (bob, 3) ∷ [];
  memory_used = pos 4;
  user_size = (ann, pos 4) ∷ [];
}

pub two_users-IsList : IsList three_nodes (2 ∷ 3 ∷ [])
two_users-IsList = (ground arith, ground arith, ground arith)

use_virtual_memory_lem_example :
    (s' : Store) × (use_virtual_memory one_chunk two_users ≡ ok s')
    × IsList s'.nodes (3 ∷ [])
    × (s'.tablets ≡ erase ann two_users.tablets)
    × (s'.memory_used ≡ pos 0)
    × (read_extents virtual_memory (lookup_or [] ann s'.virmem_meta) s'.files ≡ codes "note,milk,")
unfolding format_row value_size lookup
use_virtual_memory_lem_example =
    use_virtual_memory_lem one_chunk two_users 2 4 (3 ∷ []) two_users-IsList (ground arith)
      (ground arith) refl refl (ground arith) (ground arith)

-- The states that follow a put to the first of the two users.
abbrev pub moved : Store
moved = record two_users {
  nodes = record three_nodes {
    prev = update (update three_nodes.prev 2 (some 3)) 1 (some 2);
    next = update (update three_nodes.next 3 (some 2)) 2 (some 1);
    value = update three_nodes.value 2 (insert note (milk ++ milk) ((note, milk) ∷ []));
  };
}

stored_again : store_old ann note milk false two_users ≡ ok moved
unfolding store_old move_to_tail lookup insert
stored_again = refl

abbrev pub evicted : Outcome Store → Store
evicted (ok s) = s
evicted _ = empty_store

pub first_evicted :
    use_virtual_memory one_chunk moved ≡ ok (evicted (use_virtual_memory one_chunk moved))
unfolding use_virtual_memory drop_first write_to_chunk format_row value_size insert lookup
    update_metadata clear_metadata
first_evicted = refl

use_virtual_memory_stranded_example :
    (moved.nodes.next head ≡ some 2)
    × ((evicted (use_virtual_memory one_chunk moved)).nodes.next head ≡ some tail)
    × (use_virtual_memory one_chunk (evicted (use_virtual_memory one_chunk moved)) ≢ ok moved)
unfolding lookup
use_virtual_memory_stranded_example =
    use_virtual_memory_stranded one_chunk ann note milk false two_users moved
      (evicted (use_virtual_memory one_chunk moved)) moved 2 3 [] refl (ground arith)
      two_users-IsList refl stored_again first_evicted
