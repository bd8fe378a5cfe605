-- ===== src/Tests/OnOps.antt =====
-- Runs of the operations of kvstore/lrucache.cc.
use cis505_penn_cloud.Prelude.{◌≡◌, refl, true, false, some, [], ◌∷◌, arith}
use cis505_penn_cloud.Prelude.Int.{pos}
use cis505_penn_cloud.Prelude.Ordered.{bytes_ordered}
use cis505_penn_cloud.Prelude.Text.{Bytes, codes, starts_with}
use cis505_penn_cloud.StdMap.{lookup, insert, erase}
use cis505_penn_cloud.Kv.Outcome.{ok, fault}
use cis505_penn_cloud.Kv.Nodes.{Heap, init_nodes}
use cis505_penn_cloud.Kv.Nodes.Relink.{IsList}
use cis505_penn_cloud.Kv.Store.{Store, send}
use cis505_penn_cloud.Kv.Cache.{put, files_of, use_virtual_memory}
use cis505_penn_cloud.Kv.Cache.Reply
use cis505_penn_cloud.Kv.Cache.Puts.{put_new}
use cis505_penn_cloud.Kv.Ops.{get, dele, cput, getlist, getfile}
use cis505_penn_cloud.Kv.Ops.Hits.{get_hit, with_nodes}
use cis505_penn_cloud.Kv.Ops.Lists.{sends, getlist-listed}
use cis505_penn_cloud.Kv.Ops.Writes.{dele_hit, cput_refused}
use cis505_penn_cloud.Kv.Commands.{migrate_data}
use cis505_penn_cloud.Kv.Commands.Evicted.{use_virtual_memory-hides}
use cis505_penn_cloud.Tests.OnDisk.{empty_store, one_chunk}
use cis505_penn_cloud.Tests.OnNodes.{
  note, milk, ann, bob, two_users, three_nodes, two_users-IsList, moved, evicted, first_evicted,
}

put_new_example :
    (s' : Store) × (put one_chunk 1 ann note milk (pos 7) true (pos 0) empty_store ≡ ok s')
    × (s'.tablets ≡ (ann, 2) ∷ [])
    × IsList s'.nodes (2 ∷ [])
    × (files_of 2 s' ≡ (note, milk) ∷ [])
    × (s'.memory_used ≡ pos 4)
    × (lookup ann s'.user_size ≡ some (pos 4))
    × (s'.virmem_meta ≡ [])
    × (s'.files ≡ [])
    × (s'.sent ≡ (pos 7, Reply.value_stored) ∷ [])
unfolding lookup insert init_nodes
put_new_example =
    put_new one_chunk 0 ann note milk (pos 7) (pos 0) empty_store 0 [] refl refl refl refl
      (ground arith) (ground arith) (ground arith) (ground arith) (ground arith) tt (ground arith)

get_hit_example :
    (h : Heap) × (get one_chunk 0 ann note (pos 7) two_users
      ≡ ok (send (pos 7) milk (send (pos 7) Reply.value_follows (record two_users { nodes = h }))))
    × IsList h (3 ∷ 2 ∷ [])
    × (h.value ≡ three_nodes.value)
unfolding lookup
get_hit_example =
    get_hit one_chunk 0 ann note milk (pos 7) two_users 2 [] (3 ∷ []) refl refl refl tt
      (ground arith) two_users-IsList

dele_hit_example :
    (s' : Store) × (dele one_chunk 0 ann note (pos 7) (pos 0) false two_users ≡ ok s')
    × (files_of 2 s' ≡ [])
    × (s'.tablets ≡ (bob, 3) ∷ [])
    × (s'.memory_used ≡ pos 0)
    × (lookup ann s'.user_size ≡ some (pos 0))
    × IsList s'.nodes (3 ∷ 2 ∷ [])
unfolding lookup erase
dele_hit_example =
    dele_hit one_chunk 0 ann note milk (pos 7) (pos 0) false two_users 2 4 4 [] (3 ∷ []) refl refl
      refl tt (ground arith) two_users-IsList refl refl (ground arith) (ground arith) (ground arith)
      (ground arith)

abbrev small_node : Store
small_node = record two_users { capacity = 8 }

abbrev eight_bytes : Bytes
eight_bytes = codes "eggs,ham"

cput_refused_example :
    (s' : Store) × (cput one_chunk 0 ann note milk eight_bytes (pos 7) (pos 0) small_node ≡ ok s')
    × (files_of 2 s' ≡ (note, milk) ∷ [])
    × (s'.memory_used ≡ pos 0)
    × (lookup ann s'.user_size ≡ some (pos 0))
unfolding lookup
cput_refused_example =
    cput_refused one_chunk 0 ann note milk eight_bytes (pos 7) (pos 0) small_node 2 4 4 [] (3 ∷ [])
      refl refl refl tt (ground arith) two_users-IsList refl refl (ground arith) (ground arith)
      (ground arith) (ground arith) (ground arith) (ground arith)

abbrev after_eviction : Store
after_eviction = evicted (use_virtual_memory one_chunk moved)

use_virtual_memory-hides_example :
    (getlist one_chunk 0 ann (codes "file") (pos 7) after_eviction
      ≡ ok (send (pos 7) Reply.no_such_user after_eviction))
    × (getfile one_chunk 0 ann (pos 7) after_eviction
        ≡ ok (send (pos 7) Reply.no_such_user after_eviction))
    × (migrate_data one_chunk 0 ann (pos 7) after_eviction ≡ fault)
use_virtual_memory-hides_example =
    use_virtual_memory-hides one_chunk 0 (codes "file") (pos 7) moved after_eviction 2 refl
      first_evicted

getlist-listed_example :
    (h : Heap) × (getlist one_chunk 1 ann (codes "file") (pos 7) two_users
      ≡ ok (sends (pos 7) (Reply.list_follows ∷ codes "note,milk," ∷ []) (with_nodes h two_users)))
    × (h.value ≡ two_users.nodes.value)
unfolding lookup starts_with
getlist-listed_example =
    getlist-listed one_chunk 1 ann (pos 7) 2 (codes "file") two_users [] (3 ∷ []) refl refl tt
      (ground arith) two_users-IsList (refl, tt)
