-- ===== src/Tests/OnWays.antt =====
-- Runs that join several operations of a storage node.
use cis505_penn_cloud.Prelude.{List, ◌≡◌, refl, true, some, [], ◌∷◌, ◌++◌, arith}
use cis505_penn_cloud.Prelude.Int.{pos}
use cis505_penn_cloud.Prelude.Ordered.{bytes_ordered}
use cis505_penn_cloud.Prelude.Text.{codes, crlf, has}
use cis505_penn_cloud.StdMap.{insert, lookup, erase}
use cis505_penn_cloud.Kv.Outcome.{Outcome, ok, fault, timeout}
use cis505_penn_cloud.Kv.Nodes.{init_nodes}
use cis505_penn_cloud.Kv.Store.{virtual_memory, Store, send}
use cis505_penn_cloud.Kv.Disk.{format_row, value_size}
use cis505_penn_cloud.Kv.Cache.{files_of, Put, put, load_user_from_disk, use_virtual_memory}
use cis505_penn_cloud.Kv.Cache.Reply
use cis505_penn_cloud.Kv.Cache.Appends.{put_old}
use cis505_penn_cloud.Kv.Cache.Restore.{restored, load_user_from_disk-use_virtual_memory}
use cis505_penn_cloud.Kv.Ops.{get}
use cis505_penn_cloud.Kv.Ops.PutGet.{put-get}
use cis505_penn_cloud.Kv.Commands.{replay_log}
use cis505_penn_cloud.Kv.Commands.Replay.{Write, log_text, stored, replay_log-stored}
use cis505_penn_cloud.Tests.OnDisk.{empty_store, one_chunk}
use cis505_penn_cloud.Tests.OnNodes.{note, milk, ann, two_users, two_users-IsList}

put-get_example :
    (s' : Store) × (s'' : Store) × (put one_chunk 1 ann note milk (pos 7) true (pos 0) empty_store
      ≡ ok s')
    × (get one_chunk 0 ann note (pos 8) s' ≡ ok s'')
    × (s''.sent ≡ (pos 7, Reply.value_stored) ∷ (pos 8, Reply.value_follows) ∷ (pos 8, milk) ∷ [])
unfolding lookup init_nodes
put-get_example =
    put-get one_chunk 0 0 ann note milk (pos 7) (pos 8) (pos 0) empty_store 0 [] refl refl refl refl
      (ground arith) (ground arith) (ground arith) (ground arith) (ground arith) tt (ground arith)

abbrev store_of : Outcome Store → Store
store_of o = elim o [ ok s ↦ s | fault ↦ empty_store | timeout ↦ empty_store ]

abbrev with_milk : Store
with_milk = store_of (put one_chunk 1 ann note (milk ++ crlf) (pos 7) true (pos 0) empty_store)

-- A `put` that only notes down what it is asked for.
abbrev noting : Put
noting user filename value s = ok (send (pos 0) (user ++ filename ++ value) s)

load_user_from_disk-use_virtual_memory_example :
    (s' : Store) × (use_virtual_memory one_chunk two_users ≡ ok s')
    × (load_user_from_disk noting virtual_memory ann s'
        ≡ restored noting ann
            ((note, milk) ∷ [])
            (record s' { virmem_meta = erase ann s'.virmem_meta }))
unfolding format_row value_size lookup has
load_user_from_disk-use_virtual_memory_example =
    load_user_from_disk-use_virtual_memory one_chunk noting two_users 2 4 (3 ∷ []) two_users-IsList
      (ground arith) (ground arith) refl refl (ground arith) (ground arith) (refl, refl, tt)

abbrev two_writes : List Write
two_writes =
    record { user = ann; filename = note; value = milk }
    ∷ record { user = ann; filename = milk; value = note }
    ∷ []

abbrev logged : Store
logged = record empty_store { log = log_text two_writes }

replay_log-stored_example : replay_log one_chunk 9 logged ≡ stored one_chunk 9 two_writes logged
unfolding has
replay_log-stored_example =
    replay_log-stored one_chunk 9 two_writes logged
      ((refl, refl, refl, refl, refl), ((refl, refl, refl, refl, refl), tt)) refl

put_old_example :
    (s' : Store) × (put one_chunk 1 ann note (codes "eggs") (pos 7) true (pos 0) two_users ≡ ok s')
    × (s'.tablets ≡ two_users.tablets)
    × (files_of 2 s' ≡ (note, codes "milkeggs") ∷ [])
    × (s'.memory_used ≡ pos 8)
    × (lookup ann s'.user_size ≡ some (pos 8))
    × (s'.sent ≡ (pos 7, Reply.value_stored) ∷ [])
unfolding lookup insert
put_old_example =
    put_old one_chunk 0 ann note (codes "eggs") (pos 7) (pos 0) two_users 2 3 4 4 refl refl refl
      refl (ground arith) (ground arith) (ground arith) (ground arith) refl
