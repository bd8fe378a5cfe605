-- ===== src/Tests/OnReplicas.antt =====
-- Runs of the replication and of the metadata of a storage node.
use cis505_penn_cloud.Prelude.{◌≡◌, refl, List, [], ◌∷◌, ◌++◌, arith}
use cis505_penn_cloud.Prelude.Int.{pos}
use cis505_penn_cloud.Prelude.Ordered.{bytes_ordered}
use cis505_penn_cloud.Prelude.Text.{Bytes, codes, crlf, has}
use cis505_penn_cloud.StdMap.{lookup, lookup_or}
use cis505_penn_cloud.Kv.Outcome.{ok, ◌>>=◌}
use cis505_penn_cloud.Kv.Store.{virtual_memory, Extent, Store}
use cis505_penn_cloud.Kv.Cache.Reply
use cis505_penn_cloud.Kv.Commands.{send_to_secondary}
use cis505_penn_cloud.Kv.Commands.Replicas.{
  held_for, send_to_secondary-ps_round, handle_secondary_report-send_to_secondary,
}
use cis505_penn_cloud.Kv.Worker.{parse_command, follow, ps_round, handle_secondary_report}
use cis505_penn_cloud.Kv.Meta.{write_meta, load_cp_vm_meta, meta_path}
use cis505_penn_cloud.Kv.Meta.RoundTrip.{load_cp_vm_meta-write_meta}
use cis505_penn_cloud.Tests.OnDisk.{empty_store, one_chunk}
use cis505_penn_cloud.Tests.OnNodes.{ann, bob}

abbrev line : Bytes
line = codes "put ann,note,milk" ++ crlf

send_to_secondary-ps_round_example :
    (msg : Bytes) × ((send_to_secondary line ann empty_store).sent ≡ (pos 9, msg) ∷ [])
    × (ps_round one_chunk 5 msg (pos 4) empty_store ≡ (
        parse_command line >>= λ command.
        follow one_chunk 5 command line (pos 4) (pos 1) empty_store))
unfolding lookup
send_to_secondary-ps_round_example =
    send_to_secondary-ps_round one_chunk 5 line ann (pos 4) empty_store empty_store

-- One message is held already.
abbrev holding : Store
holding = record empty_store {
  seq_num_records = (ann, pos 1) ∷ [];
  primary_holdback = (ann, record { sq = pos 1; msg = line } ∷ []) ∷ [];
}

handle_secondary_report-send_to_secondary_example :
    (held_for ann (send_to_secondary line ann holding)
      ≡ record { sq = pos 1; msg = line } ∷ record { sq = pos 2; msg = line } ∷ [])
    × ((s' : Store) × (handle_secondary_report
            (Reply.done ann (pos 2))
            (send_to_secondary line ann holding)
          ≡ ok s')
        × (held_for ann s' ≡ record { sq = pos 1; msg = line } ∷ []))
unfolding lookup has
handle_secondary_report-send_to_secondary_example =
    handle_secondary_report-send_to_secondary line ann ann holding refl refl (ground arith)

abbrev two_extents : List Extent
two_extents =
    record { chunk = 0; start = 0; len = 12 } ∷ record { chunk = 1; start = 30; len = 5 } ∷ []

abbrev on_disk : Store
on_disk = record empty_store { virmem_meta = (ann, two_extents) ∷ (bob, two_extents) ∷ [] }

abbrev restarted : Store
restarted = record empty_store { files = (write_meta virtual_memory on_disk).files }

load_cp_vm_meta-write_meta_example :
    (t' : Store) × (load_cp_vm_meta (meta_path virtual_memory) virtual_memory restarted ≡ ok t')
    × (lookup_or [] bob t'.virmem_meta ≡ two_extents)
unfolding lookup has
load_cp_vm_meta-write_meta_example =
    load_cp_vm_meta-write_meta virtual_memory bob on_disk restarted refl (ground arith)
      (ground arith) refl refl
