-- ===== src/Kv/Commands/Fetched.antt =====
-- What a storage node sends for a file that another client has put, by the lines of both clients.
use cis505_penn_cloud.Prelude.{
  ℕ, suc, ◌+◌, ◌≤◌, ◌<◌, ◌^◌, ◌≡◌, refl, ap, ◌∙◌, ◌≢◌, inl, inr, true, false, none, some, List, [],
  ◌∷◌, ◌++◌, length, Bool-cases, append_assoc,
}
use cis505_penn_cloud.Prelude.Int.{ℤ, pos}
use cis505_penn_cloud.Prelude.Ordered.{bytes_ordered}
use cis505_penn_cloud.Prelude.Text.{Bytes, has}
use cis505_penn_cloud.StdMap.{lookup, lookup-insert_self}
use cis505_penn_cloud.Kv.Outcome.{ok, ◌>>=◌}
use cis505_penn_cloud.Kv.Nodes.{head, tail}
use cis505_penn_cloud.Kv.Nodes.Chain.{Avoids}
use cis505_penn_cloud.Kv.Nodes.Relink.{IsList}
use cis505_penn_cloud.Kv.Store.{Store, send}
use cis505_penn_cloud.Kv.Cache.{files_of}
use cis505_penn_cloud.Kv.Cache.Puts.{put_new}
use cis505_penn_cloud.Kv.Cache.Reply
use cis505_penn_cloud.Kv.Commands.{record_write, recorded}
use cis505_penn_cloud.Kv.Commands.Lines.{put_text, get_text, turn_of, worker_round-commands}
use cis505_penn_cloud.Kv.Ops.Hits.{get_hit}
use cis505_penn_cloud.Kv.Ops.PutGet.{lookup_only}
use cis505_penn_cloud.Kv.Worker.{worker_round, done}

-- What is written to the log and sent on leaves the cache as it is.
record_write-cache :
    (line user : Bytes) (s : Store)
    → ((record_write true line user s).tablets ≡ s.tablets)
      × ((record_write true line user s).virmem_meta ≡ s.virmem_meta)
      × ((record_write true line user s).nodes ≡ s.nodes)
unfolding record_write
record_write-cache line user s = elim (Bool-cases s.is_primary) [
  | inl primary ↦ rw primary (refl, refl, refl)
  | inr secondary ↦ rw secondary (refl, refl, refl)
]

module _ (float_ceil : ℕ → ℕ) (fuel more : ℕ) where
  -- What one client puts for a user whom the node does not know, where there is room, another client
  -- is sent: the line that announces it, the value, and the line that ends the reply.
  pub worker_round-stored :
      (user filename value : Bytes) (fd fd' : ℤ) (s : Store) (m : ℕ) (xs : List ℕ)
      → has b',' user ≡ false
      → has b',' filename ≡ false
      → lookup user s.tablets ≡ none
      → lookup user s.virmem_meta ≡ none
      → lookup user s.user_size ≡ none
      → s.memory_used ≡ pos m
      → m + length value ≤ s.capacity
      → length value < s.capacity
      → s.capacity < 2 ^ 31
      → s.nodes.fresh ≢ head
      → s.nodes.fresh ≢ tail
      → Avoids s.nodes.fresh xs
      → IsList s.nodes xs
      → (s' : Store) × (s'' : Store) × (worker_round float_ceil
            (suc fuel)
            (put_text user filename value)
            fd
            s
          ≡ ok (turn_of fd s, s'))
        × (worker_round float_ceil more (get_text user filename) fd' s' ≡ ok (turn_of fd' s', s''))
        × (s''.sent ≡ s'.sent ++ (fd', Reply.value_follows) ∷ (fd', value) ∷ (fd', done) ∷ [])
  worker_round-stored user filename value fd fd' s m xs hu hf ht hv hz used room below small nh nt v
        list =
      let n = s.nodes.fresh in
      let line = put_text user filename value in
      let (s1, ran, tablets, linked, only, memory, size, meta, files, sent) =
        put_new float_ceil fuel user filename value fd (pos 0) s m xs ht hv hz used room below small
          nh nt v list in
      let kept = record_write-cache line user s1 in
      let s' = send fd done (record_write true line user s1) in
      let here : lookup user s'.tablets ≡ some n =
        ap (lookup user) (kept.0 ∙ tablets) ∙ lookup-insert_self user n s.tablets in
      let not_disk : lookup user s'.virmem_meta ≡ none = ap (lookup user) (kept.1 ∙ meta) ∙ hv in
      let found : lookup filename (files_of n s') ≡ some value =
        ap (λ h. lookup filename (h.value n)) kept.2
        ∙ ap (lookup filename) only
        ∙ lookup_only filename value in
      let chained : IsList s'.nodes (xs ++ n ∷ []) = rw kept.2 linked in
      let (h, read, after, values) =
        get_hit float_ceil more user filename value fd' s' n xs [] here not_disk found v tt
          chained in
      let s2 = send fd' value (send fd' Reply.value_follows (record s' { nodes = h })) in
      let first =
        (worker_round-commands float_ceil (suc fuel) user filename value fd s hu hf).0
        ∙ ap (λ o. recorded true line user o >>= λ t. ok (turn_of fd s, send fd done t)) ran in
      let second =
        (worker_round-commands float_ceil more user filename value fd' s' hu hf).1
        ∙ ap (λ o. o >>= λ t. ok (turn_of fd' s', send fd' done t)) read in
      let follows = (fd', Reply.value_follows) ∷ [] in
      let all_sent =
        ap (λ l. l ++ (fd', done) ∷ []) (append_assoc s'.sent follows ((fd', value) ∷ []))
        ∙ append_assoc s'.sent (follows ++ (fd', value) ∷ []) ((fd', done) ∷ []) in
      (s', send fd' done s2, first, second, all_sent)
