-- ===== src/Kv/Ops/PutGet.antt =====
-- A `put` and the `get` that follows, in kvstore/lrucache.cc.
use cis505_penn_cloud.Prelude.{
  ℕ, suc, ◌+◌, ◌≤◌, ◌<◌, ◌^◌, ◌≡◌, ap, ◌∙◌, ◌≢◌, true, false, none, some, List, [], ◌∷◌, ◌++◌,
  arith, length,
}
use cis505_penn_cloud.Prelude.Int.{ℤ, pos}
use cis505_penn_cloud.Prelude.Ordered.{bytes_ordered, same_refl}
use cis505_penn_cloud.Prelude.Text.{Bytes}
use cis505_penn_cloud.StdMap.{lookup, lookup-insert_self}
use cis505_penn_cloud.Kv.Outcome.{ok}
use cis505_penn_cloud.Kv.Nodes.{head, tail}
use cis505_penn_cloud.Kv.Nodes.Chain.{Avoids}
use cis505_penn_cloud.Kv.Nodes.Relink.{IsList}
use cis505_penn_cloud.Kv.Store.{Store, send}
use cis505_penn_cloud.Kv.Cache.{put, reply_put, files_of}
use cis505_penn_cloud.Kv.Cache.Puts.{put_new}
use cis505_penn_cloud.Kv.Cache.Reply
use cis505_penn_cloud.Kv.Ops.{get}
use cis505_penn_cloud.Kv.Ops.Hits.{get_hit}

pub lookup_only : (filename value : Bytes) → lookup filename ((filename, value) ∷ []) ≡ some value
unfolding lookup
lookup_only filename value = ground (arith, same_refl filename)

-- What a client stores for an unknown user, where there is room, the next client reads back: the
-- `get` that follows the `put` sends the very value that was stored.
pub put-get :
    (float_ceil : ℕ → ℕ) (fuel more : ℕ) (user filename value : Bytes) (fd fd' seq_num : ℤ)
    (s : Store) (m : ℕ) (xs : List ℕ)
    → lookup user s.tablets ≡ none
    → lookup user s.virmem_meta ≡ none
    → lookup user s.user_size ≡ none
    → s.memory_used ≡ pos m
    → m + length value ≤ s.capacity
    → length value < s.capacity
    → s.capacity < 2 ^ 31
    → s.nodes.fresh ≢ head
    → s.nodes.fresh ≢ tail
    → Avoids s.nodes.fresh xs
    → IsList s.nodes xs
    → (s' : Store) × (s'' : Store) × (put float_ceil
          (suc fuel)
          user
          filename
          value
          fd
          true
          seq_num
          s
        ≡ ok s')
      × (get float_ceil more user filename fd' s' ≡ ok s'')
      × (s''.sent
          ≡ ((reply_put false fd user seq_num s).sent ++ (fd', Reply.value_follows) ∷ [])
            ++ (fd', value) ∷ [])
put-get float_ceil fuel more user filename value fd fd' seq_num s m xs ht hv hu used room below
      small nh nt v list =
    let n = s.nodes.fresh in
    let (s', ran, tablets, linked, only, memory, size, meta, files, sent) =
      put_new float_ceil fuel user filename value fd seq_num s m xs ht hv hu used room below small
        nh nt v list in
    let here : lookup user s'.tablets ≡ some n =
      ap (lookup user) tablets ∙ lookup-insert_self user n s.tablets in
    let not_disk : lookup user s'.virmem_meta ≡ none = ap (lookup user) meta ∙ hv in
    let found : lookup filename (files_of n s') ≡ some value =
      ap (lookup filename) only ∙ lookup_only filename value in
    let (h, read, after, values) =
      get_hit float_ceil more user filename value fd' s' n xs [] here not_disk found v tt linked in
    (
      s',
      send fd' value (send fd' Reply.value_follows (record s' { nodes = h })),
      ran,
      read,
      ap (λ l. (l ++ (fd', Reply.value_follows) ∷ []) ++ (fd', value) ∷ []) sent,
    )
