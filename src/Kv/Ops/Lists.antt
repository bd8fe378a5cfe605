-- ===== src/Kv/Ops/Lists.antt =====
-- `getlist` and `getfile` of kvstore/lrucache.cc for a user in memory.
use cis505_penn_cloud.Prelude.{
  ℕ, ◌+◌, ◌≡◌, refl, sym, ap, ◌∙◌, Bool, true, false, ◌&&◌, ◌||◌, not, some, none, List, [], ◌∷◌,
  ◌++◌, All, ◌==◌, if◌then◌else◌, Bool-cases, inl, inr, append_assoc, append-nil,
}
use cis505_penn_cloud.Prelude.Int.{ℤ}
use cis505_penn_cloud.Prelude.Ordered.{bytes_ordered, same}
use cis505_penn_cloud.Prelude.Text.{Bytes, codes}
use cis505_penn_cloud.StdMap.{StdMap, lookup, contains}
use cis505_penn_cloud.Kv.Outcome.{Outcome, ok, ◌>>=◌}
use cis505_penn_cloud.Kv.Nodes.{Heap}
use cis505_penn_cloud.Kv.Nodes.Chain.{Avoids}
use cis505_penn_cloud.Kv.Nodes.Relink.{IsList, relink, relink-IsList}
use cis505_penn_cloud.Kv.Store.{Store, send}
use cis505_penn_cloud.Kv.Cache.{node_of, files_of}
use cis505_penn_cloud.Kv.Cache.Reply
use cis505_penn_cloud.Kv.Ops.{is_email, with_value, list_loop, getlist}
use cis505_penn_cloud.Kv.Ops.Hits.{with_nodes, get_helper-hit, read_file_of_found}

abbrev pub sent_to : ℤ → List Bytes → List (ℤ × Bytes)
sent_to fd [] = []
sent_to fd (text ∷ texts) = (fd, text) ∷ sent_to fd texts

sent_to-append :
    (fd : ℤ) (ts us : List Bytes) → sent_to fd (ts ++ us) ≡ sent_to fd ts ++ sent_to fd us
sent_to-append fd [] us = refl
sent_to-append fd (t ∷ ts) us = ap (λ l. (fd, t) ∷ l) (sent_to-append fd ts us)

-- What is sent for the files that are wanted: the line that opens the list comes with the first file
-- of the user only.
abbrev pub texts_of : ℕ → Bytes → List Bytes
texts_of counter text = if counter == 0 then Reply.list_follows ∷ text ∷ [] else text ∷ []

abbrev pub listed : (Bytes → Bool) → (Bytes → Bytes → Bytes) → ℕ → StdMap Bytes Bytes → List Bytes
listed wanted line counter [] = []
listed wanted line counter ((filename, value) ∷ m) =
    let rest = listed wanted line (counter + 1) m in
    if wanted filename then texts_of counter (line filename value) ++ rest else rest

abbrev pub sends : ℤ → List Bytes → Store → Store
sends fd texts s = record s { sent = s.sent ++ sent_to fd texts }

-- What is read of a user's file in a round, and what is then sent.
send_texts :
    (counter : ℕ) (fd : ℤ) (text : Bytes) (s : Store)
    → send fd text (if counter == 0 then send fd Reply.list_follows s else s)
      ≡ sends fd (texts_of counter text) s
send_texts counter fd text s = elim (Bool-cases (counter == 0)) [
  | inl first ↦ rw first (ap (λ l. record s { sent = l }) (append_assoc s.sent _ _))
  | inr later ↦ rw later refl
]

-- The files that a type names, and what is sent for one of them.
abbrev pub is_listed : Bytes → Bytes → Bool
is_listed type filename =
    (same type (codes "email") && is_email filename)
    || (same type (codes "file") && not (is_email filename))

abbrev pub item_text : Bytes → Bytes → Bytes
item_text filename value = filename ++ b',' ∷ value ++ b',' ∷ []

abbrev pub AllIn : StdMap Bytes Bytes → StdMap Bytes Bytes → Type 0
AllIn m files = All (λ p. lookup p.0 files ≡ some p.1) m

module _ (float_ceil : ℕ → ℕ) (fuel : ℕ) (user : Bytes) (fd : ℤ) (n : ℕ) where
  with_value-hit :
      (filename value : Bytes) (f : Bytes → Store → Outcome Store) (s : Store) (h : Heap)
      → lookup user s.tablets ≡ some n
      → lookup user s.virmem_meta ≡ none
      → relink n s.nodes ≡ ok h
      → h.value ≡ s.nodes.value
      → lookup filename (files_of n s) ≡ some value
      → with_value float_ceil fuel user filename fd f s ≡ f value (with_nodes h s)
  with_value-hit filename value f s h here not_there moved values found =
      let still : lookup filename (files_of n (with_nodes h s)) ≡ some value =
        ap (λ v. lookup filename (v n)) values ∙ found in
      let read =
        get_helper-hit float_ceil fuel user filename fd s n h here not_there moved
        ∙ ap ok (read_file_of_found n filename value fd (with_nodes h s) still) in
      rw (read, with_value) refl

  -- One round: a file that is wanted is read and sent, and the user's node goes to the end of the list.
  round_wanted :
      (wanted : Bytes → Bool) (line : Bytes → Bytes → Bytes) (counter : ℕ) (filename value : Bytes)
      (m : StdMap Bytes Bytes) (s : Store) (h : Heap)
      → lookup user s.tablets ≡ some n
      → lookup user s.virmem_meta ≡ none
      → relink n s.nodes ≡ ok h
      → h.value ≡ s.nodes.value
      → lookup filename (files_of n s) ≡ some value
      → wanted filename ≡ true
      → list_loop float_ceil fuel wanted line user fd counter ((filename, value) ∷ m) s
        ≡ list_loop float_ceil fuel wanted line user fd
            (counter + 1)
            m
            (sends fd (texts_of counter (line filename value)) (with_nodes h s))
  unfolding list_loop
  round_wanted wanted line counter filename value m s h here not_there moved values found w =
      let read =
        with_value-hit filename value
          (λ v s'.
            let s1 = if counter == 0 then send fd Reply.list_follows s' else s' in
            ok (send fd (line filename v) s1))
          s h here not_there moved values found
        ∙ ap ok (send_texts counter fd (line filename value) (with_nodes h s)) in
      rw w
        (ap (λ o. o >>= λ t. list_loop float_ceil fuel wanted line user fd (counter + 1) m t) read)

  round_passed :
      (wanted : Bytes → Bool) (line : Bytes → Bytes → Bytes) (counter : ℕ) (filename value : Bytes)
      (m : StdMap Bytes Bytes) (s : Store)
      → wanted filename ≡ false
      → list_loop float_ceil fuel wanted line user fd counter ((filename, value) ∷ m) s
        ≡ list_loop float_ceil fuel wanted line user fd (counter + 1) m s
  unfolding list_loop
  round_passed wanted line counter filename value m s w = rw w refl

  Avoids-append : (xs ys : List ℕ) → Avoids n xs → Avoids n ys → Avoids n (xs ++ ys)
  Avoids-append [] ys vx vy = vy
  Avoids-append (x ∷ xs) ys vx vy = (vx.0, Avoids-append xs ys vx.1 vy)

  list_loop-listed :
      (wanted : Bytes → Bool) (line : Bytes → Bytes → Bytes) (counter : ℕ) (m : StdMap Bytes Bytes)
      (s : Store) (xs ys : List ℕ)
      → lookup user s.tablets ≡ some n
      → lookup user s.virmem_meta ≡ none
      → Avoids n xs
      → Avoids n ys
      → IsList s.nodes (xs ++ n ∷ ys)
      → AllIn m (files_of n s)
      → (h : Heap) × (list_loop float_ceil fuel wanted line user fd counter m s
          ≡ ok (sends fd (listed wanted line counter m) (with_nodes h s)))
        × (h.value ≡ s.nodes.value)
  unfolding list_loop
  list_loop-listed wanted line counter [] s xs ys here not_there vx vy list all =
      (s.nodes, ap (λ l. ok (record s { sent = l })) (sym (append-nil s.sent)), refl)
  list_loop-listed wanted line counter ((filename, value) ∷ m) s xs ys here not_there vx vy list
        all =
      elim (Bool-cases (wanted filename)) [
        | inr passed ↦
            let (h, ran, values) =
              list_loop-listed wanted line (counter + 1) m s xs ys here not_there vx vy list
                all.1 in
            (h, round_passed wanted line counter filename value m s passed ∙ rw passed ran, values)
        | inl w ↦
            let (h1, moved, after, kept, keys) = relink-IsList n s.nodes xs ys vx vy list in
            let texts = texts_of counter (line filename value) in
            let s2 = sends fd texts (with_nodes h1 s) in
            let later : AllIn m (files_of n s2) = rw (kept, files_of) all.1 in
            let (h, ran, values) =
              list_loop-listed wanted line (counter + 1) m s2 (xs ++ ys) [] here not_there
                (Avoids-append xs ys vx vy) tt after later in
            let rest = listed wanted line (counter + 1) m in
            let all_sent : (s.sent ++ sent_to fd texts) ++ sent_to fd rest
                ≡ s.sent ++ sent_to fd (texts ++ rest) =
              append_assoc s.sent (sent_to fd texts) (sent_to fd rest)
              ∙ ap (λ l. s.sent ++ l) (sym (sent_to-append fd texts rest)) in
            (
              h,
              round_wanted wanted line counter filename value m s h1 here not_there moved kept all.0
                    w
                  ∙ ran
                  ∙ rw w (ap (λ l. ok (record s { nodes = h; sent = l })) all_sent),
              values ∙ kept,
            )
      ]

  -- A listing of a user in memory sends the wanted files, each with its value, in the order of their
  -- names, and changes no file, tablet or count. The line that opens the list is sent only where the
  -- first of all files is wanted. Each name stands once in the user's map.
  pub getlist-listed :
      (type : Bytes) (s : Store) (xs ys : List ℕ)
      → lookup user s.tablets ≡ some n
      → lookup user s.virmem_meta ≡ none
      → Avoids n xs
      → Avoids n ys
      → IsList s.nodes (xs ++ n ∷ ys)
      → AllIn (files_of n s) (files_of n s)
      → (h : Heap) × (getlist float_ceil fuel user type fd s
          ≡ ok (sends fd (listed (is_listed type) item_text 0 (files_of n s)) (with_nodes h s)))
        × (h.value ≡ s.nodes.value)
  unfolding getlist
  getlist-listed type s xs ys here not_there vx vy list all =
      let there : contains user s.tablets ≡ true = rw (here, contains) refl in
      let (h, ran, values) =
        list_loop-listed (is_listed type) item_text 0 (files_of n s) s xs ys here not_there vx vy
          list all in
      (h, rw (there, here, node_of) ran, values)
