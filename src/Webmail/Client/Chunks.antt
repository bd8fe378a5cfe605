-- ===== src/Webmail/Client/Chunks.antt =====
-- That the buffered reader of webmail/webmail_utils.cc does not depend on how a text arrives.
use cis505_penn_cloud.Prelude.{
  ℕ, ◌+◌, ◌-◌, ◌<◌, ◌≡◌, refl, sym, ap, ◌∙◌, ◌≢◌, inl, inr, true, false, Bool-cases, none, some,
  List, [], ◌∷◌, ◌++◌, arith, ◌==◌, leb, length, take, drop, length-append, append_assoc,
  take-append-drop, length-drop,
}
use cis505_penn_cloud.Prelude.Text.{Bytes, cut, has}
use cis505_penn_cloud.Kv.Outcome.{ok}
use cis505_penn_cloud.Kv.Ops.{is_empty}
use cis505_penn_cloud.Webmail.Client.{Arrival, some_bytes, pause, remainder, fill_line}

abbrev pub all_bytes : List Arrival → Bytes
all_bytes [] = []
all_bytes (pause ∷ arrivals) = all_bytes arrivals
all_bytes (some_bytes bytes ∷ arrivals) = bytes ++ all_bytes arrivals

-- Every arrival brings a byte or is a pause.
abbrev pub IsLive : List Arrival → Type 0
IsLive [] = Unit
IsLive (pause ∷ arrivals) = IsLive arrivals
IsLive (some_bytes bytes ∷ arrivals) = (is_empty bytes ≡ false) × IsLive arrivals

-- A front of a text holds its first line, or is a front of it.
data Front (buffer more t r : Bytes) : Type 0 where
  whole : (rest : Bytes) → cut 10 buffer ≡ some (t, rest) → rest ++ more ≡ r → Front buffer more t r
  partial :
      (u : Bytes)
      → cut 10 buffer ≡ none
      → t ≡ buffer ++ u
      → more ≡ u ++ 10 ∷ r
      → Front buffer more t r

front_cons :
    (c : ℕ) (buffer more t r : Bytes)
    → (c == 10) ≡ false
    → Front buffer more t r
    → Front (c ∷ buffer) more (c ∷ t) r
unfolding cut
front_cons c buffer more t r h (whole rest e k) = whole rest (rw (h, e) refl) k
front_cons c buffer more t r h (partial u e k m) = partial u (rw (h, e) refl) (ap (λ l. c ∷ l) k) m

front :
    (buffer more t r : Bytes)
    → buffer ++ more ≡ t ++ 10 ∷ r
    → has 10 t ≡ false
    → Front buffer more t r
unfolding has cut
front [] more t r e h = partial t refl refl e
front (c ∷ buffer) more [] r e h = let e0 : c ≡ 10 = cc in whole buffer (rw e0 refl) (cc)
front (c ∷ buffer) more (d ∷ t) r e h =
    let e0 : d ≡ c = cc in
    let later = front buffer more t r (cc) (ground arith) in
    rw e0 (front_cons c buffer more t r (ground arith) later)

-- A line that was read, and the bytes that are left.
abbrev Reads : ℕ → Bytes → List Arrival → Bytes → Bytes → Type 0
Reads size buffer arrivals t r =
    (rest : Bytes) × (left : List Arrival) × (fill_line size buffer arrivals ≡ ok (t, rest, left))
    × (rest ++ all_bytes left ≡ r)

whole-Reads :
    (size : ℕ) (buffer : Bytes) (arrivals : List Arrival) (t r rest : Bytes)
    → cut 10 buffer ≡ some (t, rest)
    → rest ++ all_bytes arrivals ≡ r
    → Reads size buffer arrivals t r
unfolding fill_line
whole-Reads size buffer [] t r rest e k = (rest, [], ground (arith, e), k)
whole-Reads size buffer (pause ∷ arrivals) t r rest e k =
    (rest, pause ∷ arrivals, ground (arith, e), k)
whole-Reads size buffer (some_bytes bytes ∷ arrivals) t r rest e k =
    (rest, some_bytes bytes ∷ arrivals, ground (arith, e), k)

empty_lem : (s : Bytes) → is_empty s ≡ true → s ≡ []
empty_lem [] h = refl
empty_lem (c ∷ s) h = cc

all_bytes-remainder :
    (room : ℕ) (bytes : Bytes) (arrivals : List Arrival)
    → all_bytes (remainder room bytes arrivals) ≡ drop room bytes ++ all_bytes arrivals
all_bytes-remainder room bytes arrivals = elim (Bool-cases (is_empty (drop room bytes))) [
  | inl gone ↦ rw (gone, empty_lem (drop room bytes) gone) refl
  | inr more ↦ rw more refl
]

length_pos : (s : Bytes) → is_empty s ≡ false → 0 < length s
length_pos [] h = cc
length_pos (c ∷ s) h = omega arith

append_front_ne : (u r : Bytes) → [] ≢ u ++ 10 ∷ r
append_front_ne [] r e = cc
append_front_ne (c ∷ u) r e = cc

-- A front of the line is shorter than the buffer.
room_left :
    (size : ℕ) (buffer t u : Bytes) → t ≡ buffer ++ u → length t < size → length buffer < size
room_left size buffer t u e l = omega (arith, ap length e, length-append {0} buffer u)

step_end : (size : ℕ) (buffer t r : Bytes) → Front buffer [] t r → Reads size buffer [] t r
step_end size buffer t r (whole rest e k) = whole-Reads size buffer [] t r rest e k
step_end size buffer t r (partial u e split m) = absurd (append_front_ne u r m)

step_pause :
    (size : ℕ) (buffer : Bytes) (arrivals : List Arrival) (t r : Bytes)
    → length t < size
    → Front buffer (all_bytes arrivals) t r
    → Reads size buffer arrivals t r
    → Reads size buffer (pause ∷ arrivals) t r
unfolding fill_line
step_pause size buffer arrivals t r l (whole rest e k) later =
    whole-Reads size buffer (pause ∷ arrivals) t r rest e k
step_pause size buffer arrivals t r l (partial u e split m) (rest, left, ran, k) =
    let room : leb size (length buffer) ≡ false =
      ground (arith, room_left size buffer t u split l) in
    (rest, left, ground (arith, e, room, ran), k)

module _ (size : ℕ) (buffer bytes : Bytes) (arrivals : List Arrival) (t r : Bytes) where
  abbrev room : ℕ
  room = size - length buffer

  abbrev more_buffer : Bytes
  more_buffer = buffer ++ take room bytes

  read_all :
      length buffer < size
      → cut 10 buffer ≡ none
      → is_empty bytes ≡ false
      → is_empty (drop room bytes) ≡ true
      → Reads size more_buffer arrivals t r
      → Reads size buffer (some_bytes bytes ∷ arrivals) t r
  unfolding fill_line
  read_all l e live all (rest, left, ran, k) =
      let free : leb size (length buffer) ≡ false = ground (arith, l) in
      (rest, left, ground (arith, e, free, live, all, ran), k)

  read_full :
      length buffer < size
      → cut 10 buffer ≡ none
      → is_empty bytes ≡ false
      → is_empty (drop room bytes) ≡ false
      → length t < size
      → Front more_buffer (drop room bytes ++ all_bytes arrivals) t r
      → Reads size buffer (some_bytes bytes ∷ arrivals) t r
  unfolding fill_line
  read_full l e live all n (whole rest f k) =
      let free : leb size (length buffer) ≡ false = ground (arith, l) in
      (
        rest,
        remainder room bytes arrivals,
        ground (arith, e, free, live, all, f),
        ap (λ s. rest ++ s) (all_bytes-remainder room bytes arrivals) ∙ k,
      )
  read_full l e live all n (partial u f split m) =
      let whole_length : length bytes ≡ length (take room bytes) + length (drop room bytes) =
        sym (ap length (take-append-drop room bytes))
        ∙ length-append (take room bytes) (drop room bytes) in
      absurd (
        omega (
          arith,
          ap length split,
          length-append {0} more_buffer u,
          length-append {0} buffer (take room bytes),
          whole_length,
          length-drop {0} room bytes,
          length_pos (drop room bytes) all,
        ))

-- Whether all the bytes that have arrived fit into the buffer.
step_bytes :
    (size : ℕ) (buffer bytes : Bytes) (arrivals : List Arrival) (t r : Bytes)
    → buffer ++ (bytes ++ all_bytes arrivals) ≡ t ++ 10 ∷ r
    → has 10 t ≡ false
    → length t < size
    → is_empty bytes ≡ false
    → Front buffer (bytes ++ all_bytes arrivals) t r
    → ((longer : Bytes)
        → longer ++ all_bytes arrivals ≡ t ++ 10 ∷ r
        → Reads size longer arrivals t r)
    → Reads size buffer (some_bytes bytes ∷ arrivals) t r
step_bytes size buffer bytes arrivals t r e h n live (whole rest f k) later =
    whole-Reads size buffer (some_bytes bytes ∷ arrivals) t r rest f k
step_bytes size buffer bytes arrivals t r e h n live (partial u f split m) later =
    let l = room_left size buffer t u split n in
    let some_room = size - length buffer in
    let taken = take some_room bytes in
    let regroup : (buffer ++ taken) ++ (drop some_room bytes ++ all_bytes arrivals) ≡ t ++ 10 ∷ r =
      append_assoc buffer taken _
      ∙ ap (λ s. buffer ++ s) (sym (append_assoc taken (drop some_room bytes) (all_bytes arrivals)))
      ∙ ap (λ s. buffer ++ (s ++ all_bytes arrivals)) (take-append-drop some_room bytes)
      ∙ e in
    elim (Bool-cases (is_empty (drop some_room bytes))) [
      | inl all ↦ read_all size buffer bytes arrivals t r l f live all (
          later (buffer ++ taken) (
            ap (λ s. (buffer ++ taken) ++ (s ++ all_bytes arrivals))
              (sym (empty_lem (drop some_room bytes) all))
            ∙ regroup))
      | inr all ↦
          read_full size buffer bytes arrivals t r l f live all n
            (front (buffer ++ taken) (drop some_room bytes ++ all_bytes arrivals) t r regroup h)
    ]

-- However a line and what follows it are cut into pieces as they arrive, with pauses between them, the
-- reader gives the same line, and what it leaves in the buffer and to come is what follows the line.
-- The line is shorter than the buffer, and no piece is empty.
pub fill_line-chunks :
    (size : ℕ) (buffer : Bytes) (arrivals : List Arrival) (t r : Bytes)
    → buffer ++ all_bytes arrivals ≡ t ++ 10 ∷ r
    → has 10 t ≡ false
    → length t < size
    → IsLive arrivals
    → (rest : Bytes) × (left : List Arrival) × (fill_line size buffer arrivals ≡ ok (t, rest, left))
      × (rest ++ all_bytes left ≡ r)
fill_line-chunks size buffer [] t r e h n live = step_end size buffer t r (front buffer [] t r e h)
fill_line-chunks size buffer (pause ∷ arrivals) t r e h n live =
    step_pause size buffer arrivals t r n (front buffer (all_bytes arrivals) t r e h)
      (fill_line-chunks size buffer arrivals t r e h n live)
fill_line-chunks size buffer (some_bytes bytes ∷ arrivals) t r e h n live =
    step_bytes size buffer bytes arrivals t r e h n live.0
      (front buffer (bytes ++ all_bytes arrivals) t r e h)
      (λ longer e'. fill_line-chunks size longer arrivals t r e' h n live.1)
