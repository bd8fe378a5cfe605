-- ===== src/Kv/Commands/Replicas.antt =====
-- Replication between a primary and its secondary: kvstore/chunkserver.cc and kvstore/kvstore.cc.
-- A message is held by the primary until the secondary reports its number.
use cis505_penn_cloud.Prelude.{
  All-append, ℕ, zero, suc, ◌≡◌, refl, ◌∙◌, ap, true, false, List, [], ◌∷◌, ◌++◌, arith, All,
  if◌then◌else◌, drop, Bool-cases, inl, inr, append_assoc,
}
use cis505_penn_cloud.Prelude.Int.{ℤ, pos, negsuc, ◌≤ℤ◌}
use cis505_penn_cloud.Prelude.Ordered.{bytes_ordered, int_ordered, same, same_iff, same_refl}
use cis505_penn_cloud.Prelude.Text.{
  Bytes, crlf, has, fields, cut-append, fields-append, fields_rest, has-append,
}
use cis505_penn_cloud.Prelude.Decimal.{
  print_int, in_int, has-print_int, atoi-print_int, stoi-print_int_then,
}
use cis505_penn_cloud.StdMap.{StdMap, insert, erase, lookup_or, lookup-insert, lookup-erase}
use cis505_penn_cloud.Kv.Outcome.{ok, ◌>>=◌}
use cis505_penn_cloud.Kv.Store.{MsgPair, Store}
use cis505_penn_cloud.Kv.Cache.Reply
use cis505_penn_cloud.Kv.Ops.{is_empty}
use cis505_penn_cloud.Kv.Commands.{next_int, send_to_secondary}
use cis505_penn_cloud.Kv.Worker.{
  parse_command, without_sq, release, report_of, handle_secondary_report, follow, ps_round,
}

-- The number that the next message of a user gets.
abbrev pub next_number : Bytes → Store → ℤ
next_number user s = next_int (lookup_or (pos 0) user s.seq_num_records)

abbrev pub held_for : Bytes → Store → List MsgPair
held_for user s = lookup_or [] user s.primary_holdback

-- No message that is held for a user has a number above the last one given out.
abbrev pub IsNumbered : Bytes → Store → Type 0
IsNumbered user s = All (λ p. p.sq ≤ℤ lookup_or (pos 0) user s.seq_num_records) (held_for user s)

-- What the primary sends for an operation, the secondary takes apart again: it carries out the
-- command of the very line, with the number that the primary has given to it.
pub send_to_secondary-ps_round :
    (float_ceil : ℕ → ℕ) (fuel : ℕ) (line user : Bytes) (fd : ℤ) (s t : Store)
    → (msg : Bytes) × ((send_to_secondary line user s).sent ≡ s.sent ++ (s.secondary_fd, msg) ∷ [])
      × (ps_round float_ceil fuel msg fd t ≡ (
          parse_command line >>= λ command.
          follow float_ceil fuel command line fd (next_number user s) t))
unfolding send_to_secondary ps_round
send_to_secondary-ps_round float_ceil fuel line user fd s t =
    let n = next_number user s in
    (
      print_int n ++ b',' ∷ line,
      refl,
      rw (
        cut-append b',' (print_int n) line (has-print_int b',' n refl (ground arith)),
        atoi-print_int,
        ps_round,
      ),
    )

≤-next_int : (z w : ℤ) → z ≤ℤ w → z ≤ℤ next_int w
≤-next_int z (pos n) h = omega arith
≤-next_int z (negsuc zero) h = omega arith
≤-next_int z (negsuc (suc n)) h = omega arith

next_int_not : (z w : ℤ) → z ≤ℤ w → same z (next_int w) ≡ false
next_int_not z (pos n) h = ground arith
next_int_not z (negsuc zero) h = ground arith
next_int_not z (negsuc (suc n)) h = ground arith

All-next_int :
    (w : ℤ) (ps : List MsgPair) → All (λ p. p.sq ≤ℤ w) ps → All (λ p. p.sq ≤ℤ next_int w) ps
All-next_int w [] h = tt
All-next_int w (p ∷ ps) h = (≤-next_int p.sq w h.0, All-next_int w ps h.1)

-- The numbers of a user rise, so that the new message is the only one of its number.
without_sq_last :
    (w : ℤ) (msg : Bytes) (ps : List MsgPair)
    → All (λ p. p.sq ≤ℤ w) ps
    → without_sq (next_int w) (ps ++ record { sq = next_int w; msg = msg } ∷ []) ≡ ps
unfolding without_sq
without_sq_last w msg [] h = ground (arith, same_refl (next_int w))
without_sq_last w msg (p ∷ ps) h =
    ground (arith, next_int_not p.sq w h.0, without_sq_last w msg ps h.1)

number_sent :
    (line user other : Bytes) (s : Store)
    → lookup_or (pos 0) other (send_to_secondary line user s).seq_num_records
      ≡ (if same user other then next_number user s else lookup_or (pos 0) other s.seq_num_records)
unfolding send_to_secondary
number_sent line user other s =
    ground (arith, lookup-insert user other (next_number user s) s.seq_num_records)

held_sent :
    (line user other : Bytes) (s : Store)
    → held_for other (send_to_secondary line user s) ≡ (
        if same user other
        then held_for user s ++ record { sq = next_number user s; msg = line } ∷ []
        else held_for other s)
unfolding send_to_secondary
held_sent line user other s = ground (
  arith,
  lookup-insert user other (held_for user s ++ record { sq = next_number user s; msg = line } ∷ [])
      s.primary_holdback,
)

-- What `handle_secondary_report` makes of the messages.
abbrev after_report :
    Bytes → List MsgPair → StdMap Bytes (List MsgPair) → StdMap Bytes (List MsgPair)
after_report user left m = if is_empty left then erase user m else insert user left m

held_after_report :
    (user other : Bytes) (left : List MsgPair) (m : StdMap Bytes (List MsgPair))
    → lookup_or [] other (after_report user left m)
      ≡ (if same user other then left else lookup_or [] other m)
held_after_report user other [] m = ground (arith, lookup-erase user other m)
held_after_report user other (p ∷ ps) m = ground (arith, lookup-insert user other (p ∷ ps) m)

-- A report names its user and its number.
report_fields :
    (user : Bytes) (z : ℤ)
    → has b',' user ≡ false
    → fields b',' (drop 5 (Reply.done user z)) ≡ (user ∷ [], print_int z ++ crlf)
unfolding has
report_fields user z h =
    let no_comma : has b',' (print_int z ++ crlf) ≡ false =
      ground
        (arith, has-append b',' (print_int z) crlf, has-print_int b',' z refl (ground arith)) in
    let e : drop 5 (Reply.done user z) ≡ user ++ b',' ∷ (print_int z ++ crlf) =
      append_assoc user (b',' ∷ print_int z) crlf in
    ap (fields b',') e
    ∙ fields-append b',' user (print_int z ++ crlf) h
    ∙ ap (λ f. (user ∷ f.0, f.1)) (fields_rest b',' (print_int z ++ crlf) no_comma)

report_releases :
    (user : Bytes) (z : ℤ) (s : Store)
    → has b',' user ≡ false
    → in_int z ≡ true
    → handle_secondary_report (Reply.done user z) s ≡ ok (release user z s)
unfolding handle_secondary_report
report_releases user z s comma small =
    ap (report_of s) (report_fields user z comma)
    ∙ rw (stoi-print_int_then z crlf small refl, report_of) refl

-- A primary that has sent an operation to its secondary holds it, and the secondary's report of
-- that operation releases it and nothing else: every user's held messages are those before the
-- operation. The user's name has no comma, and the number is an `int`.
pub handle_secondary_report-send_to_secondary :
    (line user other : Bytes) (s : Store)
    → has b',' user ≡ false
    → in_int (next_number user s) ≡ true
    → IsNumbered user s
    → let sent = send_to_secondary line user s in
      (held_for user sent ≡ held_for user s ++ record { sq = next_number user s; msg = line } ∷ [])
      × ((s' : Store) × (handle_secondary_report (Reply.done user (next_number user s)) sent
            ≡ ok s')
          × (held_for other s' ≡ held_for other s))
unfolding release
handle_secondary_report-send_to_secondary line user other s comma small numbered =
    let z = next_number user s in
    let sent = send_to_secondary line user s in
    let left = without_sq z (held_for user sent) in
    let held = held_sent line user user s in
    let here : held_for user sent ≡ held_for user s ++ record { sq = z; msg = line } ∷ [] =
      ground (arith, held, same_refl user) in
    let kept : left ≡ held_for user s =
      ap (without_sq z) here ∙ without_sq_last _ line (held_for user s) numbered in
    (
      here,
      (
        release user z sent,
        report_releases user z sent comma small,
        ground (
          arith,
          held_after_report user other left sent.primary_holdback,
          held_sent line user other s,
          same_iff user other,
          kept,
        ),
      ),
    )

-- Sending an operation keeps the numbers of every user's held messages below the last one that was
-- given out.
pub send_to_secondary-IsNumbered :
    (line user other : Bytes) (s : Store)
    → IsNumbered user s
    → IsNumbered other s
    → IsNumbered other (send_to_secondary line user s)
send_to_secondary-IsNumbered line user other s hu ho =
    let w = lookup_or (pos 0) user s.seq_num_records in
    let new : MsgPair = record { sq = next_number user s; msg = line } in
    rw (number_sent line user other s, held_sent line user other s)
      (elim (Bool-cases (same user other)) [
        | inl eq ↦ rw eq (
            All-append (λ p. p.sq ≤ℤ next_number user s) (held_for user s) (new ∷ [])
              (All-next_int w (held_for user s) hu) (omega arith, tt))
        | inr ne ↦ rw ne ho
      ])
