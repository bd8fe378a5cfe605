-- ===== src/Webmail/Send/Addresses.antt =====
-- The addresses in the lines of a mail, as `handle_send` of webmail/webmail_utils.cc takes them out.
use cis505_penn_cloud.Prelude.{
  ℕ, suc, ◌+◌, ◌<◌, ◌≡◌, refl, sym, ap, ◌∙◌, false, Option, none, some, [], ◌∷◌, ◌++◌, arith,
  length, length-append, append_assoc, take-length-append, take, drop,
}
use cis505_penn_cloud.Prelude.Positions.{
  index_from, find_first_of, index_from-append, index_from-none,
}
use cis505_penn_cloud.Prelude.Text.{Bytes, codes, crlf, has, has-append, starts_with}
use cis505_penn_cloud.Kv.Outcome.{ok, ◌>>=◌}
use cis505_penn_cloud.Webmail.Send.{
  between, receivers, Letter, add_line, server_of, queued, user_of,
}

-- An address and what closes it.
abbrev closed : Bytes → Bytes
closed a = a ++ codes ">" ++ crlf

closed_lem : (a : Bytes) → closed a ≡ a ++ b'>' ∷ crlf
closed_lem a = append_assoc a (codes ">") crlf

no_bracket : (a : Bytes) → has b'<' a ≡ false → has b'<' (closed a) ≡ false
unfolding has
no_bracket a h = ground (arith, closed_lem a, has-append b'<' a (b'>' ∷ crlf))

-- An address holds no bracket.
abbrev pub IsAddress : Bytes → Type 0
IsAddress a = (has b'<' a ≡ false) × (has b'>' a ≡ false)

-- Where the brackets stand in a line, and what stands between them.
module _ (head a : Bytes) where
  abbrev bracketed : Bytes
  bracketed = head ++ b'<' ∷ closed a

  opens : has b'<' head ≡ false → index_from 0 0 b'<' bracketed ≡ some (length head)
  opens h =
      index_from-append 0 0 b'<' head (closed a) h (omega arith) ∙ ap (λ n. some n) (omega arith)

  closes :
      has b'>' head ≡ false
      → has b'>' a ≡ false
      → index_from 0 0 b'>' bracketed ≡ some (length head + 1 + length a)
  unfolding has
  closes h k =
      let split : bracketed ≡ (head ++ b'<' ∷ a) ++ b'>' ∷ crlf =
        ap (λ l. head ++ b'<' ∷ l) (closed_lem a)
        ∙ sym (append_assoc head (b'<' ∷ a) (b'>' ∷ crlf)) in
      let plain : has b'>' (head ++ b'<' ∷ a) ≡ false = has-append b'>' head (b'<' ∷ a) ∙ rw h k in
      let n : 0 + length (head ++ b'<' ∷ a) ≡ length head + 1 + length a =
        omega (arith, length-append {0} head (b'<' ∷ a)) in
      ap (index_from 0 0 b'>') split
      ∙ index_from-append 0 0 b'>' (head ++ b'<' ∷ a) crlf plain (omega arith)
      ∙ ap (λ k. some k) n

between-closed :
    (n : ℕ) (a s : Bytes)
    → drop (n + 1) s ≡ closed a
    → between (some n) (some (n + 1 + length a)) s ≡ a
between-closed n a s e =
    let front : take (length a) (closed a) ≡ a =
      ap (take (length a)) (closed_lem a) ∙ take-length-append a (b'>' ∷ crlf) in
    ground (arith, e, front)

pub add_line-from :
    (a : Bytes) (m : Letter)
    → IsAddress a
    → add_line (codes "From: <" ++ (a ++ codes ">") ++ crlf) m
      ≡ ok (record m { text = m.text ++ (codes "From: <" ++ (a ++ codes ">") ++ crlf); sender = a })
unfolding add_line starts_with has
add_line-from a m h =
    let s = bracketed (codes "From: ") a in
    let inner : between (find_first_of b'<' 0 s) (find_first_of b'>' 0 s) s ≡ a =
      rw (opens (codes "From: ") a refl, closes (codes "From: ") a refl h.1)
        (between-closed 6 a s refl) in
    ap (λ sender. ok (record m { text = m.text ++ s; sender = sender })) inner

receivers_one :
    (fuel i : ℕ) (found2 : Option ℕ) (s : Bytes)
    → index_from 0 (i + 1) b'<' s ≡ none
    → receivers (suc (suc fuel)) (some i) found2 s ≡ ok (between (some i) found2 s ∷ [])
unfolding receivers
receivers_one fuel i found2 s e = rw e refl

pub add_line-to :
    (a : Bytes) (m : Letter)
    → IsAddress a
    → length m.queue < 20
    → add_line (codes "To: <" ++ (a ++ codes ">") ++ crlf) m
      ≡ ok (record m {
        text = m.text ++ (codes "To: <" ++ (a ++ codes ">") ++ crlf);
        queue = m.queue ++ a ∷ [];
      })
unfolding add_line starts_with has
add_line-to a m h l =
    let s = bracketed (codes "To: ") a in
    let m1 = record m { text = m.text ++ s } in
    let last : index_from 0 5 b'<' s ≡ none =
      unfold index_from in index_from-none 5 5 b'<' (closed a) (no_bracket a h.0) in
    let one : receivers (suc (length s)) (find_first_of b'<' 0 s) (find_first_of b'>' 0 s) s
        ≡ ok (a ∷ []) =
      rw (opens (codes "To: ") a refl, closes (codes "To: ") a refl h.1)
        (receivers_one (suc (suc (suc (suc (length (closed a)))))) 4 (some (5 + length a)) s last
          ∙ ap (λ r. ok (r ∷ [])) (between-closed 4 a s refl)) in
    ap (λ o. o >>= λ rcvrs. queued m1 rcvrs) one ∙ ground (arith, length-append m.queue (a ∷ []))

-- The user at this server.
abbrev pub local_address : Bytes → Bytes
local_address user = user ++ codes "@localhost.com"

drop_behind : (t r : Bytes) (c : ℕ) → drop (suc (length t)) (t ++ c ∷ r) ≡ r
drop_behind [] r c = refl
drop_behind (x ∷ t) r c = drop_behind t r c

at_sign :
    (user : Bytes)
    → has b'@' user ≡ false
    → find_first_of b'@' 0 (local_address user) ≡ some (length user)
at_sign user h =
    index_from-append 0 0 b'@' user (codes "localhost.com") h (omega arith)
    ∙ ap (λ n. some n) (omega arith)

pub server_of-local :
    (user : Bytes) → has b'@' user ≡ false → server_of (local_address user) ≡ codes "localhost.com"
server_of-local user h =
    let n : length user + 1 ≡ suc (length user) = omega arith in
    rw (at_sign user h, n) (drop_behind user (codes "localhost.com") b'@')

pub user_of-local : (user : Bytes) → has b'@' user ≡ false → user_of (local_address user) ≡ user
user_of-local user h =
    rw (at_sign user h, user_of) (take-length-append user (codes "@localhost.com"))
