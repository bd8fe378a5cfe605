-- ===== src/Frontend/Backend.antt =====
-- frontend/store.cc: a message to a storage node and the lines of its reply, the users and the
-- sessions.
use cis505_penn_cloud.Prelude.{
  ℕ, zero, suc, ◌+◌, ◌≤◌, ◌≡◌, Bool-cases, inl, inr, refl, ap, ◌∙◌, Bool, true, false, List, [],
  ◌∷◌, ◌++◌, arith, if◌then◌else◌, length, take,
}
use cis505_penn_cloud.Prelude.Int.{ℤ}
use cis505_penn_cloud.Prelude.Ordered.{bytes_ordered, same, same_refl}
use cis505_penn_cloud.Prelude.Text.{Bytes, codes, crlf, has, starts_with}
use cis505_penn_cloud.Prelude.Decimal.{atoi}
use cis505_penn_cloud.StdMap.{StdMap, insert, erase, contains}
use cis505_penn_cloud.Kv.Outcome.{Outcome, ok, fault, timeout, ◌>>=◌}
use cis505_penn_cloud.Kv.Cache.Reply
use cis505_penn_cloud.Frontend.Text.{c_str, read_rep_line, rep_line_from, split}
use cis505_penn_cloud.Frontend.Lines.{read_line-append}

abbrev pub done : Bytes
done = codes "!!!DONE!!!"

-- The line at which the loop that fits a message stops.
unfoldable pub end_mark : Bytes → Bytes
end_mark message = if starts_with (codes "getlist") message then b',' ∷ done else done

-- The loops of `send_to_backend`, on fuel: at the end of the connection every further line is empty.
unfoldable pub read_until : ℕ → Bytes → Bytes → Bytes → Outcome (List Bytes)
unfolding read_rep_line
read_until zero end line s = timeout
read_until (suc fuel) end line s =
    let (next, left) = read_rep_line s in
    let rest = read_until fuel end next left in
    if same line end then ok [] else rest >>= λ rep. ok (line ∷ rep)

unfoldable pub read_reply : ℕ → Bytes → Bytes → Outcome (List Bytes)
unfolding read_until end_mark
read_reply fuel message s =
    let (line, left) = read_rep_line s in
    if same line done then ok [] else read_until fuel (end_mark message) line left

-- The address in the master's answer.
abbrev pub address_of : List Bytes → Outcome (Bytes × ℤ)
address_of (ip ∷ port ∷ _) = ok (ip, atoi port)
address_of _ = fault

abbrev first_line : List Bytes → Outcome Bytes
first_line [] = fault
first_line (line ∷ _) = ok line

abbrev second_line : List Bytes → Outcome Bytes
second_line (_ ∷ line ∷ _) = ok line
second_line _ = fault

abbrev pub get_password : Bytes → Bytes
get_password username = codes "get " ++ username ++ codes ",pwd" ++ crlf

-- `master` is what the master answers, and `backend` the bytes that the node at an address sends for a
-- message until it closes the connection.
module _ (fuel : ℕ) (master : Bytes → Bytes) (backend : Bytes × ℤ → Bytes → Bytes) where
  unfoldable pub send_to_backend : Bytes → Bytes → Outcome (List Bytes)
  unfolding read_reply
  send_to_backend message username =
      address_of (split (take 49 (master (b'?' ∷ username))) b':') >>= λ address.
      read_reply fuel message (backend address (c_str message))

  unfoldable pub add_user : Bytes → Bytes → Outcome (List Bytes)
  unfolding send_to_backend
  add_user username password =
      send_to_backend (codes "put " ++ username ++ codes ",pwd," ++ password ++ crlf) username

  unfoldable pub is_user_exist : Bytes → Outcome Bool
  unfolding send_to_backend
  is_user_exist username = do
    rep ← send_to_backend (get_password username) username
    line ← first_line rep
    ok (starts_with (codes "+OK") line)

  unfoldable pub is_login_valid : Bytes → Bytes → Outcome Bool
  unfolding send_to_backend
  is_login_valid username password = do
    rep ← send_to_backend (get_password username) username
    line ← first_line rep
    let valid : Outcome Bool = second_line rep >>= λ stored. ok (same stored password)
    if starts_with (codes "+OK") line then valid else ok false

-- The sessions and the time of their creation.
abbrev pub Sessions : Type 0
Sessions = StdMap Bytes ℤ

unfoldable pub add_session : Bytes → ℤ → Sessions → Sessions
add_session id now sessions = insert id now sessions

unfoldable pub delete_session : Bytes → Sessions → Sessions
delete_session id sessions = erase id sessions

unfoldable pub is_session_valid : Bytes → Sessions → Bool
is_session_valid id sessions = contains id sessions

-- The bytes of a reply of these lines.
abbrev pub lines_text : List Bytes → Bytes
lines_text [] = []
lines_text (l ∷ ls) = l ++ crlf ++ lines_text ls

-- Lines that hold no line end, and are not the last one of a reply.
abbrev pub IsReply : Bytes → List Bytes → Type 0
IsReply end [] = Unit
IsReply end (l ∷ ls) =
    (has 13 l ≡ false) × (has 10 l ≡ false) × (same l end ≡ false) × IsReply end ls

-- The first line of a text.
read_rep_line-text :
    (l rest : Bytes)
    → has 13 l ≡ false
    → has 10 l ≡ false
    → read_rep_line (l ++ crlf ++ rest) ≡ (l, rest)
read_rep_line-text l rest h k = (read_line-append l rest h k).1

until_step :
    (fuel : ℕ) (end line s next left : Bytes)
    → same line end ≡ false
    → read_rep_line s ≡ (next, left)
    → read_until (suc fuel) end line s ≡ (read_until fuel end next left >>= λ rep. ok (line ∷ rep))
unfolding read_until
until_step fuel end line s next left ne e =
    rw ne (ap (λ f. read_until fuel end f.0 f.1 >>= λ rep. ok (line ∷ rep)) e)

until_end : (fuel : ℕ) (end s : Bytes) → read_until (suc fuel) end end s ≡ ok []
unfolding read_until
until_end fuel end s = rw (same_refl end) refl

read_until-lines :
    (fuel : ℕ) (end l : Bytes) (ls : List Bytes)
    → has 13 end ≡ false
    → has 10 end ≡ false
    → IsReply end (l ∷ ls)
    → length ls + 2 ≤ fuel
    → read_until fuel end l (lines_text (ls ++ end ∷ [])) ≡ ok (l ∷ ls)
read_until-lines zero end l ls he ke r h = absurd (omega arith)
read_until-lines (suc zero) end l ls he ke r h = absurd (omega arith)
read_until-lines (suc (suc fuel)) end l [] he ke r h =
    until_step (suc fuel) end l _ end [] r.2 (read_rep_line-text end [] he ke)
    ∙ ap (λ o. o >>= λ rep. ok (l ∷ rep)) (until_end fuel end [])
read_until-lines (suc (suc fuel)) end l (m ∷ ls) he ke r h =
    let rest = lines_text (ls ++ end ∷ []) in
    until_step (suc fuel) end l _ m rest r.2 (read_rep_line-text m rest r.3.0 r.3.1)
    ∙ ap (λ o. o >>= λ rep. ok (l ∷ rep))
        (read_until-lines (suc fuel) end m ls he ke r.3 (omega arith))

end_mark_plain :
    (message : Bytes) (d : ℕ) → has d (b',' ∷ done) ≡ false → has d (end_mark message) ≡ false
unfolding end_mark has
end_mark_plain message d h = elim (Bool-cases (starts_with (codes "getlist") message)) [
  | inl list ↦ rw list h
  | inr other ↦ rw other (ground (arith, h))
]

read_reply_first :
    (fuel : ℕ) (message s line left : Bytes)
    → read_rep_line s ≡ (line, left)
    → same line done ≡ false
    → read_reply fuel message s ≡ read_until fuel (end_mark message) line left
unfolding read_reply
read_reply_first fuel message s line left e ne =
    ap (λ f. if same f.0 done then ok [] else read_until fuel (end_mark message) f.0 f.1) e
    ∙ rw ne refl

-- A reply of one or more lines that ends in the mark that belongs to the message is read to its end,
-- on two units of fuel more than it has further lines, and its lines are returned in their order.
pub read_reply-lines :
    (fuel : ℕ) (message l : Bytes) (ls : List Bytes)
    → IsReply (end_mark message) (l ∷ ls)
    → same l done ≡ false
    → length ls + 2 ≤ fuel
    → read_reply fuel message (lines_text (l ∷ ls ++ end_mark message ∷ [])) ≡ ok (l ∷ ls)
unfolding has
read_reply-lines fuel message l ls r ne h =
    let rest = lines_text (ls ++ end_mark message ∷ []) in
    read_reply_first fuel message _ l rest (read_rep_line-text l rest r.0 r.1) ne
    ∙ read_until-lines fuel (end_mark message) l ls (end_mark_plain message 13 refl)
        (end_mark_plain message 10 refl) r h

-- The connection is closed: every further line is empty.
until_closed : (fuel c : ℕ) (end : Bytes) → read_until fuel (c ∷ end) [] [] ≡ timeout
unfolding read_until read_rep_line rep_line_from
until_closed zero c end = refl
until_closed (suc fuel) c end = ap (λ o. o >>= λ rep. ok ([] ∷ rep)) (until_closed fuel c end)

until_unknown :
    (fuel : ℕ)
    → read_until fuel (b',' ∷ done) (codes "-ERR User not exist") (done ++ crlf) ≡ timeout
unfolding read_until read_rep_line rep_line_from
until_unknown zero = refl
until_unknown (suc zero) = refl
until_unknown (suc (suc fuel)) =
    ap (λ o. (o >>= λ rep. ok (done ∷ rep)) >>= λ rep'. ok (codes "-ERR User not exist" ∷ rep'))
      (until_closed fuel b',' done)

-- A listing of a user whom the node does not find in memory never returns: behind the node's reply,
-- the loop waits for a mark that the node does not send.
pub read_reply_hangs :
    (fuel : ℕ) (message : Bytes)
    → starts_with (codes "getlist") message ≡ true
    → read_reply fuel message (Reply.no_such_user ++ (done ++ crlf)) ≡ timeout
unfolding read_rep_line rep_line_from end_mark
read_reply_hangs fuel message list =
    read_reply_first fuel message _ (codes "-ERR User not exist") (done ++ crlf) refl refl
    ∙ rw list (until_unknown fuel)
