-- ===== src/Frontend/Passwords.antt =====
-- The login of frontend/store.cc on the reply of a storage node to its `get`.
use cis505_penn_cloud.Prelude.{ℕ, ◌≤◌, ◌≡◌, refl, ap, ◌∙◌, false, List, [], ◌∷◌, ◌++◌, take}
use cis505_penn_cloud.Prelude.Int.{ℤ}
use cis505_penn_cloud.Prelude.Ordered.{bytes_ordered, same}
use cis505_penn_cloud.Prelude.Text.{Bytes, codes, crlf, has, starts_with}
use cis505_penn_cloud.Kv.Outcome.{ok, ◌>>=◌}
use cis505_penn_cloud.Kv.Cache.Reply
use cis505_penn_cloud.Frontend.Text.{c_str, split}
use cis505_penn_cloud.Frontend.Backend.{
  done, end_mark, address_of, read_reply, read_reply-lines, send_to_backend, get_password,
  is_login_valid,
}

-- What a node sends for a stored password: the two texts of a `get`, then the mark.
abbrev pub password_reply : Bytes → Bytes
password_reply stored = Reply.value_follows ++ ((stored ++ crlf) ++ (done ++ crlf))

read_password :
    (fuel : ℕ) (username stored : Bytes)
    → 3 ≤ fuel
    → has 13 stored ≡ false
    → has 10 stored ≡ false
    → same stored done ≡ false
    → read_reply fuel (get_password username) (password_reply stored)
      ≡ ok (codes "+OK value as follows: " ∷ stored ∷ [])
unfolding end_mark starts_with has
read_password fuel username stored h hr hn ne =
    read_reply-lines fuel (get_password username) (codes "+OK value as follows: ") (stored ∷ [])
      (refl, refl, refl, (hr, hn, ne, tt)) refl h

-- A login is valid exactly if the password that the user gives is the one that the node holds. The
-- master has named an address, the node there has sent the reply of a `get` with the stored password,
-- and the stored password holds no line end and is not the mark that ends a reply.
pub is_login_valid-reply :
    (fuel : ℕ) (master : Bytes → Bytes) (backend : Bytes × ℤ → Bytes → Bytes)
    (username password stored : Bytes) (address : Bytes × ℤ)
    → 3 ≤ fuel
    → address_of (split (take 49 (master (b'?' ∷ username))) b':') ≡ ok address
    → backend address (c_str (get_password username)) ≡ password_reply stored
    → has 13 stored ≡ false
    → has 10 stored ≡ false
    → same stored done ≡ false
    → is_login_valid fuel master backend username password ≡ ok (same stored password)
unfolding is_login_valid send_to_backend starts_with
is_login_valid-reply fuel master backend username password stored address h named sent hr hn ne =
    let msg = get_password username in
    let rep : List Bytes = codes "+OK value as follows: " ∷ stored ∷ [] in
    let e : send_to_backend fuel master backend msg username ≡ ok rep =
      ap (λ o. o >>= λ a. read_reply fuel msg (backend a (c_str msg))) named
      ∙ ap (read_reply fuel msg) sent
      ∙ read_password fuel username stored h hr hn ne in
    rw e refl
