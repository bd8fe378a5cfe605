-- ===== src/Kv/Commands/Lines.antt =====
-- The lines of a client's commands, as kvstore/chunkserver.cc and kvstore/kvstore.cc read them.
use cis505_penn_cloud.Prelude.{
  ℕ, ◌+◌, ◌≡◌, refl, ap, ◌∙◌, Bool, true, false, [], ◌∷◌, ◌++◌, arith, if◌then◌else◌, length, take,
  length-append,
}
use cis505_penn_cloud.Prelude.Int.{ℤ, pos}
use cis505_penn_cloud.Prelude.Ordered.{bytes_ordered, int_ordered, same}
use cis505_penn_cloud.Prelude.Text.{Bytes, codes, crlf, has, cut, cut-append, to_lower}
use cis505_penn_cloud.StdMap.{StdMap}
use cis505_penn_cloud.Kv.Outcome.{ok, ◌>>=◌}
use cis505_penn_cloud.Kv.Store.{Store, send}
use cis505_penn_cloud.Kv.Cache
use cis505_penn_cloud.Kv.Ops
use cis505_penn_cloud.Kv.Commands.{
  parse_line, chop, recorded, error, with_two, with_three, put, get,
}
use cis505_penn_cloud.Kv.Worker.{
  Turn, more, quit, worker_round, execute, client_command, parse_command, done,
}

-- The texts of two commands.
abbrev pub put_text : Bytes → Bytes → Bytes → Bytes
put_text user filename value = codes "put " ++ (user ++ b',' ∷ (filename ++ b',' ∷ value))

abbrev pub get_text : Bytes → Bytes → Bytes
get_text user filename = codes "get " ++ (user ++ b',' ∷ (filename ++ crlf))

parse_line-three :
    (a b c : Bytes)
    → has b',' a ≡ false
    → has b',' b ≡ false
    → parse_line 2 (a ++ b',' ∷ (b ++ b',' ∷ c)) ≡ a ∷ b ∷ c ∷ []
unfolding parse_line
parse_line-three a b c ha hb =
    rw (cut-append b',' a (b ++ b',' ∷ c) ha, cut-append b',' b c hb, parse_line) refl

parse_line-two : (a b : Bytes) → has b',' a ≡ false → parse_line 1 (a ++ b',' ∷ b) ≡ a ∷ b ∷ []
unfolding parse_line
parse_line-two a b ha = rw (cut-append b',' a b ha, parse_line) refl

take-length-front : (s t : Bytes) → take (length s) (s ++ t) ≡ s
take-length-front [] t = refl
take-length-front (c ∷ s) t = ap (◌∷◌ c) (take-length-front s t)

-- The line end is chopped off.
chop-crlf : (s : Bytes) → chop (s ++ crlf) ≡ s
chop-crlf s =
    let n : length (s ++ crlf) ≡ length s + 2 = length-append s crlf in
    ground (arith, n, take-length-front s crlf)

-- How a connection goes on behind a command.
abbrev pub turn_of : ℤ → Store → Turn
turn_of fd s = if same fd s.secondary_fd then more else quit

module _ (float_ceil : ℕ → ℕ) (fuel : ℕ) where
  pub put-put_text :
      (user filename value : Bytes) (external : Bool) (fd seq_num : ℤ) (s : Store)
      → has b',' user ≡ false
      → has b',' filename ≡ false
      → put float_ceil fuel (put_text user filename value) external fd seq_num s
        ≡ recorded external
            (put_text user filename value)
            user
            (Cache.put float_ceil fuel user filename value fd true seq_num s)
  unfolding put
  put-put_text user filename value external fd seq_num s hu hf =
      ap
        (λ ps.
          with_three ps
            (λ u f v.
              recorded external (put_text user filename value) u
                (Cache.put float_ceil fuel u f v fd true seq_num s))
            (ok (error fd s)))
        (parse_line-three user filename value hu hf)

  get-get_text :
      (user filename : Bytes) (fd : ℤ) (s : Store)
      → has b',' user ≡ false
      → get float_ceil fuel (get_text user filename) fd s
        ≡ Ops.get float_ceil fuel user filename fd s
  unfolding get
  get-get_text user filename fd s hu =
      ap (λ ps. with_two ps (λ u f. Ops.get float_ceil fuel u (chop f) fd s) (ok (error fd s)))
        (parse_line-two user (filename ++ crlf) hu)
      ∙ ap (λ f. Ops.get float_ceil fuel user f fd s) (chop-crlf filename)

  -- A client's two commands, as the frontend writes them, reach the cache with the user, the file and
  -- the value that they name.
  pub worker_round-commands :
      (user filename value : Bytes) (fd : ℤ) (s : Store)
      → has b',' user ≡ false
      → has b',' filename ≡ false
      → (worker_round float_ceil fuel (put_text user filename value) fd s ≡ (
          recorded true
            (put_text user filename value)
            user
            (Cache.put float_ceil fuel user filename value fd true (pos 0) s)
          >>= λ s'. ok (turn_of fd s, send fd done s')))
        × (worker_round float_ceil fuel (get_text user filename) fd s ≡ (
            Ops.get float_ceil fuel user filename fd s >>= λ s'.
            ok (turn_of fd s, send fd done s')))
  unfolding worker_round parse_command execute client_command cut to_lower
  worker_round-commands user filename value fd s hu hf = (
    ap (λ o. o >>= λ s'. ok (turn_of fd s, send fd done s'))
        (put-put_text user filename value true fd (pos 0) s hu hf),
    ap (λ o. o >>= λ s'. ok (turn_of fd s, send fd done s')) (get-get_text user filename fd s hu),
  )
