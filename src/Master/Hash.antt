-- ===== src/Master/Hash.antt =====
-- `hash_str` of master/conhash.cc, on 32-bit unsigned arithmetic.
use Prim.Native.Nat.{bit_xor}
use cis505_penn_cloud.Prelude.{ℕ, ◌*◌, ◌%◌, ◌^◌, ◌<◌, ◌+◌, ◌-◌, [], ◌∷◌, arith, ltb, if◌then◌else◌}
use cis505_penn_cloud.Prelude.Text.{Bytes}

abbrev pub max_key : ℕ
max_key = 86969

-- A byte as a signed `char`, converted to `unsigned`.
abbrev sign_extend : ℕ → ℕ
sign_extend c = if ltb c 128 then c else 2 ^ 32 - 256 + c

-- The loop: `h = (h * A) ^ (s[0] * B)`.
unfoldable pub hash_from : ℕ → Bytes → ℕ
hash_from h [] = h
hash_from h (c ∷ s) = hash_from (bit_xor (h * 54059 % 2 ^ 32) (sign_extend c * 76963 % 2 ^ 32)) s

unfoldable pub hash_str : Bytes → ℕ
unfolding hash_from
hash_str s = hash_from 37 s % max_key

-- Every key lies on the ring.
pub hash_str-lt-max_key : (s : Bytes) → hash_str s < max_key
unfolding hash_str
hash_str-lt-max_key s = omega arith
