-- ===== src/Prelude/Decimal.antt =====
-- `to_string(int)`, `atoi` and `stoi` in decimal, and the conversions between `int` and `size_t`.
use Prim.Native.Nat.{ℕ, zero, suc, ◌+◌, ◌-◌, ◌*◌, ◌/◌, ◌%◌, ◌^◌, ◌≤◌, ◌<◌}
use mathlib.Core.Path.{◌≡◌, refl, sym, ap, ◌∙◌}
use mathlib.Core.Bool.{Bool, true, false, ◌&&◌, ◌||◌}
use mathlib.Core.Logic.{◌≢◌}
use mathlib.Core.Option.{Option, none, some}
use mathlib.Core.List.{[], ◌∷◌, ◌++◌}
use native.Mathlib.Omega.{arith}
use cis505_penn_cloud.Prelude.Tests.{ltb, leb, ◌==◌, if◌then◌else◌}
use cis505_penn_cloud.Prelude.Int.{ℤ, pos, negsuc, pos_part, neg_part}
use cis505_penn_cloud.Prelude.Text.{Bytes, has}

abbrev pub is_digit : ℕ → Bool
is_digit c = leb 48 c && leb c 57

abbrev pub digits : ℕ → ℕ → Bytes → Bytes
digits zero n acc = acc
digits (suc f) n acc =
    let rest = digits f (n / 10) ((48 + n % 10) ∷ acc) in
    if n / 10 == 0 then (48 + n % 10) ∷ acc else rest

-- The digits of a number: as much fuel as the number, and one more.
unfoldable pub print_nat : ℕ → Bytes
print_nat n = digits (suc n) n []

-- `to_string(int)`
unfoldable pub print_int : ℤ → Bytes
print_int (pos n) = print_nat n
print_int (negsuc n) = 45 ∷ print_nat (suc n)

-- The value of the leading digits, from the value of those already read.
unfoldable pub read_digits : ℕ → Bytes → ℕ
read_digits acc [] = acc
read_digits acc (c ∷ s) =
    let rest = read_digits (acc * 10 + (c - 48)) s in if is_digit c then rest else acc

abbrev pub starts_with_digit : Bytes → Bool
starts_with_digit [] = false
starts_with_digit (c ∷ s) = is_digit c

abbrev pub is_space : ℕ → Bool
is_space c = c == 32 || (leb 9 c && leb c 13)

abbrev pub negate : ℕ → ℤ
negate zero = pos 0
negate (suc n) = negsuc n

-- `strtol` in base 10, on which `atoi` and `stoi` rest: white space, a sign, digits.
-- `none` where there is no number.
unfoldable pub read_int : Bytes → Option ℤ
read_int [] = none
read_int (c ∷ s) =
    let rest = read_int s in
    if is_space c
    then rest
    else if c == 45
    then (if starts_with_digit s then some (negate (read_digits 0 s)) else none)
    else if c == 43
    then (if starts_with_digit s then some (pos (read_digits 0 s)) else none)
    else if is_digit c
    then some (pos (read_digits 0 (c ∷ s)))
    else none

-- `atoi`: 0 where there is no number.
unfoldable pub atoi : Bytes → ℤ
atoi s = elim (read_int s) [ none ↦ pos 0 | some z ↦ z ]

abbrev pub in_int : ℤ → Bool
in_int z = ltb (pos_part z) (2 ^ 31) && leb (neg_part z) (2 ^ 31)

-- `stoi` throws (`none`) where there is no number or it is out of range.
unfoldable pub stoi : Bytes → Option ℤ
stoi s = elim (read_int s) [ none ↦ none | some z ↦ if in_int z then some z else none ]

-- `int` to `size_t`, and back.
unfoldable pub to_size : ℤ → ℕ
to_size (pos n) = n % 2 ^ 64
to_size (negsuc n) = 2 ^ 64 - 1 - n % 2 ^ 64

unfoldable pub to_int : ℕ → ℤ
to_int n = let low = n % 2 ^ 32 in if ltb low (2 ^ 31) then pos low else negsuc (2 ^ 32 - 1 - low)

-- `i += n` and `i -= n` for an `int i` and a `size_t n`.
unfoldable pub add_size : ℤ → ℕ → ℤ
unfolding to_size to_int
add_size i n = to_int ((to_size i + n) % 2 ^ 64)

unfoldable pub sub_size : ℤ → ℕ → ℤ
unfolding to_size to_int
sub_size i n = to_int ((to_size i + 2 ^ 64 - n % 2 ^ 64) % 2 ^ 64)

pub add_size_lem : (m n : ℕ) → m + n < 2 ^ 31 → add_size (pos m) n ≡ pos (m + n)
unfolding add_size
add_size_lem m n h = ground arith

pub sub_size_lem : (m n : ℕ) → n ≤ m → m < 2 ^ 31 → sub_size (pos m) n ≡ pos (m - n)
unfolding sub_size
sub_size_lem m n h k = ground arith

read_digits-digits :
    (f n : ℕ) (acc : Bytes) → n < f → read_digits 0 (digits f n acc) ≡ read_digits n acc
unfolding read_digits
read_digits-digits zero n acc h = elim h [ ]
read_digits-digits (suc f) n acc h =
    ground (arith, read_digits-digits f (n / 10) ((48 + n % 10) ∷ acc))

starts_with_digit-digits :
    (f n : ℕ) (acc : Bytes) → n < f → starts_with_digit (digits f n acc) ≡ true
starts_with_digit-digits zero n acc h = elim h [ ]
starts_with_digit-digits (suc f) n acc h =
    ground (arith, starts_with_digit-digits f (n / 10) ((48 + n % 10) ∷ acc))

read_int_of_digit :
    (s : Bytes) → starts_with_digit s ≡ true → read_int s ≡ some (pos (read_digits 0 s))
unfolding read_int
read_int_of_digit [] h = cc
read_int_of_digit (c ∷ s) h = ground arith

has-digits : (d f n : ℕ) (acc : Bytes) → is_digit d ≡ false → has d (digits f n acc) ≡ has d acc
unfolding has
has-digits d zero n acc h = refl
has-digits d (suc f) n acc h = ground (arith, has-digits d f (n / 10) ((48 + n % 10) ∷ acc))

-- A printed number holds no delimiter.
pub has-print_nat : (d n : ℕ) → is_digit d ≡ false → has d (print_nat n) ≡ false
unfolding print_nat has
has-print_nat d n h = has-digits d (suc n) n [] h

pub has-print_int : (d : ℕ) (z : ℤ) → is_digit d ≡ false → d ≢ 45 → has d (print_int z) ≡ false
unfolding print_int has
has-print_int d (pos n) h k = has-print_nat d n h
has-print_int d (negsuc n) h k = ground (arith, has-print_nat d (suc n) h)

read_digits-print_nat : (n : ℕ) → read_digits 0 (print_nat n) ≡ n
unfolding print_nat read_digits
read_digits-print_nat n = read_digits-digits (suc n) n [] (omega arith)

starts_with_digit-print_nat : (n : ℕ) → starts_with_digit (print_nat n) ≡ true
unfolding print_nat
starts_with_digit-print_nat n = starts_with_digit-digits (suc n) n [] (omega arith)

pub read_int-print_int : (z : ℤ) → read_int (print_int z) ≡ some z
unfolding print_int
read_int-print_int (pos n) =
    rw (read_int_of_digit, starts_with_digit-print_nat n, read_digits-print_nat)
read_int-print_int (negsuc n) =
    unfold read_int in rw (starts_with_digit-print_nat (suc n), read_digits-print_nat)

-- A printed `int` reads back.
pub stoi-print_int : (z : ℤ) → in_int z ≡ true → stoi (print_int z) ≡ some z
unfolding stoi
stoi-print_int z h = ground (arith, read_int-print_int z)

pub atoi-print_int : (z : ℤ) → atoi (print_int z) ≡ z
unfolding atoi
atoi-print_int z = ground (arith, read_int-print_int z)

pub print_nat_ne : (m n : ℕ) → m ≢ n → print_nat m ≢ print_nat n
print_nat_ne m n h e =
    h (sym (read_digits-print_nat m) ∙ ap (read_digits 0) e ∙ read_digits-print_nat n)

digits-append : (f n : ℕ) (acc t : Bytes) → digits f n acc ++ t ≡ digits f n (acc ++ t)
digits-append zero n acc t = refl
digits-append (suc f) n acc t = ground (arith, digits-append f (n / 10) ((48 + n % 10) ∷ acc) t)

read_digits_end : (n : ℕ) (t : Bytes) → starts_with_digit t ≡ false → read_digits n t ≡ n
unfolding read_digits
read_digits_end n [] h = refl
read_digits_end n (c ∷ t) h = ground arith

read_digits-print_nat_then :
    (n : ℕ) (t : Bytes) → starts_with_digit t ≡ false → read_digits 0 (print_nat n ++ t) ≡ n
unfolding print_nat
read_digits-print_nat_then n t h =
    rw (digits-append (suc n) n [] t, read_digits-digits (suc n) n t (omega arith))
      (read_digits_end n t h)

starts_with_digit-print_nat_then : (n : ℕ) (t : Bytes) → starts_with_digit (print_nat n ++ t) ≡ true
unfolding print_nat
starts_with_digit-print_nat_then n t =
    rw (digits-append (suc n) n [] t) (starts_with_digit-digits (suc n) n t (omega arith))

read_int-print_int_then :
    (z : ℤ) (t : Bytes) → starts_with_digit t ≡ false → read_int (print_int z ++ t) ≡ some z
unfolding print_int
read_int-print_int_then (pos n) t h =
    read_int_of_digit (print_nat n ++ t) (starts_with_digit-print_nat_then n t)
    ∙ ap (λ k. some (pos k)) (read_digits-print_nat_then n t h)
read_int-print_int_then (negsuc n) t h =
    unfold read_int in
    rw (starts_with_digit-print_nat_then (suc n) t, read_digits-print_nat_then (suc n) t h)

-- A printed `int` reads back where text follows that does not go on with a digit.
pub stoi-print_int_then :
    (z : ℤ) (t : Bytes)
    → in_int z ≡ true
    → starts_with_digit t ≡ false
    → stoi (print_int z ++ t) ≡ some z
unfolding stoi
stoi-print_int_then z t h k = ground (arith, read_int-print_int_then z t k)
