-- ===== src/Frontend/Text.antt =====
-- The text helpers of frontend/utils.cc. A descriptor that is read to its end is the list of the bytes
-- that it will give; what a reader leaves is returned with its result.
use cis505_penn_cloud.Prelude.{
  ◌^◌, ◌||◌, ℕ, zero, suc, ◌+◌, ◌-◌, ◌*◌, ◌%◌, Bool, true, false, ◌&&◌, Option, none, some, List,
  [], ◌∷◌, ◌++◌, if◌then◌else◌, ◌==◌, ltb, leb, length, take, drop,
}
use cis505_penn_cloud.Prelude.Decimal.{is_space}
use cis505_penn_cloud.Prelude.Text.{Bytes, codes, crlf, fields, starts_with}
use cis505_penn_cloud.Kv.Outcome.{Outcome, ok, fault, ◌>>=◌}
use cis505_penn_cloud.Kv.Ops.{is_empty}

-- `read_line`, with the line so far. The flag says that a carriage return has just been read, which
-- the line so far does not hold yet; a byte behind it that is no newline is dropped.
unfoldable pub line_from : Bool → Bytes → Bytes → Bytes × Bytes
line_from false line [] = (line, [])
line_from true line [] = (line ++ 13 ∷ [], [])
line_from false line (c ∷ s) =
    let returned = line_from true line s in
    let longer = line_from false (line ++ c ∷ []) s in
    if c == 13 then returned else if c == 10 then (line, s) else longer
line_from true line (c ∷ s) =
    let again = line_from false (line ++ 13 ∷ []) s in if c == 10 then (line, s) else again

unfoldable pub read_line : Bytes → Bytes × Bytes
unfolding line_from
read_line s = line_from false [] s

-- `read_rep_line`, in the same way; a lone newline does not end the line.
unfoldable pub rep_line_from : Bool → Bytes → Bytes → Bytes × Bytes
rep_line_from false line [] = (line, [])
rep_line_from true line [] = (line ++ 13 ∷ [], [])
rep_line_from false line (c ∷ s) =
    let returned = rep_line_from true line s in
    let longer = rep_line_from false (line ++ c ∷ []) s in if c == 13 then returned else longer
rep_line_from true line (c ∷ s) =
    let again = rep_line_from false (line ++ 13 ∷ []) s in if c == 10 then (line, s) else again

unfoldable pub read_rep_line : Bytes → Bytes × Bytes
unfolding rep_line_from
read_rep_line s = rep_line_from false [] s

-- `s.c_str()` where it is made a string again: up to a zero byte.
unfoldable pub c_str : Bytes → Bytes
c_str [] = []
c_str (c ∷ s) = let rest = c_str s in if c == 0 then [] else c ∷ rest

-- `split`: `getline` gives the last piece too, unless it is empty.
unfoldable pub split : Bytes → ℕ → List Bytes
split s delim = let (ts, r) = fields delim s in if is_empty r then ts else ts ++ r ∷ []

-- `s.find(p)`
unfoldable pub find : Bytes → Bytes → Option ℕ
find p [] = if is_empty p then some 0 else none
find p (c ∷ s) =
    let rest = find p s in
    if starts_with p (c ∷ s) then some 0 else elim rest [ none ↦ none | some i ↦ some (suc i) ]

-- `s.substr(s.find(p) + n)`, where `npos + n` is `n - 1`; `substr` throws where it starts past the
-- end.
abbrev pub behind : Bytes → ℕ → Bytes → Outcome Bytes
behind p n s =
    let i = elim (find p s) as (λ _. ℕ) [ none ↦ n - 1 | some i ↦ i + n ] in
    if leb i (length s) then ok (drop i s) else fault

-- `s.substr(0, s.find(p) - n)`: all of `s` where the number wraps around or `p` is not there.
abbrev pub before : Bytes → ℕ → Bytes → Bytes
before p n s = elim (find p s) [ none ↦ s | some i ↦ if ltb i n then s else take (i - n) s ]

unfoldable pub extract_file_content : Bytes → Outcome Bytes
unfolding find
extract_file_content req_body =
    behind (crlf ++ crlf) 4 req_body >>= λ s. ok (before (codes "----") 2 s)

unfoldable pub extract_file_name : Bytes → Outcome Bytes
unfolding find
extract_file_name req_body =
    behind (codes "filename=\"") 10 req_body >>= λ s. ok (before (b'"' ∷ []) 0 s)

-- `replace_all`: the number of bytes of an occurrence that are still to be passed over.
unfoldable pub replace_from : ℕ → Bytes → Bytes → Bytes → Bytes
replace_from skip from to [] = []
replace_from (suc skip) from to (c ∷ s) = replace_from skip from to s
replace_from zero from to (c ∷ s) =
    let rest = replace_from 0 from to s in
    let passed = replace_from (length from - 1) from to s in
    if starts_with from (c ∷ s) then to ++ passed else c ∷ rest

unfoldable pub replace_all : Bytes → Bytes → Bytes → Bytes
unfolding replace_from
replace_all str from to = if is_empty from then str else replace_from 0 from to str

-- The value of a hexadecimal digit.
abbrev pub hex : ℕ → Option ℕ
hex c =
    if leb 48 c && leb c 57
    then some (c - 48)
    else if leb 65 c && leb c 70
    then some (c - 55)
    else if leb 97 c && leb c 102
    then some (c - 87)
    else none

-- One digit, or the value before where there is none.
abbrev digit_or : ℕ → ℕ → ℕ
digit_or ii c = elim (hex c) [ none ↦ ii | some h ↦ h ]

-- `sscanf` with `%x` on at most two bytes: white space, a sign or a first digit, then a digit. Where
-- there is no number, and for a prefix 0x without digits, the value stays what it was before. A minus
-- sign negates on 32 bits.
unfoldable pub scan_hex : ℕ → Bytes → ℕ
scan_hex ii [] = ii
scan_hex ii (a ∷ []) = digit_or ii a
scan_hex ii (a ∷ b ∷ s) =
    let two_digits : ℕ = elim (hex a) [
      | none ↦ ii
      | some h ↦ (elim (hex b) [ none ↦ h | some l ↦ h * 16 + l ])
    ] in
    let negated : ℕ = elim (hex b) [ none ↦ ii | some h ↦ (2 ^ 32 - h) % 2 ^ 32 ] in
    if is_space a || a == b'+'
    then digit_or ii b
    else if a == b'-'
    then negated
    else if a == b'0' && (b == b'x' || b == b'X')
    then ii
    else two_digits

-- `url_decode`, with the value of `ii` and the number of bytes still to be passed over.
unfoldable pub decode_from : ℕ → ℕ → Bytes → Bytes
unfolding scan_hex
decode_from ii skip [] = []
decode_from ii (suc skip) (c ∷ s) = decode_from ii skip s
decode_from ii zero (c ∷ s) =
    let value = scan_hex ii (take 2 s) in
    let decoded = decode_from value 2 s in
    let plain = decode_from ii 0 s in if c == 37 then value % 256 ∷ decoded else c ∷ plain

-- `ii` is not set before the first escape.
unfoldable pub url_decode : ℕ → Bytes → Bytes
unfolding decode_from
url_decode junk str = decode_from junk 0 str
