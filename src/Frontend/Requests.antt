-- ===== src/Frontend/Requests.antt =====
-- `Request::Request` of frontend/request.cc: one HTTP request.
pub mod RoundTrip
use cis505_penn_cloud.Prelude.{
  ℕ, zero, suc, ◌+◌, ◌≤◌, ◌<◌, ◌≡◌, refl, ap, Bool, true, false, ◌&&◌, List, [], ◌∷◌, ◌++◌, arith,
  if◌then◌else◌, length, drop, ◌∙◌, Bool-cases, inl, inr,
}
use cis505_penn_cloud.Prelude.Int.{ℤ, pos, pos_part, ltb_ℤ}
use cis505_penn_cloud.Prelude.Ordered.{bytes_ordered, same}
use cis505_penn_cloud.Prelude.Text.{Bytes, codes, starts_with}
use cis505_penn_cloud.Prelude.Decimal.{atoi}
use cis505_penn_cloud.StdMap.{StdMap, insert}
use cis505_penn_cloud.Kv.Outcome.{Outcome, ok, timeout, ◌>>=◌}
use cis505_penn_cloud.Kv.Ops.{is_empty}
use cis505_penn_cloud.Frontend.Text.{c_str, line_from, read_line, split}

-- The member `headers` is never used.
pub record HttpRequest : Type 0 where
  pub method : Bytes
  pub path : Bytes
  pub http_version : Bytes
  pub content_length : ℤ
  pub cookies : StdMap Bytes Bytes
  pub body : Bytes
  pub valid : Bool

-- A cookie: a pair that the equals sign splits.
abbrev pub add_cookie : List Bytes → HttpRequest → HttpRequest
add_cookie (name ∷ value ∷ []) req = record req { cookies = insert name value req.cookies }
add_cookie _ req = req

unfoldable pub add_cookies : List Bytes → HttpRequest → HttpRequest
add_cookies [] req = req
add_cookies (t ∷ ts) req = add_cookies ts (add_cookie (split (c_str t) b'=') req)

-- What a header line adds. The constructor declares a local `content_length` of its own, so that the
-- member is set here only.
unfoldable pub read_header : Bytes → HttpRequest → HttpRequest
unfolding add_cookies
read_header line req =
    let req1 =
      if starts_with (codes "Cookie: ") line
      then add_cookies (split (c_str (drop 8 line)) b';') req
      else req in
    if starts_with (codes "Content-Length: ") line
    then record req1 { content_length = atoi (drop 16 line) }
    else req1

-- The loop over the lines, on fuel; what it leaves is returned with the request.
unfoldable pub read_headers : ℕ → Bytes → HttpRequest → Bytes → Outcome (HttpRequest × Bytes)
unfolding read_header read_line
read_headers zero line req s = timeout
read_headers (suc fuel) line req s =
    let (next, left) = read_line s in
    let rest = read_headers fuel next (read_header line req) left in
    if is_empty line then ok (req, s) else rest

-- The bytes of the buffer behind those that were read are whatever `malloc` has returned.
abbrev pub fill : ℕ → ℕ → Bytes → Bytes
fill zero junk s = []
fill (suc n) junk [] = junk ∷ fill n junk []
fill (suc n) junk (c ∷ s) = c ∷ fill n junk s

unfoldable pub read_body : ℕ → HttpRequest × Bytes → HttpRequest
read_body junk (req, s) =
    if same req.method (codes "POST") && ltb_ℤ (pos 0) req.content_length
    then record req { body = fill (pos_part req.content_length) junk s }
    else req

-- `unset` is the request as it is allocated, and `junk` a byte of uninitialised memory.
module _ (unset : HttpRequest) (junk : ℕ) where
  abbrev pub accepted : HttpRequest → HttpRequest
  accepted req = record req { valid = true }

  abbrev pub refused : HttpRequest
  refused = record unset { valid = false }

  abbrev pub with_tokens : Bytes → Bytes → List Bytes → Outcome HttpRequest
  with_tokens line s (method ∷ path ∷ http_version ∷ []) =
      let req = record unset { method = method; path = path; http_version = http_version } in
      read_headers (length s + 2) line req s >>= λ r. ok (accepted (read_body junk r))
  with_tokens line s _ = ok refused

  unfoldable pub read_request : Bytes → Outcome HttpRequest
  unfolding read_headers read_body
  read_request input =
      let (line, s) = read_line input in
      if is_empty line then ok refused else with_tokens line s (split (c_str line) b' ')

line_from-length : (flag : Bool) (line s : Bytes) → length (line_from flag line s).1 ≤ length s
unfolding line_from
line_from-length false line [] = ground arith
line_from-length true line [] = ground arith
line_from-length false line (c ∷ s) =
    ground (arith, line_from-length true line s, line_from-length false (line ++ c ∷ []) s)
line_from-length true line (c ∷ s) = ground (arith, line_from-length false (line ++ 13 ∷ []) s)

-- A line that is not empty has taken bytes from the input.
read_line-lt-length :
    (s : Bytes) → is_empty (read_line s).0 ≡ false → length (read_line s).1 < length s
unfolding read_line line_from
read_line-lt-length [] h = cc
read_line-lt-length (c ∷ s) h =
    ground (arith, line_from-length true [] s, line_from-length false (c ∷ []) s)

read_headers_empty :
    (fuel : ℕ) (req : HttpRequest) (s : Bytes) (line : Bytes)
    → is_empty line ≡ true
    → read_headers (suc fuel) line req s ≡ ok (req, s)
unfolding read_headers
read_headers_empty fuel req s line e = rw e refl

read_headers_step :
    (fuel : ℕ) (req : HttpRequest) (s : Bytes) (line : Bytes)
    → is_empty line ≡ false
    → read_headers (suc fuel) line req s
      ≡ read_headers fuel (read_line s).0 (read_header line req) (read_line s).1
unfolding read_headers
read_headers_step fuel req s line e = rw e refl

-- The loop ends on two units of fuel more than the input has bytes.
read_headers-ends :
    (fuel : ℕ) (line : Bytes) (req : HttpRequest) (s : Bytes)
    → length s + 2 ≤ fuel
    → (r : HttpRequest × Bytes) × (read_headers fuel line req s ≡ ok r)
read_headers-ends zero line req s h = absurd (omega arith)
read_headers-ends (suc zero) line req s h = absurd (omega arith)
read_headers-ends (suc (suc fuel)) line req s h = elim (Bool-cases (is_empty line)) [
  | inl end ↦ ((req, s), read_headers_empty (suc fuel) req s line end)
  | inr more ↦
      let (next, left) = read_line s in
      let req1 = read_header line req in
      let step = read_headers_step (suc fuel) req s line more in
      elim (Bool-cases (is_empty (read_line s).0)) [
        | inl end ↦ (
          (req1, (read_line s).1),
          step ∙ read_headers_empty fuel req1 (read_line s).1 (read_line s).0 end,
        )
        | inr full ↦
            let shorter = read_line-lt-length s full in
            let (r, e) =
              read_headers-ends (suc fuel) (read_line s).0 req1 (read_line s).1 (omega arith) in
            (r, step ∙ e)
      ]
]

module _ (unset : HttpRequest) (junk : ℕ) where
  with_tokens-ends :
      (line s : Bytes) (ts : List Bytes)
      → (req : HttpRequest) × (with_tokens unset junk line s ts ≡ ok req)
  with_tokens-ends line s [] = (_, refl)
  with_tokens-ends line s (a ∷ []) = (_, refl)
  with_tokens-ends line s (a ∷ b ∷ []) = (_, refl)
  with_tokens-ends line s (a ∷ b ∷ c ∷ d ∷ ts) = (_, refl)
  with_tokens-ends line s (a ∷ b ∷ c ∷ []) =
      let req = record unset { method = a; path = b; http_version = c } in
      let (r, e) = read_headers-ends (length s + 2) line req s (omega arith) in
      (_, ap (λ o. o >>= λ r'. ok (accepted unset junk (read_body junk r'))) e)

  -- Reading a request ends on every input, whatever bytes a client sends.
  pub read_request-ends :
      (input : Bytes) → (req : HttpRequest) × (read_request unset junk input ≡ ok req)
  unfolding read_request
  read_request-ends input = elim (Bool-cases (is_empty (read_line input).0)) [
    | inl empty ↦ (refused unset junk, rw empty refl)
    | inr line ↦
        let (req, e) =
          with_tokens-ends (read_line input).0 (read_line input).1
            (split (c_str (read_line input).0) b' ') in
        (req, rw line e)
  ]
