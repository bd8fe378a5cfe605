-- ===== src/Frontend/Requests/RoundTrip.antt =====
-- A request as a client writes it, through the constructor of frontend/request.cc.
use cis505_penn_cloud.Prelude.{
  ℕ, zero, suc, ◌+◌, ◌≤◌, ◌≡◌, refl, sym, ap, ◌∙◌, false, List, [], ◌∷◌, ◌++◌, arith, All, drop,
  length, length-append, append_assoc,
}
use cis505_penn_cloud.Prelude.Text.{Bytes, crlf, has}
use cis505_penn_cloud.Kv.Outcome.{ok, ◌>>=◌}
use cis505_penn_cloud.Kv.Ops.{is_empty}
use cis505_penn_cloud.Frontend.Text.{c_str, read_line, split}
use cis505_penn_cloud.Frontend.Lines.{c_str-plain, read_line-append, split-joined}
use cis505_penn_cloud.Frontend.Backend.{lines_text}
use cis505_penn_cloud.Frontend.Requests.{
  HttpRequest, read_header, read_headers, read_body, read_request, accepted, add_cookie,
  add_cookies,
}

-- A line that a client may send before the body.
abbrev pub IsHeaderLine : Bytes → Type 0
IsHeaderLine l = (has 13 l ≡ false) × (has 10 l ≡ false) × (is_empty l ≡ false)

-- What the lines of a request add to it, one after the other.
abbrev pub with_headers : List Bytes → HttpRequest → HttpRequest
with_headers [] req = req
with_headers (l ∷ ls) req = with_headers ls (read_header l req)

read_headers_step :
    (fuel : ℕ) (line next rest s : Bytes) (req : HttpRequest)
    → is_empty line ≡ false
    → read_line s ≡ (next, rest)
    → read_headers (suc fuel) line req s ≡ read_headers fuel next (read_header line req) rest
unfolding read_headers
read_headers_step fuel line next rest s req h e = rw (h, e) refl

-- The lines up to the empty one are taken as headers, and what stands behind it is left.
read_headers-lines :
    (fuel : ℕ) (line : Bytes) (ls : List Bytes) (body : Bytes) (req : HttpRequest)
    → is_empty line ≡ false
    → All IsHeaderLine ls
    → length ls + 2 ≤ fuel
    → read_headers fuel line req (lines_text ls ++ (crlf ++ body))
      ≡ ok (with_headers (line ∷ ls) req, body)
unfolding read_headers has
read_headers-lines zero line ls body req e h f = absurd (omega (arith, f))
read_headers-lines (suc zero) line ls body req e h f = absurd (omega (arith, f))
read_headers-lines (suc (suc fuel)) line [] body req e h f =
    read_headers_step (suc fuel) line [] body (crlf ++ body) req e
      (read_line-append [] body refl refl).0
read_headers-lines (suc (suc fuel)) line (l ∷ ls) body req e h f =
    read_headers_step (suc fuel) line l (lines_text ls ++ (crlf ++ body))
      (((l ++ crlf) ++ lines_text ls) ++ (crlf ++ body)) req e
      (ap read_line (append_assoc (l ++ crlf) (lines_text ls) (crlf ++ body))
        ∙ (read_line-append l (lines_text ls ++ (crlf ++ body)) h.0.0 h.0.1).0)
    ∙ read_headers-lines (suc fuel) l ls body (read_header line req) h.0.2 h.1 (omega (arith, f))

length-lines_text : (ls : List Bytes) → length ls ≤ length (lines_text ls)
length-lines_text [] = omega arith
length-lines_text (l ∷ ls) =
    omega
      (arith, length-append (l ++ crlf) (lines_text ls), length-append l crlf, length-lines_text ls)

abbrev pub request_line : Bytes → Bytes → Bytes → Bytes
request_line method path version = method ++ b' ' ∷ (path ++ b' ' ∷ version)

-- A request: its first line, its headers, an empty line and its body.
abbrev pub request_text : Bytes → Bytes → Bytes → List Bytes → Bytes → Bytes
request_text method path version headers body =
    request_line method path version ++ crlf ++ (lines_text headers ++ (crlf ++ body))

split-request_line :
    (method path version : Bytes)
    → has b' ' method ≡ false
    → has b' ' path ≡ false
    → has b' ' version ≡ false
    → is_empty version ≡ false
    → split (request_line method path version) b' ' ≡ method ∷ path ∷ version ∷ []
split-request_line method path version hm hp hv e =
    let front = path ++ b' ' ∷ [] in
    let same_line : (method ++ b' ' ∷ front) ++ version ≡ request_line method path version =
      append_assoc method (b' ' ∷ front) version
      ∙ ap (λ l. method ++ b' ' ∷ l) (append_assoc path (b' ' ∷ []) version) in
    ap (λ l. split l b' ') (sym same_line)
    ∙ split-joined b' ' (method ∷ path ∷ []) version (hm, (hp, tt)) hv
    ∙ rw e refl

module _ (unset : HttpRequest) (junk : ℕ) where
  -- A request that a client writes is read with its method, path and version, with what each of its
  -- lines adds in their order, and with what stands behind them for its body. No piece of the first line
  -- holds a space or a zero byte, and no line a line end.
  pub read_request-request_text :
      (method path version body : Bytes) (headers : List Bytes)
      → has b' ' method ≡ false
      → has b' ' path ≡ false
      → has b' ' version ≡ false
      → is_empty version ≡ false
      → has 0 (request_line method path version) ≡ false
      → IsHeaderLine (request_line method path version)
      → All IsHeaderLine headers
      → let req = record unset { method = method; path = path; http_version = version } in
        read_request unset junk (request_text method path version headers body)
        ≡ ok (
            accepted unset junk (
              read_body junk (with_headers (request_line method path version ∷ headers) req, body)))
  unfolding read_request
  read_request-request_text method path version body headers hm hp hv e hz hl hs =
      let line = request_line method path version in
      let s = lines_text headers ++ (crlf ++ body) in
      let first : read_line (request_text method path version headers body) ≡ (line, s) =
        (read_line-append line s hl.0 hl.1).0 in
      let req = record unset { method = method; path = path; http_version = version } in
      let sized : length headers + 2 ≤ length s + 2 =
        omega
          (arith, length-lines_text headers, length-append (lines_text headers) (crlf ++ body)) in
      rw (first, hl.2, c_str-plain line hz, split-request_line method path version hm hp hv e)
        (ap (λ o. o >>= λ r. ok (accepted unset junk (read_body junk r)))
          (read_headers-lines (length s + 2) line headers body req hl.2 hs sized))

path-add_cookie : (ts : List Bytes) (req : HttpRequest) → (add_cookie ts req).path ≡ req.path
path-add_cookie [] req = refl
path-add_cookie (a ∷ []) req = refl
path-add_cookie (a ∷ b ∷ []) req = refl
path-add_cookie (a ∷ b ∷ c ∷ ts) req = refl

path-add_cookies : (ts : List Bytes) (req : HttpRequest) → (add_cookies ts req).path ≡ req.path
unfolding add_cookies
path-add_cookies [] req = refl
path-add_cookies (t ∷ ts) req =
    path-add_cookies ts (add_cookie (split (c_str t) b'=') req)
    ∙ path-add_cookie (split (c_str t) b'=') req

path-with_headers : (ls : List Bytes) (req : HttpRequest) → (with_headers ls req).path ≡ req.path
unfolding read_header
path-with_headers [] req = refl
path-with_headers (l ∷ ls) req =
    path-with_headers ls (read_header l req)
    ∙ ground (arith, path-add_cookies (split (c_str (drop 8 l)) b';') req)

-- The lines and the body of a request leave its path.
pub path-read_body :
    (junk : ℕ) (ls : List Bytes) (req : HttpRequest) (body : Bytes)
    → (read_body junk (with_headers ls req, body)).path ≡ req.path
unfolding read_body
path-read_body junk ls req body = ground (arith, path-with_headers ls req)
