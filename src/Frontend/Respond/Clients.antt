-- ===== src/Frontend/Respond/Clients.antt =====
-- What a client gets for the bytes of a request, through frontend/frontend.cc.
use cis505_penn_cloud.Prelude.{
  ◌≡◌, refl, ap, ◌∙◌, true, false, some, List, [], ◌∷◌, ◌++◌, All, if◌then◌else◌,
}
use cis505_penn_cloud.Prelude.Ordered.{bytes_ordered, same}
use cis505_penn_cloud.Prelude.Text.{Bytes, codes, crlf, has}
use cis505_penn_cloud.StdMap.{lookup}
use cis505_penn_cloud.Kv.Outcome.{Outcome, ok, ◌>>=◌}
use cis505_penn_cloud.Kv.Ops.{is_empty}
use cis505_penn_cloud.Frontend.Requests.{HttpRequest, read_body, accepted, read_request}
use cis505_penn_cloud.Frontend.Requests.RoundTrip.{
  IsHeaderLine, request_line, request_text, with_headers, path-read_body, read_request-request_text,
}
use cis505_penn_cloud.Frontend.Pages.{HttpResponse, header_text, reply}
use cis505_penn_cloud.Frontend.World.{World, at_path}
use cis505_penn_cloud.Frontend.Respond.{Services, respond, client_handler}
use cis505_penn_cloud.Frontend.Respond.Guests.{respond-static}

module _ (by : Services) (unset : HttpRequest) (w : World) where
  client_handler-valid :
      (input : Bytes) (req : HttpRequest) (res : HttpResponse) (w' : World)
      → read_request unset by.junk input ≡ ok req
      → req.valid ≡ true
      → respond by req w ≡ ok (res, w')
      → client_handler by unset input w ≡ ok (reply res, w')
  unfolding client_handler
  client_handler-valid input req res w' read valid e =
      let answered : HttpRequest → Outcome (Bytes × World) =
        λ r. respond by r w >>= λ p. ok (reply p.0, p.1) in
      ap (λ o. o >>= λ r. if r.valid then answered r else ok ([], w)) read
      ∙ ap (λ b. if b then answered req else ok ([], w)) valid
      ∙ ap (λ o. o >>= λ p. ok (reply p.0, p.1)) e

  -- Whoever sends a request for a path at which a file stands gets the text of the file behind the
  -- headers of the reply, whatever the cookies and the body are: nothing asks for a login. The first line
  -- is three pieces that hold no space, and no zero byte or line end.
  pub client_handler-static :
      (method path version body text : Bytes) (headers : List Bytes)
      → has b' ' method ≡ false
      → has b' ' path ≡ false
      → has b' ' version ≡ false
      → is_empty version ≡ false
      → has 0 (request_line method path version) ≡ false
      → IsHeaderLine (request_line method path version)
      → All IsHeaderLine headers
      → same path (codes "/") ≡ false
      → lookup (at_path (by.stale (b'.' ∷ path))) w.files ≡ some text
      → (front : Bytes) × (w' : World) × (client_handler by unset
            (request_text method path version headers body)
            w
          ≡ ok (front ++ text, w'))
  unfolding reply
  client_handler-static method path version body text headers hm hp hv e hz hl hs home found =
      let base = record unset { method = method; path = path; http_version = version } in
      let lines = request_line method path version ∷ headers in
      let req = accepted unset by.junk (read_body by.junk (with_headers lines base, body)) in
      let same_path : req.path ≡ path = path-read_body by.junk lines base body in
      let (res, w', ran, shown) =
        respond-static by req w text (ap (λ p. same p (codes "/")) same_path ∙ home)
          (ap (λ p. lookup (at_path (by.stale (b'.' ∷ p))) w.files) same_path ∙ found) in
      let head = res.http_version ++ b' ' ∷ res.status ++ crlf ++ header_text res.headers ++ crlf in
      (
        head,
        w',
        client_handler-valid (request_text method path version headers body) req res w'
              (read_request-request_text unset by.junk method path version body headers hm hp hv e
                hz hl hs)
              refl ran
            ∙ ap (λ b. ok (head ++ b, w')) shown,
      )
