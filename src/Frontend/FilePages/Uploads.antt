-- ===== src/Frontend/FilePages/Uploads.antt =====
-- A file that is uploaded and downloaded again through frontend/response.cc.
use cis505_penn_cloud.Prelude.{
  ◌≡◌, refl, ap, ◌∙◌, Bool, true, some, List, [], ◌∷◌, ◌++◌, arith, length,
}
use cis505_penn_cloud.Prelude.Ordered.{bytes_ordered}
use cis505_penn_cloud.Prelude.Text.{Bytes, codes, crlf}
use cis505_penn_cloud.Prelude.Decimal.{print_nat}
use cis505_penn_cloud.StdMap.{lookup, insert, lookup-insert, lookup-insert_self}
use cis505_penn_cloud.Kv.Outcome.{Outcome, ok}
use cis505_penn_cloud.Frontend.Text.{c_str, extract_file_content, extract_file_name}
use cis505_penn_cloud.Frontend.Requests.{HttpRequest}
use cis505_penn_cloud.Frontend.Pages.{HttpResponse}
use cis505_penn_cloud.Frontend.World.{World, at_path, curr_dir, text_of, store_file, ask}
use cis505_penn_cloud.Frontend.FilePages.{handle_upload, download_file, content_type}
use cis505_penn_cloud.Frontend.MailPages.{page_of}
use cis505_penn_cloud.Frontend.Mails.{substr}
use cis505_penn_cloud.Frontend.Mails.Reading.{substr-append}

store_file_lem :
    (writable : Bytes → Bool) (dir name text : Bytes) (w : World)
    → writable (at_path (dir ++ name)) ≡ true
    → store_file writable dir name text w
      ≡ record w { files = insert (at_path (dir ++ name)) text w.files }
unfolding store_file
store_file_lem writable dir name text w h = rw h refl

abbrev stored : Bytes → Bytes → World → World
stored path text w = record w { files = insert path text w.files }

abbrev pub upload_message : World → Bytes → Bytes → Bytes
upload_message w name text = codes "put " ++ w.user_name ++ b',' ∷ name ++ b',' ∷ text ++ crlf

module _ (backend : Bytes → Bytes → Outcome (List Bytes)) (writable : Bytes → Bool)
    (req : HttpRequest) (w : World) (res : HttpResponse) (dir name text : Bytes)
    (rep : List Bytes) where
  handle_upload_lem :
      curr_dir w ≡ ok dir
      → extract_file_name req.body ≡ ok name
      → extract_file_content req.body ≡ ok text
      → writable (at_path (dir ++ name)) ≡ true
      → backend (upload_message w name text) w.user_name ≡ ok rep
      → let w1 = stored (at_path (dir ++ name)) text w in
        let w2 = record w1 {
          asked = w.asked ++ (c_str (upload_message w name text), w.user_name) ∷ [];
        } in
        handle_upload backend writable req w res
        ≡ ok (page_of w2 (codes "html/upload.html") res, w2)
  unfolding handle_upload ask
  handle_upload_lem d n c h b = rw (d, n, c, store_file_lem writable dir name text w h, b) refl

abbrev download_path : Bytes → Bytes
download_path path = codes "/download?" ++ path

abbrev pub length_header : Bytes
length_header = codes "Content-Length: "

abbrev text_page : HttpResponse → Bytes → Bytes → HttpResponse
text_page res path text = record res {
  status = codes "200 OK";
  headers =
      insert (codes "Content-Type: ") (content_type path)
        (insert length_header (print_nat (length text)) res.headers);
  body = text;
}

download_file_lem :
    (req : HttpRequest) (w : World) (res : HttpResponse) (path text : Bytes)
    → req.path ≡ download_path path
    → lookup (at_path path) w.files ≡ some text
    → download_file req w res ≡ ok (text_page res path text)
unfolding download_file
download_file_lem req w res path text e found =
    let named : substr 10 req.path ≡ ok path =
      ap (substr 10) e ∙ substr-append (codes "/download?") path in
    let body : text_of w path ≡ text = ground (arith, found) in
    rw (named, found) (ap (λ b. ok (record (text_page res path text) { body = b })) body)

length_of_page :
    (res : HttpResponse) (path text : Bytes)
    → lookup length_header (text_page res path text).headers ≡ some (print_nat (length text))
length_of_page res path text =
    lookup-insert (codes "Content-Type: ") length_header (content_type path) _
    ∙ lookup-insert_self length_header (print_nat (length text)) res.headers

module _ (backend : Bytes → Bytes → Outcome (List Bytes)) (writable : Bytes → Bool)
    (req : HttpRequest) (w : World) (res : HttpResponse) (dir name text : Bytes)
    (rep : List Bytes) where
  -- An uploaded file is stored in the user's directory, and the page that downloads its path gives the
  -- very text, with its length. The user's storage node is sent the message that puts it under its name,
  -- only up to the message's first zero byte. The form names the file and its text, the file can be
  -- written, and the node answers.
  pub download_file-handle_upload :
      (later : HttpRequest) (later_res : HttpResponse)
      → curr_dir w ≡ ok dir
      → extract_file_name req.body ≡ ok name
      → extract_file_content req.body ≡ ok text
      → writable (at_path (dir ++ name)) ≡ true
      → backend (upload_message w name text) w.user_name ≡ ok rep
      → later.path ≡ codes "/download?" ++ (dir ++ name)
      → (page : HttpResponse) × (w' : World) × (file : HttpResponse) × (handle_upload backend
            writable req w res
          ≡ ok (page, w'))
        × (w'.asked ≡ w.asked ++ (c_str (upload_message w name text), w.user_name) ∷ [])
        × (download_file later w' later_res ≡ ok file)
        × (file.body ≡ text)
        × (lookup length_header file.headers ≡ some (print_nat (length text)))
  download_file-handle_upload later later_res d n c h b e =
      let path = dir ++ name in
      let w1 = stored (at_path path) text w in
      let w2 = record w1 {
        asked = w.asked ++ (c_str (upload_message w name text), w.user_name) ∷ [];
      } in
      (
        page_of w2 (codes "html/upload.html") res,
        w2,
        text_page later_res path text,
        handle_upload_lem backend writable req w res dir name text rep d n c h b,
        refl,
        download_file_lem later w2 later_res path text e
            (lookup-insert_self (at_path path) text w.files),
        refl,
        length_of_page later_res path text,
      )
