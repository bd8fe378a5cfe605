-- ===== src/Frontend/FilePages.antt =====
-- The file handlers of frontend/response.cc, and its registration.
pub mod Uploads
pub mod Folders
use cis505_penn_cloud.Prelude.{
  ℕ, ◌+◌, ◌-◌, Bool, true, false, ◌&&◌, ◌||◌, Option, none, some, List, [], ◌∷◌, ◌++◌,
  if◌then◌else◌, length, drop, take, ltb,
}
use cis505_penn_cloud.Prelude.Ordered.{bytes_ordered, same}
use cis505_penn_cloud.Prelude.Text.{Bytes, codes, crlf, cut, starts_with}
use cis505_penn_cloud.Prelude.Decimal.{print_nat}
use cis505_penn_cloud.StdMap.{lookup, insert}
use cis505_penn_cloud.Kv.Outcome.{Outcome, ok, fault, ◌>>=◌}
use cis505_penn_cloud.Kv.Ops.{is_empty}
use cis505_penn_cloud.Frontend.Text.{c_str, find, split, extract_file_content, extract_file_name}
use cis505_penn_cloud.Frontend.Requests.{HttpRequest}
use cis505_penn_cloud.Frontend.Backend.{get_password}
use cis505_penn_cloud.Frontend.Pages.{HttpResponse, with_body, html, login_params}
use cis505_penn_cloud.Frontend.World.{
  World, text_of, at_path, curr_dir, remove, list_names, store_file, rename, ask,
}
use cis505_penn_cloud.Frontend.Mails.{substr, at}
use cis505_penn_cloud.Frontend.MailPages.{page_of, filled}

-- `s.find(p) != npos`
abbrev pub includes : Bytes → Bytes → Bool
includes p s = elim (find p s) [ none ↦ false | some _ ↦ true ]

-- `s.substr(s.find('=') + 1)`, which is all of `s` where there is no such byte.
abbrev pub behind_equals : Bytes → Bytes
behind_equals s = elim (cut b'=' s) [ none ↦ s | some (_, value) ↦ value ]

-- The values of two and of three parameters of a form.
abbrev pub two_values : List Bytes → Outcome (Bytes × Bytes)
two_values (p ∷ q ∷ _) = ok (behind_equals p, behind_equals q)
two_values _ = fault

abbrev pub three_values : List Bytes → Outcome (Bytes × Bytes × Bytes)
three_values (p ∷ q ∷ r ∷ _) = ok (behind_equals p, behind_equals q, behind_equals r)
three_values _ = fault

abbrev pub form : HttpRequest → List Bytes
form req = split (c_str req.body) b'&'

-- The name of a folder as the names of its files begin with it.
abbrev pub folder_prefix : Bytes → Bytes
folder_prefix foldername = if is_empty foldername then [] else foldername ++ codes "+"

unfoldable pub upload : World → HttpResponse → HttpResponse
upload w res = page_of w (codes "html/upload.html") res

abbrev link : Bytes → Bytes → Bytes
link target name =
    codes "<a href=\"" ++ target ++ codes "\" class=\"list-group-item\" >" ++ name ++ codes "</a>"

-- The links of a folder: `saved` is what stands behind the first plus.
unfoldable pub folder_links : Bytes → Bytes → List Bytes → Bytes
unfolding find
folder_links dir curr_folder [] = []
folder_links dir curr_folder (name ∷ names) =
    let rest = folder_links dir curr_folder names in
    let saved = elim (cut b'+' name) as (λ _. Bytes) [ none ↦ name | some (_, r) ↦ r ] in
    if includes (curr_folder ++ codes "+") name && same name (curr_folder ++ codes "+" ++ saved)
    then link (codes "?" ++ (dir ++ name)) saved ++ rest
    else rest

-- The links of the files and of the folders that are in no folder. `substr(0, n - 7)` is all of a name
-- of fewer than seven bytes.
unfoldable pub top_links : Bytes → List Bytes → Bytes × Bytes
unfolding find
top_links dir [] = ([], [])
top_links dir (name ∷ names) =
    let (files, folders) = top_links dir names in
    let folder = if ltb (length name) 7 then name else take (length name - 7) name in
    if includes (codes "+") name
    then (files, folders)
    else if includes (codes ".folder") (dir ++ name)
    then (files, link (codes "download/" ++ folder) folder ++ folders)
    else (link (codes "?" ++ (dir ++ name)) name ++ files, folders)

-- The loop of `delete_folder`.
unfoldable pub remove_folder : Bytes → Bytes → List Bytes → World → World
unfolding find
remove_folder dir foldername [] w = w
remove_folder dir foldername (name ∷ names) w =
    let inside =
      same name (foldername ++ codes ".folder") || includes (foldername ++ codes "+") name in
    remove_folder dir foldername names
      (if is_empty foldername || inside then remove (dir ++ name) w else w)

unfoldable pub content_type : Bytes → Bytes
unfolding find
content_type path =
    if includes (codes "jpeg") path || includes (codes "jpg") path
    then codes "image/jpeg"
    else if includes (codes "png") path
    then codes "image/png"
    else if includes (codes "pdf") path
    then codes "application/pdf"
    else codes "text/plain"

-- The path is that of the request: any file of the process can be had. A file that cannot be opened
-- has the size -1.
unfoldable pub download_file : HttpRequest → World → HttpResponse → Outcome HttpResponse
unfolding content_type
download_file req w res = do
  path ← substr 10 req.path
  let size = elim (lookup (at_path path) w.files) as (λ _. Bytes) [
    | none ↦ codes "-1"
    | some text ↦ print_nat (length text)
  ]
  ok (record res {
    status = codes "200 OK";
    headers =
        insert (codes "Content-Type: ") (content_type path)
          (insert (codes "Content-Length: ") size res.headers);
    body = text_of w path;
  })

-- A static file.
unfoldable pub file : Bytes → World → HttpResponse → HttpResponse
file filename w res = with_body (text_of w filename) (record res {
  status = codes "200 OK";
  headers = insert (codes "Content-Type: ") (codes "text/plain") res.headers;
})

module _ (writable : Bytes → Bool) where
  unfoldable pub create_new_folder :
      HttpRequest → World → HttpResponse → Outcome (HttpResponse × World)
  unfolding store_file
  create_new_folder req w res = do
    let foldername = behind_equals req.body ++ codes ".folder"
    dir ← curr_dir w
    let w' = store_file writable dir foldername [] w
    ok (
      filled w' (codes "html/create-new-folder-success.html")
          ((codes "$foldername", foldername) ∷ []) res,
      w',
    )

  unfoldable pub rename_file : HttpRequest → World → HttpResponse → Outcome (HttpResponse × World)
  unfolding rename
  rename_file req w res = do
    (foldername, oldname, newname) ← three_values (form req)
    dir ← curr_dir w
    let front = dir ++ folder_prefix foldername
    let w' = rename writable (front ++ oldname) (front ++ newname) w
    ok (
      filled w' (codes "html/rename-file-success.html")
          ((codes "$oldname", oldname) ∷ (codes "$newname", newname) ∷ []) res,
      w',
    )

  unfoldable pub move_file : HttpRequest → World → HttpResponse → Outcome (HttpResponse × World)
  unfolding rename
  move_file req w res = do
    (filename, oldfolder, newfolder) ← three_values (form req)
    dir ← curr_dir w
    let target = dir ++ newfolder ++ codes "+" ++ filename
    let w' = rename writable (dir ++ folder_prefix oldfolder ++ filename) target w
    ok (
      filled w' (codes "html/move-file-success.html")
          ((codes "$filename", filename) ∷ (codes "$newfolder", newfolder) ∷ []) res,
      w',
    )

unfoldable pub delete_folder : HttpRequest → World → HttpResponse → Outcome (HttpResponse × World)
unfolding remove_folder list_names
delete_folder req w res = do
  let foldername = behind_equals req.body
  dir ← curr_dir w
  let w' = remove_folder dir foldername (list_names (at_path dir) w.files) w
  ok (
    filled w' (codes "html/delete-folder-success.html") ((codes "$foldername", foldername) ∷ [])
        res,
    w',
  )

module _ (backend : Bytes → Bytes → Outcome (List Bytes)) where
  unfoldable pub handle_upload :
      (Bytes → Bool) → HttpRequest → World → HttpResponse → Outcome (HttpResponse × World)
  unfolding store_file extract_file_name extract_file_content
  handle_upload writable req w res = do
    dir ← curr_dir w
    filename ← extract_file_name req.body
    file_content ← extract_file_content req.body
    let w1 = store_file writable dir filename file_content w
    let message = codes "put " ++ w.user_name ++ b',' ∷ filename ++ b',' ∷ file_content ++ crlf
    (rep, w2) ← ask backend message w.user_name w1
    ok (page_of w2 (codes "html/upload.html") res, w2)

  unfoldable pub delete_file : HttpRequest → World → HttpResponse → Outcome (HttpResponse × World)
  delete_file req w res = do
    (foldername, filename) ← two_values (form req)
    dir ← curr_dir w
    let name = folder_prefix foldername ++ filename
    let w1 = remove (dir ++ name) w
    (rep, w2) ← ask backend (codes "dele " ++ w.user_name ++ b',' ∷ name ++ crlf) w.user_name w1
    ok (
      filled w2 (codes "html/delete-file-success.html") ((codes "$filename", filename) ∷ []) res,
      w2,
    )

  unfoldable pub download : HttpRequest → World → HttpResponse → Outcome (HttpResponse × World)
  unfolding folder_links top_links list_names
  download req w res = do
    dir ← curr_dir w
    curr_folder ← substr 9 req.path
    (rep, w') ← ask backend (codes "getlist " ++ w.user_name ++ codes ",file" ++ crlf) w.user_name w
    let names = list_names (at_path dir) w.files
    let (files, folders) = top_links dir names
    let sub =
        filled w' (codes "html/download-subfolder.html")
          ((codes "$allDownloadFiles", folder_links dir (drop 1 curr_folder) names) ∷ []) res
    let top =
        filled w' (codes "html/download.html")
          ((codes "$allDownloadFiles", files) ∷ (codes "$allFolders", folders) ∷ []) res
    ok (if is_empty curr_folder then top else sub, w')

  -- `reg`: `stale` is what is read later behind the pointer to a string that is gone, and `user_exist`
  -- stands for `is_user_exist`. The directory that is made for the user is left out.
  unfoldable pub reg :
      (Bytes → Bytes)
      → (Bytes → Outcome Bool)
      → HttpRequest
      → World
      → HttpResponse
      → Outcome (HttpResponse × World)
  reg stale user_exist req w res =
      let get = page_of w (codes "html/register.html") res in
      let post : Outcome (HttpResponse × World) = login_params (form req) >>= λ p.
      let w1 = record w {
        curr_user = some (stale (p.0 ++ codes "/"));
        asked = w.asked ++ (c_str (get_password p.0), p.0) ∷ [];
      } in
      user_exist p.0 >>= λ exists.
      let old : Outcome (HttpResponse × World) =
        ok (page_of w1 (codes "html/user-already-exist.html") res, w1) in
      let new : Outcome (HttpResponse × World) =
        ask backend (codes "put " ++ p.0 ++ codes ",pwd," ++ p.1 ++ crlf) p.0 w1 >>= λ (_, w2).
        ok (page_of w2 (codes "html/new-user.html") res, w2) in
      if exists then old else new in
      if same req.method (codes "GET")
      then ok (get, w)
      else if same req.method (codes "POST")
      then post
      else ok (html res, w)
