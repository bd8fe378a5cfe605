-- ===== src/Frontend/World.antt =====
-- What the handlers of frontend/response.cc work on: the globals of the process, the local files, and
-- what has been sent to the storage nodes and to the mail server.
use cis505_penn_cloud.Prelude.{
  Bool, not, ◌&&◌, Option, none, some, List, [], ◌∷◌, ◌++◌, if◌then◌else◌, length, drop,
}
use cis505_penn_cloud.Prelude.Ordered.{bytes_ordered, same}
use cis505_penn_cloud.Prelude.Text.{Bytes, codes, has, starts_with}
use cis505_penn_cloud.StdMap.{StdMap, lookup, insert, erase, lookup_or, contains}
use cis505_penn_cloud.Kv.Outcome.{Outcome, ok, fault, ◌>>=◌}
use cis505_penn_cloud.Frontend.Text.{c_str}
use cis505_penn_cloud.Frontend.Backend.{Sessions}
use cis505_penn_cloud.Frontend.Servers.{Servers}

-- `curr_user` is a null pointer at first. Later it points at a string that is gone: what is read
-- there then is kept here.
pub record World : Type 0 where
  pub user_name : Bytes
  pub curr_user : Option Bytes
  pub sessions : Sessions
  pub frontend_servers : Servers
  pub backend_servers : Servers
  pub files : StdMap Bytes Bytes
  pub asked : List (Bytes × Bytes)
  pub mailed : List Bytes

-- `string dir(curr_user)` throws on a null pointer.
abbrev pub curr_dir : World → Outcome Bytes
curr_dir w = elim w.curr_user [ none ↦ fault | some dir ↦ ok dir ]

-- A path as the file system reads it: up to a zero byte, and below the current directory.
abbrev pub at_path : Bytes → Bytes
at_path path = let s = c_str path in if starts_with (codes "./") s then drop 2 s else s

-- `get_file_content_as_string`: empty where the file cannot be opened.
abbrev pub text_of : World → Bytes → Bytes
text_of w path = lookup_or [] (at_path path) w.files

abbrev pub is_file_exist : World → Bytes → Bool
is_file_exist w path = contains (at_path path) w.files

-- `remove`
abbrev pub remove : Bytes → World → World
remove path w = record w { files = erase (at_path path) w.files }

-- The name of a file right below the directory, if it does not begin with a dot.
abbrev pub name_below : Bytes → Bytes → Option Bytes
name_below dir path =
    let name = drop (length dir) path in
    if starts_with dir path && not (has b'/' name) && not (starts_with (codes ".") name)
    then some name
    else none

-- `list_all_files`, in the order of the map; the directory's path ends in a slash.
unfoldable pub list_names : Bytes → StdMap Bytes Bytes → List Bytes
list_names dir [] = []
list_names dir ((path, _) ∷ files) = elim (name_below dir path) [
  | none ↦ list_names dir files
  | some name ↦ name ∷ list_names dir files
]

-- `writable` says where the file system lets a file be created, and `backend` is `send_to_backend`.
module _ (writable : Bytes → Bool) where
  -- `store_file`: a stream that cannot be opened writes nothing.
  unfoldable pub store_file : Bytes → Bytes → Bytes → World → World
  store_file dir filename file_content w =
      let path = at_path (dir ++ filename) in
      if writable path then record w { files = insert path file_content w.files } else w

  -- `rename` replaces what is there, and does nothing where there is no such file.
  unfoldable pub rename : Bytes → Bytes → World → World
  rename old_path new_path w =
      let old = at_path old_path in
      let new = at_path new_path in
      elim (lookup old w.files) [
        | none ↦ w
        | some text ↦
            if writable new && not (same old new)
            then record w { files = insert new text (erase old w.files) }
            else w
      ]

module _ (backend : Bytes → Bytes → Outcome (List Bytes)) where
  unfoldable pub ask : Bytes → Bytes → World → Outcome (List Bytes × World)
  ask message user w = backend message user >>= λ rep.
      ok (rep, record w { asked = w.asked ++ (c_str message, user) ∷ [] })
