-- ===== src/Frontend/FilePages/Folders.antt =====
-- What `delete_folder` of frontend/response.cc takes away.
use cis505_penn_cloud.Prelude.{
  ℕ, ◌≡◌, refl, ◌∙◌, Bool, true, false, ◌&&◌, ◌||◌, none, List, sym, ap, ◌⊎◌, inl, inr, Bool-cases,
  [], ◌∷◌, ◌++◌, arith, if◌then◌else◌,
}
use cis505_penn_cloud.Prelude.Ordered.{bytes_ordered, same, same_iff, same_refl}
use cis505_penn_cloud.Prelude.Text.{Bytes, codes, starts_with}
use cis505_penn_cloud.StdMap.{lookup, lookup-erase}
use cis505_penn_cloud.Kv.Ops.{is_empty}
use cis505_penn_cloud.Kv.Outcome.{ok}
use cis505_penn_cloud.Frontend.Text.{find}
use cis505_penn_cloud.Frontend.Requests.{HttpRequest}
use cis505_penn_cloud.Frontend.Pages.{HttpResponse}
use cis505_penn_cloud.Frontend.World.{World, at_path, curr_dir, list_names, remove}
use cis505_penn_cloud.Frontend.MailPages.{filled}
use cis505_penn_cloud.Frontend.FilePages.{includes, behind_equals, remove_folder, delete_folder}

-- The names that belong to a folder, as the loop finds them.
abbrev pub is_inside : Bytes → Bytes → Bool
is_inside foldername name =
    is_empty foldername
    || (same name (foldername ++ codes ".folder") || includes (foldername ++ codes "+") name)

-- A path of one of the names that belong to the folder.
abbrev pub takes : Bytes → Bytes → Bytes → List Bytes → Bool
takes dir foldername path [] = false
takes dir foldername path (name ∷ names) =
    is_inside foldername name && same (at_path (dir ++ name)) path
    || takes dir foldername path names

-- After the loop exactly the files of the names that belong to the folder are gone, and all others are
-- as they were.
pub remove_folder_lem :
    (dir foldername path : Bytes) (names : List Bytes) (w : World)
    → lookup path (remove_folder dir foldername names w).files
      ≡ (if takes dir foldername path names then none else lookup path w.files)
unfolding remove_folder
remove_folder_lem dir foldername path [] w = refl
remove_folder_lem dir foldername path (name ∷ names) w = ground (
  arith,
  remove_folder_lem dir foldername path names w,
  remove_folder_lem dir foldername path names (remove (dir ++ name) w),
  lookup-erase (at_path (dir ++ name)) path w.files,
)

starts_with-append : (p r : Bytes) → starts_with p (p ++ r) ≡ true
unfolding starts_with
starts_with-append [] r = refl
starts_with-append (c ∷ p) r = ground (arith, starts_with-append p r)

includes-append : (c : ℕ) (before p r : Bytes) → includes (c ∷ p) (before ++ ((c ∷ p) ++ r)) ≡ true
unfolding find
includes-append c [] p r = ground (arith, starts_with-append (c ∷ p) r)
includes-append c (b ∷ before) p r = ground (arith, includes-append c before p r)

-- A name that belongs to a folder for the deletion.
abbrev pub Inside : Bytes → Bytes → Type 0
Inside foldername name =
    (name ≡ foldername ++ codes ".folder")
    ⊎ ((before : Bytes) × (saved : Bytes) × (name ≡ before ++ ((foldername ++ codes "+") ++ saved)))

-- A path of one of the names that belong to the folder.
abbrev pub Taken : Bytes → Bytes → Bytes → List Bytes → Type 0
Taken dir foldername path names =
    (name : Bytes) × (front : List Bytes) × (back : List Bytes) × (names ≡ front ++ name ∷ back)
    × (at_path (dir ++ name) ≡ path)
    × Inside foldername name

starts_with-split : (p s : Bytes) → starts_with p s ≡ true → (r : Bytes) × (s ≡ p ++ r)
unfolding starts_with
starts_with-split [] s h = (s, refl)
starts_with-split (c ∷ p) [] h = ground (arith, h)
starts_with-split (c ∷ p) (b ∷ s) h =
    let (r, e) = starts_with-split p s (ground (arith, h)) in (r, ground (arith, h, e))

includes-split :
    (c : ℕ) (p s : Bytes)
    → includes (c ∷ p) s ≡ true
    → (before : Bytes) × (r : Bytes) × (s ≡ before ++ ((c ∷ p) ++ r))
unfolding find
includes-split c p [] h = ground (arith, h)
includes-split c p (b ∷ s) h = elim (Bool-cases (starts_with (c ∷ p) (b ∷ s))) [
  | inl found ↦ let (r, e) = starts_with-split (c ∷ p) (b ∷ s) found in ([], r, e)
  | inr later ↦
      let inside : includes (c ∷ p) s ≡ true = ground (arith, h, later) in
      let (before, r, e) = includes-split c p s inside in (b ∷ before, r, ap (λ t. b ∷ t) e)
]

Inside-is_inside :
    (c : ℕ) (foldername name : Bytes)
    → Inside (c ∷ foldername) name
    → is_inside (c ∷ foldername) name ≡ true
Inside-is_inside c foldername name (inl mark) =
    ground (arith, same_iff name (c ∷ foldername ++ codes ".folder"), mark)
Inside-is_inside c foldername name (inr (before, saved, e)) =
    rw e (ground (arith, includes-append c before (foldername ++ codes "+") saved))

is_inside-Inside :
    (c : ℕ) (foldername name : Bytes)
    → is_inside (c ∷ foldername) name ≡ true
    → Inside (c ∷ foldername) name
is_inside-Inside c foldername name h =
    elim (Bool-cases (same name (c ∷ foldername ++ codes ".folder"))) [
      | inl mark ↦ inl (ground (arith, same_iff name (c ∷ foldername ++ codes ".folder"), mark))
      | inr other ↦ inr (includes-split c (foldername ++ codes "+") name (ground (arith, h, other)))
    ]

takes-Taken :
    (dir : Bytes) (c : ℕ) (foldername path : Bytes) (names : List Bytes)
    → takes dir (c ∷ foldername) path names ≡ true
    → Taken dir (c ∷ foldername) path names
takes-Taken dir c foldername path [] h = ground (arith, h)
takes-Taken dir c foldername path (name ∷ names) h =
    let here = is_inside (c ∷ foldername) name && same (at_path (dir ++ name)) path in
    elim (Bool-cases here) [
      | inl found ↦ (
        name,
        [],
        names,
        refl,
        ground (arith, same_iff (at_path (dir ++ name)) path, found),
        is_inside-Inside c foldername name (ground (arith, found)),
      )
      | inr not_here ↦
          let (other, front, back, e, at, inside) =
            takes-Taken dir c foldername path names (ground (arith, h, not_here)) in
          (other, name ∷ front, back, ap (λ l. name ∷ l) e, at, inside)
    ]

takes_listed :
    (dir foldername name : Bytes) (front back : List Bytes)
    → is_inside foldername name ≡ true
    → takes dir foldername (at_path (dir ++ name)) (front ++ name ∷ back) ≡ true
takes_listed dir foldername name [] back h = rw (h, same_refl (at_path (dir ++ name))) refl
takes_listed dir foldername name (other ∷ front) back h =
    ground (arith, takes_listed dir foldername name front back h)

module _ (req : HttpRequest) (w : World) (res : HttpResponse) (dir : Bytes)
    (user_dir : curr_dir w ≡ ok dir) where
  abbrev listed_names : List Bytes
  listed_names = list_names (at_path dir) w.files

  abbrev pub after_deletion : World
  after_deletion = remove_folder dir (behind_equals req.body) listed_names w

  delete_folder_ok : (page : HttpResponse) × (delete_folder req w res ≡ ok (page, after_deletion))
  unfolding delete_folder
  delete_folder_ok = (
    filled after_deletion (codes "html/delete-folder-success.html")
        ((codes "$foldername", behind_equals req.body) ∷ []) res,
    rw user_dir refl,
  )

  delete_folder_lem :
      (path : Bytes)
      → (page : HttpResponse) × (w' : World) × (delete_folder req w res ≡ ok (page, w'))
        × (lookup path w'.files ≡ (
            if takes dir (behind_equals req.body) path (list_names (at_path dir) w.files)
            then none
            else lookup path w.files))
  delete_folder_lem path =
      let (page, ran) = delete_folder_ok in
      (
        page,
        after_deletion,
        ran,
        remove_folder_lem dir (behind_equals req.body) path listed_names w,
      )

  -- Where a folder is named, what its deletion takes: a path either leads to what it led to, or to
  -- nothing any more, and then it is the path of a file of the user's directory that is the folder's
  -- mark, or whose name holds the folder's name with a "+" behind it.
  pub delete_folder-Taken :
      (c : ℕ) (foldername path : Bytes)
      → behind_equals req.body ≡ c ∷ foldername
      → (page : HttpResponse) × (w' : World) × (delete_folder req w res ≡ ok (page, w'))
        × ((lookup path w'.files ≡ lookup path w.files)
            ⊎ ((lookup path w'.files ≡ none)
                × Taken dir (c ∷ foldername) path (list_names (at_path dir) w.files)))
  delete_folder-Taken c foldername path named =
      let (page, w', ran, after) = delete_folder_lem path in
      let names = list_names (at_path dir) w.files in
      (
        page,
        w',
        ran,
        elim (Bool-cases (takes dir (behind_equals req.body) path names)) [
          | inl taken ↦ inr (
            after ∙ rw taken refl,
            takes-Taken dir c foldername path names
                (sym (ap (λ f. takes dir f path names) named) ∙ taken),
          )
          | inr kept ↦ inl (after ∙ rw kept refl)
        ],
      )

  -- Where a folder is named, its deletion takes every file of the user's directory that is its mark or
  -- whose name holds the folder's name with a "+" behind it: also a file of another folder, whose name
  -- ends in this folder's name.
  pub delete_folder-Inside :
      (c : ℕ) (foldername name : Bytes) (front back : List Bytes)
      → behind_equals req.body ≡ c ∷ foldername
      → list_names (at_path dir) w.files ≡ front ++ name ∷ back
      → Inside (c ∷ foldername) name
      → (page : HttpResponse) × (w' : World) × (delete_folder req w res ≡ ok (page, w'))
        × (lookup (at_path (dir ++ name)) w'.files ≡ none)
  delete_folder-Inside c foldername name front back named listed inside =
      let path = at_path (dir ++ name) in
      let (page, w', ran, after) = delete_folder_lem path in
      let taken : takes dir (behind_equals req.body) path (list_names (at_path dir) w.files)
          ≡ true =
        rw (named, listed)
          (takes_listed dir (c ∷ foldername) name front back
            (Inside-is_inside c foldername name inside)) in
      (page, w', ran, after ∙ rw taken refl)
