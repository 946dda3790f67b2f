-- ===== src/Maildir/Folders.antt =====
-- The folders of an account: folderDir, Folders, CreateFolder, DeleteFolder, EnsureStandardFolders and
-- SpecialUse of internal/maildir/mailbox.go. The disk is the set of its directories; links between them
-- are not modelled. A path is absolute and clean: its components, the innermost first. Which
-- directories the file system makes and removes are arguments.
pub mod Removing
use verta.Common.{
  Text, codes, has_prefix, to_lower, text_eq, split_on, Bool, true, false, ◌&&◌, ◌||◌, not,
  if◌then◌else◌, List, [], ◌∷◌, ◌++◌, Option, none, some, any, ℕ, ltb, ◌==◌,
}

abbrev pub DirPath : Type 0
DirPath = List Text

unfoldable pub path_eq : DirPath → DirPath → Bool
unfolding text_eq
path_eq [] [] = true
path_eq (a ∷ p) (b ∷ q) = text_eq a b && path_eq p q
path_eq _ _ = false

unfoldable pub parent : DirPath → DirPath
parent [] = []
parent (c ∷ p) = p

-- One component of what filepath.Join adds to a path.
unfoldable pub enter : DirPath → Text → DirPath
unfolding text_eq parent
enter p c =
    if text_eq c [] || text_eq c (codes ".")
    then p
    else if text_eq c (codes "..")
    then parent p
    else c ∷ p

unfoldable pub climb : DirPath → List Text → DirPath
unfolding enter
climb p [] = p
climb p (c ∷ cs) = climb (enter p c) cs

-- filepath.Join of an absolute path and a name.
unfoldable pub join_path : DirPath → Text → DirPath
unfolding climb split_on
join_path p name = climb p (split_on b'/' name)

unfoldable pub is_inbox : Text → Bool
unfolding to_lower text_eq
is_inbox folder = text_eq (to_lower folder) (codes "inbox")

unfoldable pub folder_dir : DirPath → Text → DirPath
unfolding is_inbox join_path
folder_dir root folder =
    if text_eq folder [] || is_inbox folder then root else join_path root (b'.' ∷ folder)

-- Whether a path is the directory or lies below it.
unfoldable pub is_below : DirPath → DirPath → Bool
unfolding path_eq
is_below d [] = path_eq d []
is_below d (c ∷ p) = path_eq d (c ∷ p) || is_below d p

-- os.Stat without an error
abbrev pub on_disk : DirPath → List DirPath → Bool
on_disk d = any (path_eq d)

-- os.MkdirAll: the missing directories on the way to a path, made until one fails.
unfoldable pub mkdir_all : (DirPath → Bool) → List DirPath → DirPath → List DirPath × Bool
unfolding path_eq
mkdir_all made disk [] = (disk, true)
mkdir_all made disk (c ∷ p) =
    let above = mkdir_all made disk p in
    if on_disk (c ∷ p) disk
    then (disk, true)
    else if not above.1
    then above
    else if made (c ∷ p)
    then ((c ∷ p) ∷ above.0, true)
    else (above.0, false)

-- The loop over "", tmp, new and cur.
unfoldable pub make_all : (DirPath → Bool) → List DirPath → List DirPath → List DirPath × Bool
unfolding mkdir_all
make_all made disk [] = (disk, true)
make_all made disk (d ∷ ds) =
    let rest = make_all made (mkdir_all made disk d).0 ds in
    if (mkdir_all made disk d).1 then rest else mkdir_all made disk d

abbrev pub layout : DirPath → List DirPath
layout d = d ∷ (codes "tmp" ∷ d) ∷ (codes "new" ∷ d) ∷ (codes "cur" ∷ d) ∷ []

-- The directories that are left, and whether all at and below a path are gone.
unfoldable pub remove_all : (DirPath → Bool) → DirPath → List DirPath → List DirPath × Bool
unfolding is_below
remove_all gone d [] = ([], true)
remove_all gone d (p ∷ disk) =
    let rest = remove_all gone d disk in
    if not (is_below d p)
    then (p ∷ rest.0, rest.1)
    else if gone p
    then rest
    else (p ∷ rest.0, false)

-- An error of the package, or one of the file system.
pub data FolderError : Type 0 where
  inbox_exists mailbox_exists inbox_kept no_mailbox file_error : FolderError

unfoldable pub io_result : List DirPath × Bool → List DirPath × Option FolderError
io_result r = (r.0, if r.1 then none else some file_error)

-- The disk after it, and the error.
unfoldable pub create_folder :
    (DirPath → Bool) → List DirPath → DirPath → Text → List DirPath × Option FolderError
unfolding is_inbox folder_dir make_all io_result
create_folder made disk root folder =
    if is_inbox folder
    then (disk, some inbox_exists)
    else if on_disk (folder_dir root folder) disk
    then (disk, some mailbox_exists)
    else io_result (make_all made disk (layout (folder_dir root folder)))

unfoldable pub delete_folder :
    (DirPath → Bool) → List DirPath → DirPath → Text → List DirPath × Option FolderError
unfolding is_inbox folder_dir remove_all io_result
delete_folder gone disk root folder =
    if is_inbox folder
    then (disk, some inbox_kept)
    else if not (on_disk (folder_dir root folder) disk)
    then (disk, some no_mailbox)
    else io_result (remove_all gone (folder_dir root folder) disk)

-- A folder with its special-use attribute.
abbrev pub standard_folders : List (Text × Text)
standard_folders =
    (codes "Sent", codes "\\Sent")
    ∷ (codes "Drafts", codes "\\Drafts")
    ∷ (codes "Trash", codes "\\Trash")
    ∷ (codes "Spam", codes "\\Junk")
    ∷ []

unfoldable pub use_among : Text → List (Text × Text) → Text
unfolding to_lower text_eq
use_among folder [] = []
use_among folder ((name, use_flag) ∷ rest) =
    if text_eq (to_lower folder) (to_lower name) then use_flag else use_among folder rest

unfoldable pub special_use : Text → Text
unfolding use_among
special_use folder = use_among folder standard_folders

unfoldable pub ensure_all :
    (DirPath → Bool) → DirPath → List (Text × Text) → List DirPath → List DirPath × Bool
unfolding folder_dir make_all
ensure_all made root [] disk = (disk, true)
ensure_all made root ((name, use_flag) ∷ rest) disk =
    let made_all = make_all made disk (layout (folder_dir root name)) in
    let skipped = ensure_all made root rest disk in
    let later = ensure_all made root rest made_all.0 in
    if on_disk (folder_dir root name) disk then skipped else if made_all.1 then later else made_all

unfoldable pub ensure_standard_folders :
    (DirPath → Bool) → DirPath → List DirPath → List DirPath × Bool
unfolding ensure_all
ensure_standard_folders made root disk = ensure_all made root standard_folders disk

-- OpenMailbox up to its Refresh.
unfoldable pub open_dirs : (DirPath → Bool) → List DirPath → DirPath → Text → List DirPath × Bool
unfolding make_all folder_dir
open_dirs made disk root folder = make_all made disk (layout (folder_dir root folder))

-- The folder's name behind the dot, for a directory right below the root.
unfoldable pub listed_name : DirPath → DirPath → Option Text
unfolding path_eq has_prefix text_eq
listed_name root ((c ∷ name) ∷ p) =
    if path_eq p root && c == b'.' && not (text_eq name []) && not (text_eq name (codes "."))
    then some name
    else none
listed_name root _ = none

-- String order, by bytes.
unfoldable pub text_lt : Text → Text → Bool
text_lt s [] = false
text_lt [] (c ∷ t) = true
text_lt (b ∷ s) (c ∷ t) = ltb b c || (b == c && text_lt s t)

unfoldable pub insert_name : Text → List Text → List Text
unfolding text_lt
insert_name s [] = s ∷ []
insert_name s (t ∷ ts) = let rest = insert_name s ts in if text_lt t s then t ∷ rest else s ∷ t ∷ ts

unfoldable pub folder_names : DirPath → List DirPath → List Text
unfolding listed_name insert_name
folder_names root [] = []
folder_names root (p ∷ disk) = elim (listed_name root p) [
  | none ↦ folder_names root disk
  | some name ↦ insert_name name (folder_names root disk)
]

-- INBOX and then the others; a root that is not there has none.
unfoldable pub folders : DirPath → List DirPath → List Text
unfolding folder_names
folders root disk = codes "INBOX" ∷ folder_names root disk
