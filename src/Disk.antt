-- ===== src/Disk.antt =====
-- What the program uses of the operating system's files: the functions of `os` that config/config.go and
-- sourceproc call, on a disk that is a table of files by path and a list of directories.
pub mod Laws
use streamweaver.Prelude.{
  ℕ, Bool, true, false, ◌||◌, not, Option, none, some, List, [], ◌∷◌, ◌++◌, Text, bytes, text_eq,
  text_lt, strip_prefix, contains, Table, lookup, put, without, ◌==◌, if◌then◌else◌,
}

-- A call on a path that is `broken` gives an error, and changes nothing.
pub record Disk : Type 0 where
  pub dirs : List Text
  pub files : Table Text
  pub broken : Text → Bool

unfoldable pub has_file : Text → Disk → Bool
unfolding lookup
has_file path disk = elim (lookup path disk.files) [ none ↦ false | some content ↦ true ]

-- os.MkdirAll, of which the directory itself counts here.
unfoldable pub mkdir_all : Text → Disk → Option Disk
mkdir_all path disk =
    if disk.broken path then none else some (record disk { dirs = path ∷ disk.dirs })

-- os.OpenFile with O_CREATE and O_TRUNC, or os.Create, with what is written through it later.
unfoldable pub create : Text → Text → Disk → Option Disk
unfolding put
create path content disk =
    if disk.broken path then none else some (record disk { files = put path content disk.files })

unfoldable pub remove : Text → Disk → Option Disk
unfolding without has_file
remove path disk =
    if disk.broken path || not (has_file path disk)
    then none
    else some (record disk { files = without path disk.files })

unfoldable pub rename : Text → Text → Disk → Option Disk
unfolding put without lookup
rename from to disk = elim (lookup from disk.files) [
  | none ↦ none
  | some content ↦
      if disk.broken from || disk.broken to
      then none
      else some (record disk { files = put to content (without from disk.files) })
]

-- The disk after a call whose error is not looked at, or only logged.
abbrev pub or_same : Option Disk → Disk → Disk
or_same none disk = disk
or_same (some disk') disk = disk'

abbrev pub under : Text → Text → Text
under dir name = dir ++ b'/' ∷ name

unfoldable pub has_slash : Text → Bool
has_slash [] = false
has_slash (c ∷ s) = c == b'/' || has_slash s

-- The name of a path that is directly in a directory.
unfoldable pub name_in : Text → Text → Option Text
unfolding strip_prefix has_slash
name_in dir path = elim (strip_prefix (dir ++ bytes "/") path) [
  | none ↦ none
  | some name ↦ if has_slash name then none else some name
]

pub record DirEntry : Type 0 where
  pub name : Text
  pub is_dir : Bool

-- The entries of a directory are in the order of their names.
unfoldable pub insert_entry : DirEntry → List DirEntry → List DirEntry
unfolding text_lt
insert_entry e [] = e ∷ []
insert_entry e (f ∷ fs) =
    let rest = insert_entry e fs in if text_lt f.name e.name then f ∷ rest else e ∷ f ∷ fs

unfoldable pub file_entries : Text → Table Text → List DirEntry
unfolding insert_entry name_in
file_entries dir [] = []
file_entries dir ((path, content) ∷ files) =
    let rest = file_entries dir files in
    elim (name_in dir path) [
      | none ↦ rest
      | some name ↦ insert_entry (record { name = name; is_dir = false }) rest
    ]

unfoldable pub dir_entries : Text → List Text → List DirEntry → List DirEntry
unfolding insert_entry name_in
dir_entries dir [] entries = entries
dir_entries dir (path ∷ dirs) entries =
    let rest = dir_entries dir dirs entries in
    elim (name_in dir path) [
      | none ↦ rest
      | some name ↦ insert_entry (record { name = name; is_dir = true }) rest
    ]

-- os.ReadDir.
unfoldable pub read_dir : Text → Disk → Option (List DirEntry)
unfolding file_entries dir_entries contains
read_dir dir disk =
    if contains disk.dirs dir
    then some (dir_entries dir disk.dirs (file_entries dir disk.files))
    else none

-- The files and directories that are not in a directory or below it.
unfoldable pub outside {ℓ} : {V : Type ℓ} → Text → Table V → Table V
unfolding strip_prefix
outside dir [] = []
outside dir ((path, v) ∷ m) =
    let rest = outside dir m in
    elim (strip_prefix (dir ++ bytes "/") path) [ none ↦ (path, v) ∷ rest | some below ↦ rest ]

unfoldable pub outside_dirs : Text → List Text → List Text
unfolding strip_prefix text_eq
outside_dirs dir [] = []
outside_dirs dir (path ∷ dirs) =
    let rest = outside_dirs dir dirs in
    elim (strip_prefix (dir ++ bytes "/") path) [
      | none ↦ if text_eq path dir then rest else path ∷ rest
      | some below ↦ rest
    ]

-- os.RemoveAll of a directory, where nothing is broken.
unfoldable pub remove_all : Text → Disk → Disk
unfolding outside outside_dirs
remove_all dir disk = record disk {
  files = outside dir disk.files;
  dirs = outside_dirs dir disk.dirs;
}
