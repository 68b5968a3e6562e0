-- ===== src/Paths.antt =====
-- config/config.go: the directories of the program, and the processed playlists among them. A directory's
-- path is as filepath.Join gives it: `under dir name` is then the path of a file.
pub mod Latest
pub mod Clearing
mod Examples
use streamweaver.Prelude.{
  ℕ, Bool, true, false, Option, none, some, List, [], ◌∷◌, ◌++◌, ◌-◌, Text, bytes, text_eq,
  has_suffix, length, get_elem?, if◌then◌else◌,
}
use streamweaver.Disk.{Disk, DirEntry, under, remove, read_dir}

pub record Config : Type 0 where
  pub data_path : Text
  pub temp_path : Text

-- The values of two variables of the environment.
unfoldable pub new_config : Option Text → Option Text → Config
new_config data_value temp_value = record {
  data_path = elim data_value [ none ↦ bytes "./data" | some value ↦ value ];
  temp_path = elim temp_value [ none ↦ bytes "./temp" | some value ↦ value ];
}

-- filepath.Join puts its parts together and cleans them.
module _ (clean : Text → Text) where
  unfoldable pub get_processed_dir_path : Config → Text
  get_processed_dir_path c = clean (under c.data_path (bytes "processed/"))

  unfoldable pub get_streams_dir_path : Config → Text
  get_streams_dir_path c = clean (under c.data_path (bytes "streams/"))

  unfoldable pub get_sources_dir_path : Config → Text
  get_sources_dir_path c = clean (under c.temp_path (bytes "sources/"))

  unfoldable pub get_sort_dir_path : Config → Text
  get_sort_dir_path c = clean (under c.temp_path (bytes "sorter/"))

-- From here on `dir` is a directory as it is given above, so that nothing is left to clean. `now` is the time as
-- 20060102150405.
unfoldable pub get_new_m3u_path : Text → Text → Text
get_new_m3u_path dir now = under dir (now ++ bytes ".m3u")

unfoldable pub get_m3u_file_path_by_index : Text → Text → Text
get_m3u_file_path_by_index dir m3u_index = under dir (m3u_index ++ bytes ".m3u")

-- The entries that are no temporary files.
unfoldable pub valid_files : List DirEntry → List DirEntry
unfolding has_suffix
valid_files [] = []
valid_files (e ∷ es) =
    let rest = valid_files es in if has_suffix e.name (bytes ".tmp") then rest else e ∷ rest

-- A path, an error, or the panic of an index that is out of range.
pub data Found : Type 0 where
  found : Text → Found
  failed panicked : Found

abbrev pub name_of : Option DirEntry → Found
name_of none = panicked
name_of (some e) = found e.name

unfoldable pub latest_of : List DirEntry → Found
unfolding valid_files
latest_of [] = failed
latest_of (e ∷ es) = name_of (get_elem? (valid_files (e ∷ es)) (length (e ∷ es) - 1))

unfoldable pub get_latest_processed_m3u_path : Text → Disk → Found
unfolding read_dir latest_of
get_latest_processed_m3u_path dir disk = elim (read_dir dir disk) [
  | none ↦ failed
  | some files ↦ latest_of files
]

-- The disk, and whether there was no error: an error ends the loop.
unfoldable pub clear_entries : Text → Text → List DirEntry → Disk → Disk × Bool
unfolding remove text_eq
clear_entries dir latest [] disk = (disk, true)
clear_entries dir latest (e ∷ es) disk = elim e.is_dir [
  | true ↦ clear_entries dir latest es disk
  | false ↦ elim (text_eq (under dir e.name) latest) [
    | true ↦ clear_entries dir latest es disk
    | false ↦ elim (remove (under dir e.name) disk) [
      | none ↦ (disk, false)
      | some disk' ↦ clear_entries dir latest es disk'
    ]
  ]
]

unfoldable pub clear_old_processed_m3u : Text → Text → Disk → Disk × Bool
unfolding read_dir clear_entries
clear_old_processed_m3u dir latest disk = elim (read_dir dir disk) [
  | none ↦ (disk, false)
  | some files ↦ clear_entries dir latest files disk
]
