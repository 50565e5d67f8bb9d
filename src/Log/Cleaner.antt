-- ===== src/Log/Cleaner.antt =====
-- The deletion of the log files of a project (mcproc/src/daemon/log/cleaner.rs). A directory is its
-- entries; which files and directories the system lets go is a function.
pub mod Deleted
pub mod Extension
use mcproc.Prelude.{
  ℕ, Bool, true, false, not, ◌&&◌, List, [], ◌∷◌, map, filter, Option, none, some, ◌==◌,
  if◌then◌else◌, is_empty, Text, codes, text_eq, contains_text,
}
use mcproc.Names.LogPath.{join}
use mcproc.Process.Registry.{sort}

-- An entry of `read_dir` that could be read; `is_file` is `file_type().is_ok_and(|t| t.is_file())`.
pub record DirEntry : Type 0 where
  pub name : Text
  pub is_file : Bool

-- `rsplit_file_at_dot`: around the last dot of a name.
unfoldable pub behind_first : ℕ → Option (Text × Text) → Option (Text × Text) → Option (Text × Text)
behind_first c none here = here
behind_first c (some (before, after)) here = some (c ∷ before, after)

unfoldable pub split_last_dot : Text → Option (Text × Text)
unfolding behind_first
split_last_dot [] = none
split_last_dot (c ∷ s) =
    behind_first c (split_last_dot s) (if c == b'.' then some ([], s) else none)

-- `Path::extension`, of a path that ends in this name: none where nothing stands in front of the dot.
unfoldable pub dot_extension : Option (Text × Text) → Option Text
dot_extension none = none
dot_extension (some ([], after)) = none
dot_extension (some (c ∷ before, after)) = some after

unfoldable pub extension : Text → Option Text
unfolding dot_extension split_last_dot
extension name = dot_extension (split_last_dot name)

unfoldable pub is_log : Option Text → Bool
is_log none = false
is_log (some e) = text_eq e (codes "log")

unfoldable pub is_log_file : DirEntry → Bool
unfolding is_log extension
is_log_file e = e.is_file && is_log (extension e.name)

-- `entry.path()`
unfoldable pub path : Text → DirEntry → Text
path dir e = join dir e.name

unfoldable pub is_candidate : Text → List Text → DirEntry → Bool
unfolding is_log_file path
is_candidate dir exclude e = is_log_file e && not (contains_text (path dir e) exclude)

unfoldable pub candidates : Text → List Text → List DirEntry → List Text
unfolding is_candidate path
candidates dir exclude entries = sort (map (path dir) (filter (is_candidate dir exclude) entries))

-- `fs::remove_file` of a file of the directory that the system lets go.
unfoldable pub without : Text → Text → List DirEntry → List DirEntry
unfolding path
without dir p entries = filter (λ e. not (text_eq p (path dir e))) entries

-- The loop over the candidates: the paths that were deleted, and what is left.
unfoldable pub remove_files :
    (Text → Bool) → Text → List Text → List DirEntry → List Text × List DirEntry
unfolding without
remove_files permits dir [] entries = ([], entries)
remove_files permits dir (p ∷ ps) entries = elim (permits p) [
  | true ↦
      let (deleted, rest) = remove_files permits dir ps (without dir p entries) in
      (p ∷ deleted, rest)
  | false ↦ remove_files permits dir ps entries
]

-- A directory that is empty goes too.
unfoldable pub remove_dir : (Text → Bool) → Text → List DirEntry → Option (List DirEntry)
remove_dir permits dir entries = if is_empty entries && permits dir then none else some entries

-- `none` is a directory that is missing or cannot be read.
unfoldable pub delete_project_logs :
    (Text → Bool) → Text → List Text → Option (List DirEntry) → List Text × Option (List DirEntry)
unfolding candidates remove_files remove_dir
delete_project_logs permits dir exclude none = ([], none)
delete_project_logs permits dir exclude (some entries) =
    let (deleted, rest) = remove_files permits dir (candidates dir exclude entries) entries in
    (deleted, remove_dir permits dir rest)
