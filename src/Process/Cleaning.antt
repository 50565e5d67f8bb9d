-- ===== src/Process/Cleaning.antt =====
-- Cleaning a project: its processes are stopped and its log files deleted (`clean_project` and
-- `clean_all_projects` of mcproc/src/daemon/process/manager.rs).
pub mod Keeps
pub mod Project
use mcproc.Prelude.{
  ℕ, Bool, true, false, List, [], ◌∷◌, ◌++◌, map, Option, none, some, if◌then◌else◌, length, Text,
  codes, Dict, lookup, insert, remove,
}
use mcproc.Names.ProcessKey
use mcproc.Names.LogPath.{join, get_log_file_path_for_key}
use mcproc.Process.Proxy.{ProxyInfo}
use mcproc.Process.Registry.{
  ProcessRegistry, get_processes_by_project, get_all_projects, sort, dedup,
}
use mcproc.Process.Events.{ProcessEvent}
use mcproc.Process.Lifecycle.{
  Attempt, StopResult, removed, process_not_found, stop_error, stop_process,
}
use mcproc.Log.Cleaner.{DirEntry, delete_project_logs}

-- The name goes to the list of those stopped if the stop succeeded.
unfoldable pub note_stopped : StopResult → Text → List Text → List Text
note_stopped removed name names = name ∷ names
note_stopped process_not_found name names = names
note_stopped stop_error name names = names

-- What the directories below the log directory hold, by their paths.
abbrev pub Dirs : Type 0
Dirs = Dict (List DirEntry)

unfoldable pub set_dir : Text → Option (List DirEntry) → Dirs → Dirs
set_dir dir none dirs = remove dir dirs
set_dir dir (some entries) dirs = insert dir entries dirs

-- A test for identifiers, and the stops of processes.
module _ (is_uuid : Text → Bool) (attempt : Bool → ProxyInfo → Attempt) where
  -- The loop over the processes of the project.
  unfoldable pub stop_each :
      Text
      → Bool
      → List ProxyInfo
      → ProcessRegistry
      → ProcessRegistry × List ProcessEvent × List Text
  unfolding note_stopped
  stop_each project force [] r = (r, [], [])
  stop_each project force (p ∷ ps) r =
      let (r', events, result) = stop_process is_uuid attempt p.id (some project) force r in
      let (r'', later, names) = stop_each project force ps r' in
      (r'', events ++ later, note_stopped result p.name names)

-- The logs of the processes that are still registered.
unfoldable pub exclude : Text → Text → ProcessRegistry → List Text
exclude log_dir project r =
    map (λ p. get_log_file_path_for_key log_dir (ProcessKey.new p.project p.name))
      (get_processes_by_project project r)

-- Also the files that the system lets go, and the log directory.
module _ (is_uuid : Text → Bool) (attempt : Bool → ProxyInfo → Attempt) (permits : Text → Bool)
    (log_dir : Text) where
  unfoldable pub clean_project :
      Text
      → Bool
      → ProcessRegistry × Dirs
      → (ProcessRegistry × Dirs) × List ProcessEvent × (List Text × List Text)
  unfolding stop_each exclude set_dir
  clean_project project force (r, dirs) =
      let (r', events, stopped) =
        stop_each is_uuid attempt project force (get_processes_by_project project r) r in
      let dir = join log_dir project in
      let (deleted, entries) =
        delete_project_logs permits dir (exclude log_dir project r') (lookup dir dirs) in
      ((r', set_dir dir entries dirs), events, (stopped, deleted))

  -- The loop over projects; `HashMap::insert` of keys that differ.
  unfoldable pub clean_each :
      Bool
      → List Text
      → ProcessRegistry × Dirs
      → (ProcessRegistry × Dirs) × List ProcessEvent × List (Text × (List Text × List Text))
  unfolding clean_project
  clean_each force [] s = (s, [], [])
  clean_each force (project ∷ rest) s =
      let (t, events, result) = clean_project project force s in
      let (u, later, results) = clean_each force rest t in
      (u, events ++ later, (project, result) ∷ results)

  -- `listed` are the names of the directories in the log directory; the projects are a sorted set.
  unfoldable pub clean_all_projects :
      Bool
      → List Text
      → ProcessRegistry × Dirs
      → (ProcessRegistry × Dirs) × List ProcessEvent × List (Text × (List Text × List Text))
  unfolding clean_each
  clean_all_projects force listed (r, dirs) =
      clean_each force (dedup (sort (get_all_projects r ++ listed))) (r, dirs)
