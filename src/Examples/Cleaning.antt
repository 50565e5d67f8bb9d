-- ===== src/Examples/Cleaning.antt =====
-- Deleting logs, cleaning a project and a restart (mcproc/src/daemon/process/manager.rs,
-- mcproc/src/daemon/log/cleaner.rs).
use Registry.{sort}
use mcproc.Prelude.{
  lookup, sym, ap, some_inj, ◌≡◌, ◌≢◌, ◌⊎◌, ◌↔◌, refl, Bool, true, false, not, [], ◌∷◌, List,
  Option, none, some, codes, Text, contains_text, filter, text_eq, lookup,
}
use mcproc.Names.ProcessKey
use mcproc.Names.LogPath.{get_log_file_path_for_key, join}
use mcproc.Process.Proxy.{ProxyInfo, new}
use mcproc.Process.Registry
use mcproc.Process.Registry.{
  ProcessRegistry, get_process_by_id, get_process_by_name_or_id_with_project,
}
use mcproc.Process.Registry.Schedule.{proxy_of}
use mcproc.Process.Lifecycle.{Attempt, completed}
use mcproc.Log.Cleaner.{DirEntry, path, delete_project_logs}
use mcproc.Log.Cleaner.Deleted.{IsDeletable, entries_of, delete_project_logs-deletes}
use mcproc.Process.Cleaning.{Dirs, clean_project}
use mcproc.Process.Cleaning.Keeps.{Outcome}
use mcproc.Process.Cleaning.Project.{IsSound, clean_project-Outcome}
use mcproc.Process.Restart.{StartArgs, not_found, restart_process}
use mcproc.Process.Restart.Restarts.{Restarts, AreSaved, key_of, restart_process-Restarts}
use mcproc.Process.Lifecycle.Starting.{Carries}

abbrev all_go : Text → Bool
all_go p = true

abbrev files : List DirEntry
files =
    record { name = codes "web.log"; is_file = true }
    ∷ record { name = codes "note.txt"; is_file = true }
    ∷ record { name = codes "api.log"; is_file = true }
    ∷ record { name = codes "sub.log"; is_file = false }
    ∷ []

delete_project_logs-deletes_example :
    let (deleted, after) =
      delete_project_logs all_go (codes "/l/shop") (codes "/l/shop/web.log" ∷ []) (some files) in
    ((p : Text)
      → (contains_text p deleted ≡ true) ↔ (
          IsDeletable (codes "/l/shop") (codes "/l/shop/web.log" ∷ []) (entries_of (some files)) p
          × (all_go p ≡ true)))
    × (entries_of after
        ≡ filter
            (λ e. not (contains_text (path (codes "/l/shop") e) deleted))
            (entries_of (some files)))
delete_project_logs-deletes_example =
    delete_project_logs-deletes all_go (codes "/l/shop") (codes "/l/shop/web.log" ∷ []) (some files)

deleted_files :
    (delete_project_logs all_go (codes "/l/shop") (codes "/l/shop/web.log" ∷ []) (some files)).0
    ≡ codes "/l/shop/api.log" ∷ []
unfolding delete_project_logs sort text_eq join
deleted_files = refl

abbrev web : ProxyInfo
web = proxy_of (ProcessKey.new (codes "shop") (codes "web")) (codes "id-1") 4711 0

abbrev one_process : ProcessRegistry
one_process = record { processes = (codes "id-1", web) ∷ []; reserved_names = [] }

abbrev stops_at_once : Bool → ProxyInfo → Attempt
stops_at_once force p = completed (record { proxy = p; sent = []; ok = true })

one_process-IsSound : IsSound all_go one_process
unfolding new lookup
one_process-IsSound = record { keyed = (refl, tt); distinct = (refl, tt); uuids = λ id p h. refl }

abbrev dirs : Dirs
dirs = (codes "/l/shop", files) ∷ []

clean_project-Outcome_example :
    let ((r', dirs'), events, (stopped, deleted)) =
      clean_project all_go stops_at_once all_go
        (codes "/l")
        (codes "shop")
        false
        (one_process, dirs) in
    ((p : ProxyInfo)
      → get_process_by_id p.id one_process ≡ some p
      → p.project ≡ codes "shop"
      → Outcome p r' stopped)
    × ((id : Text) (p : ProxyInfo)
        → get_process_by_id id one_process ≡ some p
        → p.project ≢ codes "shop"
        → get_process_by_id id r' ≡ some p)
    × ((id : Text) (p : ProxyInfo)
        → get_process_by_id id r' ≡ some p
        → p.project ≡ codes "shop"
        → contains_text
            (get_log_file_path_for_key (codes "/l") (ProcessKey.new p.project p.name))
            deleted
          ≡ false)
clean_project-Outcome_example =
    clean_project-Outcome all_go stops_at_once all_go (codes "/l") (codes "shop") false one_process
      dirs one_process-IsSound

abbrev launches : StartArgs → Option ProxyInfo
launches a = some (proxy_of (ProcessKey.new a.project a.name) (codes "id-2") 4712 0)

abbrev unchanged : ProxyInfo → ProxyInfo
unchanged p = p

-- The record of a launch carries the project and the name.
launches-Carries : (a : StartArgs) → Carries (key_of a) (launches a) unchanged
unfolding new
launches-Carries a p e =
    let proxy = proxy_of (key_of a) (codes "id-2") 4712 0 in
    (
      ap (λ (x : ProxyInfo). x.name) (sym (some_inj proxy p e)),
      ap (λ (x : ProxyInfo). x.project) (sym (some_inj proxy p e)),
    )

restart_process-Restarts_example :
    let result =
      restart_process all_go stops_at_once launches unchanged
        (some true)
        []
        (codes "web")
        (some (codes "shop"))
        none
        none
        one_process in
    let found =
      get_process_by_name_or_id_with_project all_go
        (codes "web")
        (some (codes "shop"))
        one_process in
    ((found ≡ none) × (result ≡ (one_process, [], not_found)))
    ⊎ ((p : ProxyInfo) × (a : StartArgs) × (found ≡ some p)
        × AreSaved none none p a
        × Restarts stops_at_once launches a p one_process result.0 result.2)
unfolding new lookup
restart_process-Restarts_example =
    restart_process-Restarts all_go stops_at_once launches unchanged (some true) [] launches-Carries
      (codes "web") (codes "shop") none none one_process
      (record { entries = (refl, refl, tt); distinct = (refl, tt) })
