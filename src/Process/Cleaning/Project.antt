-- ===== src/Process/Cleaning/Project.antt =====
-- Cleaning a project (`clean_project` of mcproc/src/daemon/process/manager.rs): the processes that it stops,
-- those that it leaves alone, and the logs that it keeps.
use mathlib.Core.List.{Memᴰ}
use mcproc.Prelude.{
  some_inj, ◌≡◌, ◌≢◌, refl, sym, ap, ◌∙◌, subst, inl, inr, Bool, true, false, List, [], ◌∷◌, map,
  filter, none, some, Text, text_eq, text_eq→eq, text_eq_iff, contains_text, Bool-cases, arith,
  Dict, IsDistinct, lookup,
}
use mcproc.Names.ProcessKey
use mcproc.Names.LogPath.{join, get_log_file_path_for_key}
use mcproc.Process.Proxy.{ProxyInfo}
use mcproc.Process.Registry.{ProcessRegistry, get_process_by_id, get_processes_by_project, values}
use mcproc.Process.Registry.Lookup.{IsKeyed}
use mcproc.Process.Lifecycle.{Attempt}
use mcproc.Log.Cleaner.{delete_project_logs}
use mcproc.Log.Cleaner.Deleted.{delete_project_logs-deletes}
use mcproc.Process.Cleaning.{Dirs, exclude, stop_each, clean_project}
use mcproc.Process.Cleaning.Keeps.{ids, Listed, Outcome, stop_each_lem}

abbrev in_project_of : Text → ProxyInfo → Bool
in_project_of project p = text_eq p.project project

absent :
    (project j : Text) (m : Dict ProxyInfo)
    → IsKeyed m
    → lookup j m ≡ none
    → contains_text j (ids (filter (in_project_of project) (values m))) ≡ false
unfolding lookup values
absent project j [] keyed h = refl
absent project j ((i, p) ∷ m) (same, keyed) h =
    let rest = absent project j m keyed (ground arith) in
    elim (Bool-cases (in_project_of project p)) [
      | inl e ↦ rw e (ground (arith, ap (λ (t : Text). text_eq t j) same))
      | inr e ↦ rw e rest
    ]

Listed-at_start :
    (is_uuid : Text → Bool) (project : Text) (r : ProcessRegistry)
    → ((id : Text) (p : ProxyInfo) → get_process_by_id id r ≡ some p → is_uuid id ≡ true)
    → (m : Dict ProxyInfo) → IsKeyed m
    → IsDistinct m
    → ((id : Text) (p : ProxyInfo) → lookup id m ≡ some p → get_process_by_id id r ≡ some p)
    → Listed is_uuid project r (filter (in_project_of project) (values m))
unfolding lookup values
Listed-at_start is_uuid project r uuids [] keyed distinct inside = tt
Listed-at_start is_uuid project r uuids ((j, p) ∷ m) (same, keyed) (fresh, distinct) inside =
    let rest =
      Listed-at_start is_uuid project r uuids m keyed distinct
        (λ id q h. inside id q (ground (arith, text_eq_iff j id, fresh, h))) in
    let here : get_process_by_id p.id r ≡ some p =
      inside p.id p (ground (arith, text_eq_iff j p.id, same)) in
    elim (Bool-cases (text_eq p.project project)) [
      | inr e ↦ rw e rest
      | inl e ↦ rw e (
        here,
        text_eq→eq p.project project e,
        uuids p.id p here,
        absent project p.id m keyed (ap (λ k. lookup k m) same ∙ fresh),
        rest,
      )
    ]

Memᴰ-values :
    (project id : Text) (m : Dict ProxyInfo) (p : ProxyInfo)
    → lookup id m ≡ some p
    → p.project ≡ project
    → Memᴰ p (filter (in_project_of project) (values m))
unfolding lookup values
Memᴰ-values project id [] p h in_it = absurd (ground arith)
Memᴰ-values project id ((j, q) ∷ m) p h in_it = elim (Bool-cases (text_eq j id)) [
  | inl e ↦
      let same : q ≡ p = some_inj q p (rw e at h) in
      let chosen : text_eq q.project project ≡ true =
        (text_eq_iff q.project project).1 (ap (λ (x : ProxyInfo). x.project) same ∙ in_it) in
      rw chosen (Memᴰ.head (sym same))
  | inr e ↦
      let later = Memᴰ-values project id m p (rw e at h) in_it in
      elim (Bool-cases (text_eq q.project project)) [
        | inl chosen ↦ rw chosen (Memᴰ.tail later)
        | inr other ↦ rw other later
      ]
]

-- An identifier of the list is one of a process of the project.
Listed-ids :
    (is_uuid : Text → Bool) (project : Text) (r : ProcessRegistry) (ps : List ProxyInfo) (id : Text)
    → Listed is_uuid project r ps
    → contains_text id (ids ps) ≡ true
    → (p : ProxyInfo) × (get_process_by_id id r ≡ some p) × (p.project ≡ project)
Listed-ids is_uuid project r [] id listed h = absurd (ground arith)
Listed-ids is_uuid project r (p ∷ ps) id (here, in_it, uuid, distinct, rest) h =
    elim (Bool-cases (text_eq p.id id)) [
      | inl e ↦ (p, subst (λ k. get_process_by_id k r ≡ some p) (text_eq→eq p.id id e) here, in_it)
      | inr e ↦ Listed-ids is_uuid project r ps id rest (ground arith)
    ]

Memᴰ-map :
    (f : ProxyInfo → Text) (ps : List ProxyInfo) (p : ProxyInfo)
    → Memᴰ p ps
    → contains_text (f p) (map f ps) ≡ true
Memᴰ-map f [] p m = elim m [ ]
Memᴰ-map f (q ∷ ps) p (Memᴰ.head e) = ground (arith, text_eq_iff (f q) (f p), ap f e)
Memᴰ-map f (q ∷ ps) p (Memᴰ.tail m) = ground (arith, Memᴰ-map f ps p m)

-- A registry whose entries stand under the identifiers of their processes, once each; these are UUIDs.
pub record IsSound (is_uuid : Text → Bool) (r : ProcessRegistry) : Type 0 where
  pub keyed : IsKeyed r.processes
  pub distinct : IsDistinct r.processes
  pub uuids : (id : Text) (p : ProxyInfo) → get_process_by_id id r ≡ some p → is_uuid id ≡ true

-- After a project was cleaned, whatever its stops returned: each of its processes is gone and its name is in
-- the answer, or it is still registered; every process of another project is registered as before; and no
-- log file of a process of the project that is registered was deleted.
pub clean_project-Outcome :
    (is_uuid : Text → Bool) (attempt : Bool → ProxyInfo → Attempt) (permits : Text → Bool)
    (log_dir project : Text) (force : Bool) (r : ProcessRegistry) (dirs : Dirs)
    → IsSound is_uuid r
    → let ((r', dirs'), events, (stopped, deleted)) =
        clean_project is_uuid attempt permits log_dir project force (r, dirs) in
      ((p : ProxyInfo)
        → get_process_by_id p.id r ≡ some p
        → p.project ≡ project
        → Outcome p r' stopped)
      × ((id : Text) (p : ProxyInfo)
          → get_process_by_id id r ≡ some p
          → p.project ≢ project
          → get_process_by_id id r' ≡ some p)
      × ((id : Text) (p : ProxyInfo)
          → get_process_by_id id r' ≡ some p
          → p.project ≡ project
          → contains_text
              (get_log_file_path_for_key log_dir (ProcessKey.new p.project p.name))
              deleted
            ≡ false)
unfolding clean_project get_processes_by_project get_process_by_id exclude
clean_project-Outcome is_uuid attempt permits log_dir project force r dirs sound =
    let (each, others) = stop_each_lem is_uuid attempt project force r ps listed in
    (
      λ p here in_it. each p (Memᴰ-values project p.id r.processes p here in_it),
      λ id p here apart. others id (elsewhere id p here apart) ∙ here,
      λ id p here in_it. kept id p here in_it,
    )
  where
    ps : List ProxyInfo
    ps = filter (in_project_of project) (values r.processes)

    listed : Listed is_uuid project r ps
    listed =
        Listed-at_start is_uuid project r sound.uuids r.processes sound.keyed sound.distinct
          (λ id p h. h)

    r' : ProcessRegistry
    r' = (stop_each is_uuid attempt project force ps r).0

    dir : Text
    dir = join log_dir project

    elsewhere :
        (id : Text) (p : ProxyInfo)
        → get_process_by_id id r ≡ some p
        → p.project ≢ project
        → contains_text id (ids ps) ≡ false
    elsewhere id p here apart = elim (Bool-cases (contains_text id (ids ps))) [
      | inr e ↦ e
      | inl e ↦
          let (q, there, in_it) = Listed-ids is_uuid project r ps id listed e in
          absurd
            (apart (ap (λ (x : ProxyInfo). x.project) (some_inj p q (sym here ∙ there)) ∙ in_it))
    ]

    log_of : ProxyInfo → Text
    log_of p = get_log_file_path_for_key log_dir (ProcessKey.new p.project p.name)

    kept :
        (id : Text) (p : ProxyInfo)
        → get_process_by_id id r' ≡ some p
        → p.project ≡ project
        → contains_text
            (log_of p)
            (delete_project_logs permits dir (exclude log_dir project r') (lookup dir dirs)).0
          ≡ false
    kept id p here in_it =
        elim (Bool-cases (
          contains_text (log_of p)
            (delete_project_logs permits dir (exclude log_dir project r') (lookup dir dirs)).0)) [
              | inr e ↦ e
              | inl e ↦
                  let able =
                    ((delete_project_logs-deletes permits dir (exclude log_dir project r')
                          (lookup dir dirs)).0
                        (log_of p)).0
                      e in
                  let listed_there =
                    Memᴰ-map log_of (filter (in_project_of project) (values r'.processes)) p
                      (Memᴰ-values project id r'.processes p here in_it) in
                  absurd (ground (arith, able.0.5))
            ]
