-- ===== src/Process/Registry.antt =====
-- mcproc/src/daemon/process/registry.rs: the processes by identifier, and the reserved names. A method
-- of the registry is one atomic step of a `DashMap`, or a few, which `Registry/Schedule` interleaves.
pub mod Lookup
pub mod Kept
pub mod Schedule
pub mod Ownership
pub mod Exclusion
use mcproc.Prelude.{
  ℕ, ◌≡◌, Bool, true, false, not, ◌&&◌, ◌||◌, List, [], ◌∷◌, map, Option, none, some, if◌then◌else◌,
  any, find, filter, ltb, ◌==◌, Text, text_eq, Dict, lookup, insert, remove,
}
use mcproc.Names.ProcessKey.{ProcessKey, key_eq}
use mcproc.Process.Proxy.{ProxyInfo}

pub record ProcessRegistry : Type 0 where
  pub processes : Dict ProxyInfo
  pub reserved_names : List ProcessKey

unfoldable pub new : ProcessRegistry
new = record { processes = []; reserved_names = [] }

unfoldable pub add_process : ProxyInfo → ProcessRegistry → ProcessRegistry
add_process proxy r = record r { processes = insert proxy.id proxy r.processes }

unfoldable pub is_reserved : ProcessKey → ProcessRegistry → Bool
is_reserved key r = any (λ k. key_eq k key) r.reserved_names

-- `Entry::Vacant` or `Entry::Occupied`: the registry after it, and the answer.
unfoldable pub try_reserve_name : ProcessKey → ProcessRegistry → ProcessRegistry × Bool
unfolding is_reserved
try_reserve_name key r =
    if is_reserved key r
    then (r, false)
    else (record r { reserved_names = key ∷ r.reserved_names }, true)

unfoldable pub release_name : ProcessKey → ProcessRegistry → ProcessRegistry
release_name key r = record r { reserved_names = filter (λ k. not (key_eq k key)) r.reserved_names }

-- `self.processes.remove(id)`, the first of the two steps of `remove_process`
unfoldable pub take_process : Text → ProcessRegistry → ProcessRegistry × Option ProxyInfo
take_process id r = (record r { processes = remove id r.processes }, lookup id r.processes)

unfoldable pub release_of : Option ProxyInfo → ProcessRegistry → ProcessRegistry
unfolding release_name
release_of none r = r
release_of (some proxy) r = release_name proxy.key r

unfoldable pub remove_process : Text → ProcessRegistry → ProcessRegistry × Option ProxyInfo
unfolding take_process release_of
remove_process id r = let (r', taken) = take_process id r in (release_of taken r', taken)

unfoldable pub values : Dict ProxyInfo → List ProxyInfo
values = map (λ e. e.1)

unfoldable pub get_process_by_name_with_project : Text → Text → ProcessRegistry → Option ProxyInfo
unfolding values
get_process_by_name_with_project name project r =
    find (λ p. text_eq p.name name && text_eq p.project project) (values r.processes)

unfoldable pub get_process_by_id : Text → ProcessRegistry → Option ProxyInfo
get_process_by_id id r = lookup id r.processes

unfoldable pub get_process_by_name : Text → ProcessRegistry → Option ProxyInfo
unfolding values
get_process_by_name name r = find (λ p. text_eq p.name name) (values r.processes)

-- `a.or_else(|| b)`
abbrev pub or_else : Option ProxyInfo → Option ProxyInfo → Option ProxyInfo
or_else none b = b
or_else (some p) b = some p

-- `o.filter(|process| process.project == project)`
in_project : Text → Option ProxyInfo → Option ProxyInfo
in_project project none = none
in_project project (some p) = if text_eq p.project project then some p else none

-- The lookups by name or identifier ask the `uuid` crate whether a text is a UUID.
module _ (is_uuid : Text → Bool) where
  unfoldable pub get_process_by_name_or_id : Text → ProcessRegistry → Option ProxyInfo
  unfolding get_process_by_id get_process_by_name
  get_process_by_name_or_id name_or_id r =
      if is_uuid name_or_id
      then or_else (get_process_by_id name_or_id r) (get_process_by_name name_or_id r)
      else or_else (get_process_by_name name_or_id r) (get_process_by_id name_or_id r)

  id_lookup : Text → Text → ProcessRegistry → Option ProxyInfo
  unfolding in_project get_process_by_id
  id_lookup name_or_id project r = in_project project (get_process_by_id name_or_id r)

  unfoldable pub get_process_by_name_or_id_with_project :
      Text → Option Text → ProcessRegistry → Option ProxyInfo
  unfolding id_lookup get_process_by_name_with_project get_process_by_name_or_id
  get_process_by_name_or_id_with_project name_or_id (some project) r =
      if is_uuid name_or_id
      then or_else (id_lookup name_or_id project r)
          (get_process_by_name_with_project name_or_id project r)
      else or_else (get_process_by_name_with_project name_or_id project r)
          (id_lookup name_or_id project r)
  get_process_by_name_or_id_with_project name_or_id none r = get_process_by_name_or_id name_or_id r

unfoldable pub get_all_processes : ProcessRegistry → List ProxyInfo
unfolding values
get_all_processes r = values r.processes

unfoldable pub get_processes_by_project : Text → ProcessRegistry → List ProxyInfo
unfolding values
get_processes_by_project project r = filter (λ p. text_eq p.project project) (values r.processes)

-- `projects.sort(); projects.dedup()` over the lexicographic order of texts.
abbrev pub text_le : Text → Text → Bool
text_le [] t = true
text_le (a ∷ s) [] = false
text_le (a ∷ s) (b ∷ t) = ltb a b || (a == b && text_le s t)

unfoldable pub insert_sorted : Text → List Text → List Text
insert_sorted t [] = t ∷ []
insert_sorted t (u ∷ us) = if text_le t u then t ∷ u ∷ us else u ∷ insert_sorted t us

unfoldable pub sort : List Text → List Text
unfolding insert_sorted
sort [] = []
sort (t ∷ ts) = insert_sorted t (sort ts)

-- An element stays unless it equals the one in front of it.
unfoldable pub dedup : List Text → List Text
dedup [] = []
dedup (t ∷ []) = t ∷ []
dedup (t ∷ u ∷ us) = let rest = dedup (u ∷ us) in if text_eq t u then rest else t ∷ rest

unfoldable pub get_all_projects : ProcessRegistry → List Text
unfolding values sort dedup
get_all_projects r = dedup (sort (map (λ p. p.project) (values r.processes)))
