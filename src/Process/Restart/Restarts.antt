-- ===== src/Process/Restart/Restarts.antt =====
-- What a restart leaves (mcproc/src/daemon/process/manager.rs).
use mcproc.Prelude.{
  ℕ, ◌≡◌, refl, sym, ◌∙◌, subst, ◌⊎◌, inl, inr, Bool, false, List, [], Option, none, some,
  Option-cases, Text, arith, some_inj,
}
use mcproc.Names.ProcessKey.{ProcessKey}
use mcproc.Names.ProcessKey
use mcproc.Process.Proxy.{ProxyInfo}
use mcproc.Process.Events.{ProcessEvent}
use mcproc.Process.Registry.{ProcessRegistry, get_process_by_name_or_id_with_project}
use mcproc.Process.Registry.Lookup.{lookup_sound}
use mcproc.Process.Registry.Kept.{IsKept, AreKept-IsKeyed}
use mcproc.Process.Lifecycle.{
  Attempt, StopResult, removed, process_not_found, stop_error, stop_process,
}
use mcproc.Process.Lifecycle.Calls.{Stops, stop_process-Stops, stop_process-IsKept}
use mcproc.Process.Lifecycle.Starting.{Starts, Carries, start_process-Starts}
use mcproc.Process.Restart.{
  StartArgs, RestartResult, not_found, not_stopped, started, or_saved, restart_args, start_with,
  start_again, restart_process,
}

-- What the request says, or else what was saved.
abbrev pub Overrides : {A : Type 0} → Option A → Option A → Option A → Type 0
Overrides {A} new saved chosen =
    ((a : A) × (new ≡ some a) × (chosen ≡ some a)) ⊎ ((new ≡ none) × (chosen ≡ saved))

-- The arguments are those that `p` was started with, where a pattern and a timeout of the request replace
-- those that were saved.
pub record AreSaved (log : Option Text) (timeout : Option ℕ) (p : ProxyInfo) (a : StartArgs)
    : Type 0 where
  pub name : a.name ≡ p.name
  pub project : a.project ≡ p.project
  pub cmd : a.cmd ≡ p.cmd
  pub args : a.args ≡ p.args
  pub cwd : a.cwd ≡ p.cwd
  pub env : a.env ≡ p.env
  pub toolchain : a.toolchain ≡ p.toolchain
  pub wait_for_log : Overrides log p.wait_for_log a.wait_for_log
  pub wait_timeout : Overrides timeout p.wait_timeout a.wait_timeout

or_saved-Overrides : {A : Type 0} (new saved : Option A) → Overrides new saved (or_saved new saved)
unfolding or_saved
or_saved-Overrides none saved = inr (refl, refl)
or_saved-Overrides (some a) saved = inl (a, refl, refl)

restart_args-AreSaved :
    (log : Option Text) (timeout : Option ℕ) (p : ProxyInfo)
    → AreSaved log timeout p (restart_args log timeout p)
unfolding restart_args
restart_args-AreSaved log timeout p = record {
  name = refl;
  project = refl;
  cmd = refl;
  args = refl;
  cwd = refl;
  env = refl;
  toolchain = refl;
  wait_for_log = or_saved-Overrides log p.wait_for_log;
  wait_timeout = or_saved-Overrides timeout p.wait_timeout;
}

abbrev pub key_of : StartArgs → ProcessKey
key_of a = ProcessKey.new a.project a.name

-- What a restart that found `p` leaves: the failure of its stop, or a start with the arguments `a` behind a
-- stop that removed it.
abbrev pub Restarts :
    (Bool → ProxyInfo → Attempt)
    → (StartArgs → Option ProxyInfo)
    → StartArgs
    → ProxyInfo
    → ProcessRegistry
    → ProcessRegistry
    → RestartResult
    → Type 0
Restarts attempt launch_with a p r r' not_found = ⊥
Restarts attempt launch_with a p r r' (not_stopped failure) =
    (failure ≡ stop_error) × Stops attempt false p r r' stop_error
Restarts attempt launch_with a p r r' (started result) =
    (between : ProcessRegistry) × Stops attempt false p r between removed
    × Starts (key_of a) (launch_with a) between r' result

module _ (is_uuid : Text → Bool) (attempt : Bool → ProxyInfo → Attempt)
    (launch_with : StartArgs → Option ProxyInfo) (meanwhile : ProxyInfo → ProxyInfo)
    (kill : Option Bool) (ports : List ℕ)
    (carries : (a : StartArgs) → Carries (key_of a) (launch_with a) meanwhile) where
  behind_stop :
      (a : StartArgs) (p : ProxyInfo) (r r' : ProcessRegistry) (events : List ProcessEvent)
      (result : StopResult)
      → (result ≡ removed → IsKept r')
      → Stops attempt false p r r' result
      → let done =
          start_again is_uuid attempt launch_with meanwhile kill ports a (r', events, result) in
        Restarts attempt launch_with a p r done.0 done.2
  unfolding start_again start_with
  behind_stop a p r r' events process_not_found kept stops = absurd stops
  behind_stop a p r r' events stop_error kept stops = (refl, stops)
  behind_stop a p r r' events removed kept stops = (
    r',
    stops,
    start_process-Starts (key_of a) (launch_with a) meanwhile kill ports r' (kept refl) (carries a),
  )

  -- A restart in a project finds no process and changes nothing, or it finds one: then the stop of this
  -- process fails and it stays registered, or it is removed and a process of its name is started with its
  -- command, arguments, directory, environment and toolchain, where a pattern or a timeout of the request
  -- replaces the one that was saved. The registry is to be kept as `add_process` keeps it, and the record of a
  -- process that is launched is to carry the project and the name that were asked for.
  pub restart_process-Restarts :
      (name_or_id project : Text) (log : Option Text) (timeout : Option ℕ) (r : ProcessRegistry)
      → IsKept r
      → let result =
          restart_process is_uuid attempt launch_with meanwhile kill ports name_or_id
            (some project)
            log
            timeout
            r in
        let found = get_process_by_name_or_id_with_project is_uuid name_or_id (some project) r in
        ((found ≡ none) × (result ≡ (r, [], not_found)))
        ⊎ ((p : ProxyInfo) × (a : StartArgs) × (found ≡ some p)
            × AreSaved log timeout p a
            × Restarts attempt launch_with a p r result.0 result.2)
  unfolding restart_process
  restart_process-Restarts name_or_id project log timeout r kept =
      elim (Option-cases
        (get_process_by_name_or_id_with_project is_uuid name_or_id (some project) r)) [
          | inl e ↦ inl (e, rw (e, restart_process) refl)
          | inr (p, e) ↦
              let same : p.project ≡ project =
                (lookup_sound is_uuid r name_or_id project p
                  (AreKept-IsKeyed r.processes kept.entries) e).0 in
              let again : get_process_by_name_or_id_with_project is_uuid name_or_id (some p.project)
                    r
                  ≡ some p =
                subst
                  (λ q.
                    get_process_by_name_or_id_with_project is_uuid name_or_id (some q) r ≡ some p)
                  (sym same) e in
              inr (
                p,
                restart_args log timeout p,
                e,
                restart_args-AreSaved log timeout p,
                rw (e, restart_process) (stopped p again),
              )
        ]
    where
      stopped :
          (p : ProxyInfo)
          → get_process_by_name_or_id_with_project is_uuid name_or_id (some p.project) r ≡ some p
          → let done =
              start_again is_uuid attempt launch_with meanwhile kill ports
                (restart_args log timeout p)
                (stop_process is_uuid attempt name_or_id (some p.project) false r) in
            Restarts attempt launch_with (restart_args log timeout p) p r done.0 done.2
      stopped p again =
          elim (stop_process-Stops is_uuid attempt name_or_id (some p.project) false r) [
            | inl (none_found, e) ↦ absurd (ground arith)
            | inr (q, found, said, stops) ↦
                let same : q ≡ p = some_inj q p (sym found ∙ again) in
                let result = stop_process is_uuid attempt name_or_id (some p.project) false r in
                behind_stop (restart_args log timeout p) p r result.0 result.1 result.2
                  (stop_process-IsKept is_uuid attempt name_or_id (some p.project) false r kept)
                  (subst (λ x. Stops attempt false x r result.0 result.2) same stops)
          ]
