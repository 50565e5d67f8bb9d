-- ===== src/Api/Started.antt =====
-- What a request to start a process does (`start_process_impl` of
-- mcproc/src/daemon/api/grpc/process_handlers.rs).
use mcproc.Prelude.{
  none_absurd, Bool, false, sym, ◌∙◌, subst, ℕ, ◌+◌, ◌≤◌, ltb→lt, ◌≡◌, refl, ◌⊎◌, inl, inr, true,
  List, [], ◌∷◌, Option, none, some, Option-cases, Text, arith, length, ltb, some_inj, Bool-cases,
}
use mcproc.Names.Validation.{validate_process_name, validate_project_name}
use mcproc.Process.Proxy.{ProxyInfo}
use mcproc.Process.Events.{ProcessEvent}
use mcproc.Process.Registry.{
  ProcessRegistry, get_process_by_id, get_process_by_name_or_id_with_project,
}
use mcproc.Process.Registry.Kept.{IsKept, found_again}
use mcproc.Process.Lifecycle.{
  StopResult, removed, stop_process, StartResult, process, already_exists, launch_error,
}
use mcproc.Process.Lifecycle.Calls.{Stops, stop_process-Stops, stop_process-IsKept}
use mcproc.Process.Lifecycle.Starting.{Starts, Carries, start_process-Starts}
use mcproc.Process.Restart.Restarts.{key_of}
use mcproc.Api.Handlers.{or_false}
use mcproc.Process.Restart.{StartArgs, start_with}
use mcproc.Api.Status.{
  McprocdError, Status, Answer, ok, err, validate_wait_timeout, max_wait_timeout,
}
use mcproc.Api.Info.{Around}
use mcproc.Api.Start.{
  StartProcessRequest, Stream, report, Waited, Manager, failed_launch, info_of, start_stream,
  serve_start, behind_force, to_replace, serve, checks, start_process_impl,
}

-- The timeout is at most an hour, and both names pass their checks.
abbrev pub IsChecked : StartProcessRequest → Type 0
IsChecked req =
    ((t : ℕ) → req.args.wait_timeout ≡ some t → t ≤ max_wait_timeout)
    × (validate_process_name req.args.name ≡ none)
    × (validate_project_name req.args.project ≡ none)

abbrev pub errors : Option Status → ℕ
errors none = 0
errors (some status) = 1

-- What the stream says of a start.
abbrev pub Says : Around → Waited → StartResult → Stream → Type 0
Says a w (process q) s = (s.items ≡ report (info_of a w q) ∷ []) × (s.error ≡ none)
Says a w already_exists s = (s.items ≡ []) × (s.error ≡ some Status.already_exists)
Says a w launch_error s = length s.items + errors s.error ≡ 1

-- The request asks for the replacement of a process, and this one has its name in its project.
abbrev pub Replaces : Manager → StartProcessRequest → ProcessRegistry → ProxyInfo → Type 0
Replaces m req r old =
    (req.force_restart ≡ some true)
    × (get_process_by_name_or_id_with_project m.is_uuid req.args.name (some req.args.project) r
        ≡ some old)

-- What is left of a request that passed the checks: the process that it was to replace was not stopped; or
-- a start, behind the removal of this process, or at once where there is none to replace.
abbrev pub Serves :
    Manager
    → Around
    → Waited
    → StartProcessRequest
    → ProcessRegistry
    → ProcessRegistry
    → Answer Stream
    → Type 0
Serves m a w req r r' (err status) =
    (status ≡ Status.failed_precondition)
    × ((old : ProxyInfo) × Replaces m req r old
        × Stops m.attempt true old r r' StopResult.stop_error)
Serves m a w req r r' (ok s) =
    (between : ProcessRegistry) × (result : StartResult) × ((((old : ProxyInfo)
          → Replaces m req r old
          → ⊥)
        × (between ≡ r))
      ⊎ ((old : ProxyInfo) × Replaces m req r old × Stops m.attempt true old r between removed))
    × Starts (key_of req.args) (m.launch_with req.args) between r' result
    × Says a w result s

to_replace-Replaces :
    (m : Manager) (req : StartProcessRequest) (r : ProcessRegistry)
    → ((to_replace m req r ≡ none) × ((old : ProxyInfo) → Replaces m req r old → ⊥))
      ⊎ ((old : ProxyInfo) × (to_replace m req r ≡ some old) × Replaces m req r old)
unfolding to_replace or_false
to_replace-Replaces m req r = by_flag req.force_restart refl
  where
    by_flag :
        (flag : Option Bool)
        → req.force_restart ≡ flag
        → ((to_replace m req r ≡ none) × ((old : ProxyInfo) → Replaces m req r old → ⊥))
          ⊎ ((old : ProxyInfo) × (to_replace m req r ≡ some old) × Replaces m req r old)
    by_flag none e = inl (rw e refl, λ old (forced, found). absurd (ground (arith, e, forced)))
    by_flag (some false) e =
        inl (rw e refl, λ old (forced, found). absurd (ground (arith, e, forced)))
    by_flag (some true) e =
        elim (Option-cases (
          get_process_by_name_or_id_with_project m.is_uuid req.args.name (some req.args.project)
            r)) [
              | inl none_found ↦
                  inl (rw e none_found, λ old (forced, found). none_absurd (sym none_found ∙ found))
              | inr (old, found) ↦ inr (old, rw e found, (e, found))
            ]

failed_launch-Says :
    (a : Around) (id : Text) (now : ℕ) (project : Text) (cmd cwd : Option Text) (w : Waited)
    (e : McprocdError)
    → Says a w launch_error (failed_launch a id now project cmd cwd e)
unfolding failed_launch
failed_launch-Says a id now project cmd cwd w
      (McprocdError.process_failed_to_start name code reason stderr) =
    refl
failed_launch-Says a id now project cmd cwd w (McprocdError.process_not_found t) = refl
failed_launch-Says a id now project cmd cwd w (McprocdError.process_already_exists t) = refl
failed_launch-Says a id now project cmd cwd w (McprocdError.spawn_error t) = refl
failed_launch-Says a id now project cmd cwd w (McprocdError.stop_error t) = refl
failed_launch-Says a id now project cmd cwd w (McprocdError.io_error t) = refl
failed_launch-Says a id now project cmd cwd w (McprocdError.config_error t) = refl
failed_launch-Says a id now project cmd cwd w (McprocdError.api_error t) = refl
failed_launch-Says a id now project cmd cwd w (McprocdError.log_error t) = refl
failed_launch-Says a id now project cmd cwd w (McprocdError.invalid_request t) = refl
failed_launch-Says a id now project cmd cwd w (McprocdError.invalid_command t) = refl
failed_launch-Says a id now project cmd cwd w (McprocdError.process_spawn_failed n t) = refl
failed_launch-Says a id now project cmd cwd w (McprocdError.invalid_regex p t) = refl

start_stream-Says :
    (a : Around) (id : Text) (now : ℕ) (w : Waited) (args : StartArgs) (result : StartResult)
    → Says a w result (start_stream a id now w args result)
unfolding start_stream
start_stream-Says a id now w args (process q) = (refl, refl)
start_stream-Says a id now w args already_exists = (refl, refl)
start_stream-Says a id now w args launch_error =
    failed_launch-Says a id now args.project args.cmd args.cwd w w.failure

timeout_checked :
    (o : Option ℕ)
    → ((validate_wait_timeout o ≡ none) × ((t : ℕ) → o ≡ some t → t ≤ max_wait_timeout))
      ⊎ ((validate_wait_timeout o ≡ some Status.invalid_argument)
          × (((t : ℕ) → o ≡ some t → t ≤ max_wait_timeout) → ⊥))
unfolding validate_wait_timeout
timeout_checked none = inl (refl, λ t e. absurd (ground arith))
timeout_checked (some t) = elim (Bool-cases (ltb max_wait_timeout t)) [
  | inl e ↦ inr (rw e refl, λ h. omega (arith, h t refl, ltb→lt max_wait_timeout t e))
  | inr e ↦ inl (rw e refl, λ u same. let eq : t ≡ u = some_inj t u same in ground (arith, eq))
]

checks_lem :
    (req : StartProcessRequest)
    → ((checks req ≡ none) × IsChecked req)
      ⊎ ((checks req ≡ some Status.invalid_argument) × (IsChecked req → ⊥))
unfolding checks
checks_lem req = elim (timeout_checked req.args.wait_timeout) [
  | inr (e, bad) ↦ inr (rw (e, checks) refl, λ (t, n, p). bad t)
  | inl (e, good) ↦ elim (Option-cases (validate_process_name req.args.name)) [
    | inr (x, n) ↦ inr (rw (e, n, checks) refl, λ (t, k, p). absurd (ground arith))
    | inl n ↦ elim (Option-cases (validate_project_name req.args.project)) [
      | inr (x, p) ↦ inr (rw (e, n, p, checks) refl, λ (t, k, q). absurd (ground arith))
      | inl p ↦ inl (rw (e, n, p, checks) refl, (good, n, p))
    ]
  ]
]

module _ (m : Manager) (a : Around) (id : Text) (now : ℕ) (w : Waited) (req : StartProcessRequest)
    (r : ProcessRegistry) (kept : IsKept r)
    (uuids : (id : Text) (p : ProxyInfo) → get_process_by_id id r ≡ some p → m.is_uuid id ≡ true)
    (carries : (args : StartArgs) → Carries (key_of args) (m.launch_with args) m.meanwhile) where
  serve_start-Serves :
      (before : List ProcessEvent) (between : ProcessRegistry)
      → IsKept between
      → (((old : ProxyInfo) → Replaces m req r old → ⊥) × (between ≡ r))
        ⊎ ((old : ProxyInfo) × Replaces m req r old × Stops m.attempt true old r between removed)
      → let result = serve_start m a id now w req.args before between in
        Serves m a w req r result.0 result.2
  unfolding serve_start start_with
  serve_start-Serves before between kept_between how =
      let result =
        start_with m.is_uuid m.attempt m.launch_with m.meanwhile m.kill m.ports req.args between in
      (
        between,
        result.2,
        how,
        start_process-Starts (key_of req.args) (m.launch_with req.args) m.meanwhile m.kill m.ports
            between kept_between (carries req.args),
        start_stream-Says a id now w req.args result.2,
      )

  behind_force-Serves :
      (old : ProxyInfo)
      → Replaces m req r old
      → (r' : ProcessRegistry) (events : List ProcessEvent) (result : StopResult)
      → (result ≡ removed → IsKept r')
      → Stops m.attempt true old r r' result
      → let served = behind_force m a id now w req.args (r', events, result) in
        Serves m a w req r served.0 served.2
  unfolding behind_force
  behind_force-Serves old replaced r' events removed kept' stops =
      serve_start-Serves events r' (kept' refl) (inr (old, replaced, stops))
  behind_force-Serves old replaced r' events StopResult.process_not_found kept' stops = absurd stops
  behind_force-Serves old replaced r' events StopResult.stop_error kept' stops =
      (refl, (old, replaced, stops))

  serve-Serves : let served = serve m a id now w req r in Serves m a w req r served.0 served.2
  unfolding serve
  serve-Serves = elim (to_replace-Replaces m req r) [
    | inl (e, nothing) ↦ rw (e, serve) (serve_start-Serves [] r kept (inl (nothing, refl)))
    | inr (old, e, replaced) ↦ rw (e, serve) (stopped old replaced)
  ]
    where
      stopped :
          (old : ProxyInfo)
          → Replaces m req r old
          → let served =
              behind_force m a id now w req.args
                (stop_process m.is_uuid m.attempt old.id (some req.args.project) true r) in
            Serves m a w req r served.0 served.2
      stopped old (forced, found) =
          let again = found_again m.is_uuid req.args.name req.args.project r old kept uuids found in
          let stop = stop_process m.is_uuid m.attempt old.id (some req.args.project) true r in
          elim (stop_process-Stops m.is_uuid m.attempt old.id (some req.args.project) true r) [
            | inl (none_found, e) ↦ absurd (none_absurd (sym none_found ∙ again))
            | inr (q, found_q, said, stops) ↦
                behind_force-Serves old (forced, found) stop.0 stop.1 stop.2
                  (stop_process-IsKept m.is_uuid m.attempt old.id (some req.args.project) true r
                    kept)
                  (subst (λ x. Stops m.attempt true x r stop.0 stop.2)
                    (some_inj q old (sym found_q ∙ again)) stops)
          ]

  -- A request to start a process whose timeout is above an hour or of which a name does not pass its check
  -- is refused as an invalid argument, and nothing changes. Any other is served. Where a forced request finds
  -- a process of its name, exactly this one is stopped by force: if the stop fails, the request is refused as
  -- a failed precondition. Behind the removal, or at once if there is none to replace, the process is
  -- started, and the stream has exactly one report or one error. The registry is to be kept as `add_process`
  -- keeps it, under UUIDs, and the record of a process that is launched is to carry the project and the
  -- name that were asked for.
  pub start_process_impl-Serves :
      let result = start_process_impl m a id now w req r in
      ((IsChecked req → ⊥) × (result ≡ (r, [], err Status.invalid_argument)))
      ⊎ (IsChecked req × Serves m a w req r result.0 result.2)
  unfolding start_process_impl
  start_process_impl-Serves = elim (checks_lem req) [
    | inr (e, bad) ↦ inl (bad, rw (e, start_process_impl) refl)
    | inl (e, good) ↦ inr (good, rw (e, start_process_impl) serve-Serves)
  ]
