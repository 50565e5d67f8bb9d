-- ===== src/Api/Wanted.antt =====
-- What a request for logs asks for, of the registry and of what happens (`get_logs_impl` of
-- mcproc/src/daemon/api/grpc/log_handlers.rs).
use mathlib.Core.List.{Memᴰ}
use mcproc.Prelude.{
  ◌↔◌, ◌&&◌, ◌||◌, Bool, false, text_eq, text_eq_iff, contains_text, is_empty, ◌≡◌, refl, sym, ap,
  ◌∙◌, inl, inr, true, List, [], ◌∷◌, map, filter, Option, none, some, Bool-cases, Text,
  if◌then◌else◌, arith,
}
use mcproc.Names.ProcessKey.{ProcessKey}
use mcproc.Process.Events.{
  StreamEvent, process, log, StreamFilter, matches, matches_process, other_project, project, name,
}
use mcproc.Process.Registry.{ProcessRegistry, get_all_processes}
use mcproc.Process.Proxy.{ProxyInfo}
use mcproc.Names.ProcessKey
use mcproc.Api.Listing.{mem_filter}
use mcproc.Api.Handlers.{or_false}
use mcproc.Api.Logs.{
  GetLogsRequest, GetLogsResponse, published, event, lifecycle_event, Received, received, lagged,
  closed, turn, follow_loop, filter_of, registry_matches,
}

-- The events that come before the receiver is closed.
abbrev pub events_of : List Received → List StreamEvent
events_of [] = []
events_of (received e ∷ rs) = e ∷ events_of rs
events_of (lagged n ∷ rs) = events_of rs
events_of (closed ∷ rs) = []

-- What an event is answered as.
abbrev pub shown_as : StreamEvent → GetLogsResponse
shown_as (log name project entry) = published entry name
shown_as (process e) = event (lifecycle_event e)

turn_lem :
    (f : StreamFilter) (e : StreamEvent)
    → matches f e ≡ true
    → turn f.include_events e ≡ shown_as e ∷ []
unfolding turn matches
turn_lem f (log name project entry) h = refl
turn_lem f (process e) h = ground arith

follow_loop_lem :
    (f : StreamFilter) (rs : List Received)
    → follow_loop f rs ≡ map shown_as (filter (matches f) (events_of rs))
unfolding follow_loop
follow_loop_lem f [] = refl
follow_loop_lem f (closed ∷ rs) = refl
follow_loop_lem f (lagged n ∷ rs) = follow_loop_lem f rs
follow_loop_lem f (received e ∷ rs) = elim (Bool-cases (matches f e)) [
  | inl h ↦ rw (h, turn_lem f e h) (ap (λ t. shown_as e ∷ t) (follow_loop_lem f rs))
  | inr h ↦ rw h (follow_loop_lem f rs)
]

mem_map {ℓ ℓ'} :
    {A : Type ℓ} {B : Type ℓ'} (f : A → B) (xs : List A) (y : B)
    → Memᴰ y (map f xs) ↔ ((x : A) × Memᴰ x xs × (y ≡ f x))
mem_map {A = A} {B = B} f xs y = (of_map xs, λ (x, m, e). to_map xs x m e)
  where
    of_map : (xs : List A) → Memᴰ y (map f xs) → (x : A) × Memᴰ x xs × (y ≡ f x)
    of_map [] m = elim m [ ]
    of_map (x ∷ xs) (Memᴰ.head e) = (x, Memᴰ.head refl, e)
    of_map (x ∷ xs) (Memᴰ.tail m) = let (z, n, e) = of_map xs m in (z, Memᴰ.tail n, e)

    to_map : (xs : List A) (x : A) → Memᴰ x xs → y ≡ f x → Memᴰ y (map f xs)
    to_map [] x m e = elim m [ ]
    to_map (z ∷ xs) x (Memᴰ.head same) e = Memᴰ.head (e ∙ ap f same)
    to_map (z ∷ xs) x (Memᴰ.tail m) e = Memᴰ.tail (to_map xs x m e)

-- The request asks for what happens to a process: the process is of its project and has one of its names,
-- where it gives names.
abbrev pub concerns : GetLogsRequest → (project name : Text) → Bool
concerns req project name =
    text_eq req.project project
    && (is_empty req.process_names || contains_text name req.process_names)

-- A flag that the request does not have is no.
abbrev pub is_yes : Option Bool → Bool
is_yes none = false
is_yes (some b) = b

-- What a request that follows wants of what happens: each line that concerns it, and each event, if it asks
-- for events.
abbrev pub wanted : GetLogsRequest → StreamEvent → Bool
wanted req (log n p entry) = concerns req p n
wanted req (process e) = is_yes req.include_events && concerns req (project e) (name e)

matches_process-concerns :
    (req : GetLogsRequest) (p n : Text) → matches_process (filter_of req) p n ≡ concerns req p n
unfolding matches_process filter_of other_project
matches_process-concerns req p n = ground arith

matches-wanted : (req : GetLogsRequest) (e : StreamEvent) → matches (filter_of req) e ≡ wanted req e
unfolding matches or_false
matches-wanted req (log n p entry) = matches_process-concerns req p n
matches-wanted req (process e) =
    by_flag req.include_events refl (matches_process-concerns req (project e) (name e))
  where
    by_flag :
        (o : Option Bool)
        → req.include_events ≡ o
        → matches_process (filter_of req) (project e) (name e) ≡ concerns req (project e) (name e)
        → matches (filter_of req) (process e) ≡ wanted req (process e)
    by_flag none o h = unfold filter_of in rw o refl
    by_flag (some false) o h = unfold filter_of in rw o refl
    by_flag (some true) o h = unfold filter_of in rw o h

filter-wanted :
    (req : GetLogsRequest) (es : List StreamEvent)
    → filter (matches (filter_of req)) es ≡ filter (wanted req) es
filter-wanted req [] = refl
filter-wanted req (e ∷ es) = rw (matches-wanted req e, filter-wanted req es) refl

-- What the request streams of what happens.
abbrev pub followed : GetLogsRequest → List Received → List GetLogsResponse
followed req rs =
    if is_yes req.follow then map shown_as (filter (wanted req) (events_of rs)) else []

pub follow_loop-followed :
    (req : GetLogsRequest) (rs : List Received)
    → (if or_false req.follow then follow_loop (filter_of req) rs else []) ≡ followed req rs
unfolding or_false
follow_loop-followed req rs =
    let loop =
      follow_loop_lem (filter_of req) rs ∙ ap (map shown_as) (filter-wanted req (events_of rs)) in
    by_flag req.follow loop
  where
    by_flag :
        (o : Option Bool)
        → follow_loop (filter_of req) rs ≡ map shown_as (filter (wanted req) (events_of rs))
        → (if or_false o then follow_loop (filter_of req) rs else [])
          ≡ (if is_yes o then map shown_as (filter (wanted req) (events_of rs)) else [])
    by_flag none h = refl
    by_flag (some false) h = refl
    by_flag (some true) h = h

-- A process of the registry that the request asks for, by its key.
abbrev pub IsMatch : GetLogsRequest → ProcessRegistry → ProcessKey → Type 0
IsMatch req r k =
    (p : ProxyInfo) × Memᴰ p (get_all_processes r)
    × (concerns req p.project p.name ≡ true)
    × (k ≡ ProcessKey.new p.project p.name)

pub registry_matches-IsMatch :
    (req : GetLogsRequest) (r : ProcessRegistry) (k : ProcessKey)
    → Memᴰ k (registry_matches req r) ↔ IsMatch req r k
unfolding registry_matches
registry_matches-IsMatch req r k =
    let both = mem_map (λ p. ProcessKey.new p.project p.name) (filter f (get_all_processes r)) k in
    (
      λ m.
          let (p, here, same) = both.0 m in
          let (n, h) = (mem_filter f (get_all_processes r) p).0 here in
          (p, n, sym (agrees p) ∙ h, same),
      λ (p, n, h, same).
          both.1 (p, (mem_filter f (get_all_processes r) p).1 (n, agrees p ∙ h), same),
    )
  where
    f : ProxyInfo → Bool
    f p =
        text_eq p.project req.project
        && (is_empty req.process_names || contains_text p.name req.process_names)

    agrees : (p : ProxyInfo) → f p ≡ concerns req p.project p.name
    agrees p = ground (arith, text_eq_iff p.project req.project, text_eq_iff req.project p.project)
