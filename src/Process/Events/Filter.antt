-- ===== src/Process/Events/Filter.antt =====
-- Which events a subscriber gets (`StreamFilter::matches` of mcproc/src/daemon/stream/mod.rs).
use mcproc.Prelude.{
  ◌≡◌, refl, ◌⊎◌, inl, inr, ◌↔◌, true, false, not, List, [], ◌∷◌, Option, none, some, ◌&&◌,
  is_empty, Text, text_eq_iff, contains_text, arith,
}
use mcproc.Process.Events.{
  name, project, StreamEvent, process, log, StreamFilter, other_project, matches_process, matches,
}

-- The project is the filter's, if it has one, and the name is one of the filter's, if it has some.
abbrev pub IsWanted : StreamFilter → Text → Text → Type 0
IsWanted f p n =
    ((q : Text) → f.project ≡ some q → q ≡ p)
    × ((f.process_names ≡ []) ⊎ (contains_text n f.process_names ≡ true))

-- An event of a process is asked for only where the filter includes such events.
abbrev pub IsSubscribed : StreamFilter → StreamEvent → Type 0
IsSubscribed f (process e) = (f.include_events ≡ true) × IsWanted f (project e) (name e)
IsSubscribed f (log n p entry) = IsWanted f p n

other_project_iff :
    (o : Option Text) (p : Text) → (other_project o p ≡ false) ↔ ((q : Text) → o ≡ some q → q ≡ p)
unfolding other_project
other_project_iff none p = (λ h q e. ground arith, λ h. refl)
other_project_iff (some r) p =
    (λ h q e. ground (arith, text_eq_iff r p), λ h. ground (arith, text_eq_iff r p, h r refl))

names_iff :
    (ns : List Text) (n : Text)
    → ((not (is_empty ns) && not (contains_text n ns)) ≡ false)
      ↔ ((ns ≡ []) ⊎ (contains_text n ns ≡ true))
names_iff [] n = (λ h. inl refl, λ h. refl)
names_iff (m ∷ ns) n =
    (λ h. inr (ground arith), λ h. elim h [ inl e ↦ ground arith | inr e ↦ ground arith ])

matches_process-IsWanted :
    (f : StreamFilter) (p n : Text) → (matches_process f p n ≡ true) ↔ IsWanted f p n
unfolding matches_process
matches_process-IsWanted f p n = (
  λ h. (
    (other_project_iff f.project p).0 (ground arith),
    (names_iff f.process_names n).0 (ground arith),
  ),
  λ (same, listed).
      rw ((other_project_iff f.project p).1 same, (names_iff f.process_names n).1 listed),
)

-- An event passes a filter exactly if it is asked for: by the project and the names of the filter, where
-- a filter that has none asks for all, and an event of a process only if the filter includes those.
pub matches-IsSubscribed :
    (f : StreamFilter) (e : StreamEvent) → (matches f e ≡ true) ↔ IsSubscribed f e
unfolding matches
matches-IsSubscribed f (log n p entry) = matches_process-IsWanted f p n
matches-IsSubscribed f (process e) = (
  λ h. (ground arith, (matches_process-IsWanted f (project e) (name e)).0 (ground arith)),
  λ (events, wanted). rw events ((matches_process-IsWanted f (project e) (name e)).1 wanted),
)
