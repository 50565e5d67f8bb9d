-- ===== src/Process/Cleaning/Keeps.antt =====
-- What cleaning a project stops, and what it leaves alone (mcproc/src/daemon/process/manager.rs).
use mathlib.Core.List.{Memᴰ}
use mcproc.Prelude.{
  some_inj, ◌≡◌, ◌≢◌, refl, sym, ◌∙◌, subst, ◌⊎◌, inl, inr, Bool, true, false, List, [], ◌∷◌, none,
  some, Text, text_eq_refl, text_eq_iff, contains_text, arith,
}
use mcproc.Process.Proxy.{ProxyInfo}
use mcproc.Process.Registry.{ProcessRegistry, get_process_by_id}
use mcproc.Process.Registry.Lookup.{uuid_found}
use mcproc.Process.Lifecycle.{
  Attempt, StopResult, removed, process_not_found, stop_error, stop_process,
}
use mcproc.Process.Lifecycle.Calls.{Stops, stop_process-Stops}
use mcproc.Process.Cleaning.{note_stopped, stop_each}

abbrev pub ids : List ProxyInfo → List Text
ids [] = []
ids (p ∷ ps) = p.id ∷ ids ps

-- The processes stand in the registry, in the project, under different identifiers, which are UUIDs.
abbrev pub Listed : (Text → Bool) → Text → ProcessRegistry → List ProxyInfo → Type 0
Listed is_uuid project r [] = Unit
Listed is_uuid project r (p ∷ ps) =
    (get_process_by_id p.id r ≡ some p)
    × (p.project ≡ project)
    × (is_uuid p.id ≡ true)
    × (contains_text p.id (ids ps) ≡ false)
    × Listed is_uuid project r ps

-- What becomes of a process: it is gone and its name is listed, or it is still registered.
abbrev pub Outcome : ProxyInfo → ProcessRegistry → List Text → Type 0
Outcome p r names =
    ((get_process_by_id p.id r ≡ none) × (contains_text p.name names ≡ true))
    ⊎ ((q : ProxyInfo) × (get_process_by_id p.id r ≡ some q))

module _ (is_uuid : Text → Bool) (attempt : Bool → ProxyInfo → Attempt) (project : Text)
    (force : Bool) where
  -- One stop: what becomes of its process, and no other is touched.
  abbrev StopsOne : ProxyInfo → ProcessRegistry → ProcessRegistry → StopResult → Type 0
  StopsOne p r r' result =
      Outcome p r' (note_stopped result p.name [])
      × ((id : Text) → id ≢ p.id → get_process_by_id id r' ≡ get_process_by_id id r)

  by_result :
      (p : ProxyInfo) (r r' : ProcessRegistry) (result : StopResult)
      → get_process_by_id p.id r ≡ some p
      → Stops attempt force p r r' result
      → StopsOne p r r' result
  unfolding note_stopped
  by_result p r r' removed here (freed, gone, others) =
      (inl (gone, ground (arith, text_eq_refl p.name)), others)
  by_result p r r' stop_error here ((q, ended, still), same, others) = (inr (q, still), others)
  by_result p r r' process_not_found here e = absurd e

  stops_one :
      (r : ProcessRegistry) (p : ProxyInfo)
      → get_process_by_id p.id r ≡ some p
      → p.project ≡ project
      → is_uuid p.id ≡ true
      → let result = stop_process is_uuid attempt p.id (some project) force r in
        StopsOne p r result.0 result.2
  stops_one r p here same uuid =
      elim (stop_process-Stops is_uuid attempt p.id (some project) force r) [
        | inl (none_found, e) ↦
            absurd (ground (arith, uuid_found is_uuid project r p here same uuid))
        | inr (q, found, said, stops) ↦
            let same_one : q ≡ p =
              some_inj q p (sym found ∙ uuid_found is_uuid project r p here same uuid) in
            let result = stop_process is_uuid attempt p.id (some project) force r in
            by_result p r result.0 result.2 here
              (subst (λ x. Stops attempt force x r result.0 result.2) same_one stops)
      ]

  -- The rest of the list is still there.
  Listed-moves :
      (r r' : ProcessRegistry) (id : Text) (ps : List ProxyInfo)
      → ((j : Text) → j ≢ id → get_process_by_id j r' ≡ get_process_by_id j r)
      → contains_text id (ids ps) ≡ false
      → Listed is_uuid project r ps
      → Listed is_uuid project r' ps
  Listed-moves r r' id [] same apart listed = tt
  Listed-moves r r' id (p ∷ ps) same apart (here, in_it, uuid, distinct, rest) = (
    same p.id (λ e. ground (arith, text_eq_iff p.id id)) ∙ here,
    in_it,
    uuid,
    distinct,
    Listed-moves r r' id ps same (ground arith) rest,
  )

  -- A process that is noted stays noted.
  Outcome-notes :
      (q : ProxyInfo) (r : ProcessRegistry) (result : StopResult) (name : Text) (names : List Text)
      → Outcome q r names
      → Outcome q r (note_stopped result name names)
  unfolding note_stopped
  Outcome-notes q r removed name names (inl (gone, noted)) = inl (gone, ground arith)
  Outcome-notes q r stop_error name names (inl (gone, noted)) = inl (gone, noted)
  Outcome-notes q r process_not_found name names (inl (gone, noted)) = inl (gone, noted)
  Outcome-notes q r result name names (inr still) = inr still

  Outcome-lasts :
      (p : ProxyInfo) (r r' : ProcessRegistry) (result : StopResult) (names : List Text)
      → get_process_by_id p.id r' ≡ get_process_by_id p.id r
      → Outcome p r (note_stopped result p.name [])
      → Outcome p r' (note_stopped result p.name names)
  unfolding note_stopped
  Outcome-lasts p r r' removed names same (inl (gone, noted)) =
      inl (same ∙ gone, ground (arith, text_eq_refl p.name))
  Outcome-lasts p r r' stop_error names same (inl (gone, noted)) = absurd (ground arith)
  Outcome-lasts p r r' process_not_found names same (inl (gone, noted)) = absurd (ground arith)
  Outcome-lasts p r r' result names same (inr (q, still)) = inr (q, same ∙ still)

  each_outcome :
      (p q : ProxyInfo) (ps : List ProxyInfo) (r r' : ProcessRegistry) (result : StopResult)
      (names : List Text)
      → get_process_by_id p.id r' ≡ get_process_by_id p.id r
      → Outcome p r (note_stopped result p.name [])
      → ((q : ProxyInfo) → Memᴰ q ps → Outcome q r' names)
      → Memᴰ q (p ∷ ps)
      → Outcome q r' (note_stopped result p.name names)
  each_outcome p q ps r r' result names same first later (Memᴰ.head e) =
      subst (λ x. Outcome x r' (note_stopped result p.name names)) (sym e)
        (Outcome-lasts p r r' result names same first)
  each_outcome p q ps r r' result names same first later (Memᴰ.tail m) =
      Outcome-notes q r' result p.name names (later q m)

  pub stop_each_lem :
      (r : ProcessRegistry) (ps : List ProxyInfo)
      → Listed is_uuid project r ps
      → let (r', events, names) = stop_each is_uuid attempt project force ps r in
        ((p : ProxyInfo) → Memᴰ p ps → Outcome p r' names)
        × ((id : Text)
            → contains_text id (ids ps) ≡ false
            → get_process_by_id id r' ≡ get_process_by_id id r)
  unfolding stop_each
  stop_each_lem r [] listed = (λ p m. elim m [ ], λ id apart. refl)
  stop_each_lem r (p ∷ ps) (here, in_it, uuid, distinct, rest) =
      let first = stop_process is_uuid attempt p.id (some project) force r in
      let (becomes, others) = stops_one r p here in_it uuid in
      let (later, kept) =
        stop_each_lem first.0 ps (Listed-moves r first.0 p.id ps others distinct rest) in
      (
        λ q m.
            each_outcome p q ps first.0 (stop_each is_uuid attempt project force ps first.0).0
              first.2 (stop_each is_uuid attempt project force ps first.0).2 (kept p.id distinct)
              becomes later m,
        λ id apart. kept id (ground arith) ∙ others id (λ e. ground (arith, text_eq_iff p.id id)),
      )
