-- ===== src/Process/Events.antt =====
-- The events of processes (mcproc/src/daemon/process/event.rs) and which of them a subscriber gets
-- (`StreamFilter` of mcproc/src/daemon/stream/mod.rs).
pub mod Filter
use mcproc.Prelude.{
  ℕ, Bool, true, false, not, List, Option, none, some, ◌&&◌, is_empty, if◌then◌else◌, ℤ, Text,
  text_eq, contains_text,
}

pub data ProcessEvent : Type 0 where
  starting stopping : (process_id name project : Text) → ProcessEvent
  started : (process_id name project : Text) (pid : ℕ) → ProcessEvent
  stopped : (process_id name project : Text) (exit_code : Option ℤ) → ProcessEvent
  failed : (process_id name project error : Text) → ProcessEvent

unfoldable pub name : ProcessEvent → Text
name (starting i n p) = n
name (stopping i n p) = n
name (started i n p pid) = n
name (stopped i n p code) = n
name (failed i n p e) = n

unfoldable pub project : ProcessEvent → Text
project (starting i n p) = p
project (stopping i n p) = p
project (started i n p pid) = p
project (stopped i n p code) = p
project (failed i n p e) = p

-- A log event has an entry, which no filter reads: it is its content here.
pub data StreamEvent : Type 0 where
  process : ProcessEvent → StreamEvent
  log : (process_name project entry : Text) → StreamEvent

pub record StreamFilter : Type 0 where
  pub project : Option Text
  pub process_names : List Text
  pub include_events : Bool

unfoldable pub other_project : Option Text → Text → Bool
other_project none p = false
other_project (some q) p = not (text_eq q p)

unfoldable pub matches_process : StreamFilter → Text → Text → Bool
unfolding other_project
matches_process f p n =
    if other_project f.project p
    then false
    else if not (is_empty f.process_names) && not (contains_text n f.process_names)
    then false
    else true

unfoldable pub matches : StreamFilter → StreamEvent → Bool
unfolding matches_process
matches f (process event) =
    if not f.include_events then false else matches_process f (project event) (name event)
matches f (log n p entry) = matches_process f p n
