-- ===== src/Process/Ports.antt =====
-- The ports of a process and of those that it started
-- (mcproc/src/daemon/process/port_detector.rs). `pgrep` and `lsof` are functions, of the system: the
-- text of a call that succeeded.
pub mod Distinct
pub mod Tree
use mcproc.Prelude.{
  ℕ, zero, suc, ◌+◌, ◌≡◌, Bool, true, false, not, ◌&&◌, ◌||◌, List, [], ◌∷◌, ◌++◌, Option, none,
  some, ltb, leb, ◌==◌, if◌then◌else◌, any, drop, length, Text, codes, contains, split,
  split_whitespace, parse_nat, u32_max, trim, strip_prefix,
}

-- `pids.contains(&pid)`
abbrev pub contains_pid : ℕ → List ℕ → Bool
contains_pid p ps = any (λ q. q == p) ps

unfoldable pub push_new : ℕ → List ℕ → List ℕ
push_new p ps = if contains_pid p ps then ps else ps ++ p ∷ []

-- `stdout.lines()`: the lines without their ends; a last line that is empty is none.
unfoldable pub drop_cr : Text → Text
drop_cr [] = []
drop_cr (c ∷ []) = if c == b'\r' then [] else c ∷ []
drop_cr (c ∷ d ∷ s) = c ∷ drop_cr (d ∷ s)

unfoldable pub lines_of : List Text → List Text
unfolding drop_cr
lines_of [] = []
lines_of ([] ∷ []) = []
lines_of ((c ∷ s) ∷ []) = (c ∷ s) ∷ []
lines_of (s ∷ t ∷ rest) = drop_cr s ∷ lines_of (t ∷ rest)

unfoldable pub lines : Text → List Text
unfolding lines_of
lines s = lines_of (split b'\n' s)

-- The children that the output of `pgrep -P` names.
unfoldable pub parse_pids : List Text → List ℕ
parse_pids [] = []
parse_pids (line ∷ rest) = elim (parse_nat u32_max (trim line)) [
  | none ↦ parse_pids rest
  | some p ↦ p ∷ parse_pids rest
]

unfoldable pub children : (ℕ → Option Text) → ℕ → List ℕ
unfolding parse_pids lines
children pgrep p = elim (pgrep p) [ none ↦ [] | some stdout ↦ parse_pids (lines stdout) ]

unfoldable pub push_all : List ℕ → List ℕ → List ℕ
unfolding push_new
push_all [] ps = ps
push_all (c ∷ cs) ps = push_all cs (push_new c ps)

-- The loop of `get_process_tree` over a list that grows: from index `next` on. `none`: the fuel ran out.
unfoldable pub tree_loop : (ℕ → List ℕ) → ℕ → ℕ → List ℕ → Option (List ℕ)
unfolding push_all
tree_loop kids zero next pids = none
tree_loop kids (suc fuel) next pids = elim (drop next pids) [
  | [] ↦ some pids
  | p ∷ rest ↦ tree_loop kids fuel (suc next) (push_all (kids p) pids)
]

unfoldable pub get_process_tree : (ℕ → Option Text) → ℕ → ℕ → Option (List ℕ)
unfolding tree_loop children
get_process_tree pgrep fuel pid = tree_loop (children pgrep) fuel 0 (pid ∷ [])

-- `name.split("]:").nth(1)`: what stands between the first `]:` and the second.
unfoldable pub before_mark : Text → Text
before_mark [] = []
before_mark (c ∷ s) = elim (strip_prefix (codes "]:") (c ∷ s)) [
  | some behind ↦ []
  | none ↦ c ∷ before_mark s
]

unfoldable pub behind_mark : Text → Option Text
behind_mark [] = none
behind_mark (c ∷ s) = elim (strip_prefix (codes "]:") (c ∷ s)) [
  | some behind ↦ some behind
  | none ↦ behind_mark s
]

unfoldable pub second : List Text → Option Text
second (a ∷ b ∷ rest) = some b
second _ = none

unfoldable pub extract_port : Text → Option Text
unfolding behind_mark before_mark second
extract_port name = elim (behind_mark name) [
  | some behind ↦ some (before_mark behind)
  | none ↦ second (split b':' name)
]

-- `parts[8]`, where there are nine parts.
unfoldable pub ninth : List Text → Option Text
ninth parts = elim (drop 8 parts) [ [] ↦ none | name ∷ rest ↦ some name ]

unfoldable pub port_of_name : Option Text → Option ℕ
unfolding extract_port
port_of_name none = none
port_of_name (some name) = elim (extract_port name) [
  | none ↦ none
  | some port ↦ parse_nat u32_max port
]

unfoldable pub push_port : Option ℕ → List ℕ → List ℕ
unfolding push_new
push_port none ports = ports
push_port (some port) ports = push_new port ports

unfoldable pub line_ports : List Text → List ℕ → List ℕ
unfolding push_port port_of_name ninth
line_ports [] ports = ports
line_ports (line ∷ rest) ports =
    line_ports rest (push_port (port_of_name (ninth (split_whitespace line))) ports)

-- The output of `lsof` for one process; its first line is a header.
unfoldable pub output_ports : Option Text → List ℕ → List ℕ
unfolding line_ports lines
output_ports none ports = ports
output_ports (some stdout) ports = line_ports (drop 1 (lines stdout)) ports

unfoldable pub all_ports : (ℕ → Option Text) → List ℕ → List ℕ → List ℕ
unfolding output_ports
all_ports lsof [] ports = ports
all_ports lsof (p ∷ pids) ports = all_ports lsof pids (output_ports (lsof p) ports)

-- `detect_ports`
unfoldable pub detect_ports : (ℕ → Option Text) → (ℕ → Option Text) → ℕ → ℕ → Option (List ℕ)
unfolding get_process_tree all_ports
detect_ports pgrep lsof fuel pid = elim (get_process_tree pgrep fuel pid) [
  | none ↦ none
  | some pids ↦ some (all_ports lsof pids [])
]
