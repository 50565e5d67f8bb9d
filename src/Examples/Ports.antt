-- ===== src/Examples/Ports.antt =====
-- Processes that start each other, as `pgrep` reports them, and lines of `lsof`
-- (mcproc/src/daemon/process/port_detector.rs).
use mcproc.Prelude.{
  ℕ, ◌≡◌, refl, subst, inl, inr, true, false, ap, [], ◌∷◌, List, Option, none, some, codes, Text,
  ◌==◌, if◌then◌else◌, arith, Bool-cases, ==_iff, split, parse_nat, trim, trim_end, trim_start,
  is_whitespace, strip_prefix, split_whitespace,
}
use mcproc.Process.Ports.{contains_pid, get_process_tree, children, extract_port, output_ports}
use mcproc.Process.Ports.Tree.{Reach, IsTree, get_process_tree-IsTree}

-- 1 has started 2 and 3, and a process that 2 has started bears the number 1 again.
abbrev pgrep : ℕ → Option Text
pgrep p = if p == 1 then some (codes "2\n3\n") else if p == 2 then some (codes "1\n") else none

abbrev world : List ℕ
world = 1 ∷ 2 ∷ 3 ∷ []

pgrep_other : (u : ℕ) → (u == 1) ≡ false → (u == 2) ≡ false → children pgrep u ≡ []
unfolding children
pgrep_other u one two =
    let silent : pgrep u ≡ none = rw (one, two) refl in
    ap (λ (o : Option Text). children (λ (p : ℕ). o) u) silent

world-closed : (u v : ℕ) → contains_pid v (children pgrep u) ≡ true → contains_pid v world ≡ true
unfolding split parse_nat trim trim_end trim_start is_whitespace
world-closed u v h = elim (Bool-cases (u == 1)) [
  | inl one ↦ of_one (subst (λ x. contains_pid v (children pgrep x) ≡ true) ((==_iff u 1).0 one) h)
  | inr other ↦ elim (Bool-cases (u == 2)) [
    | inl two ↦
        of_two (subst (λ x. contains_pid v (children pgrep x) ≡ true) ((==_iff u 2).0 two) h)
    | inr neither ↦
        none_left (subst (λ ps. contains_pid v ps ≡ true) (pgrep_other u other neither) h)
  ]
]
  where
    of_one : contains_pid v (children pgrep 1) ≡ true → contains_pid v world ≡ true
    of_one h = let e : children pgrep 1 ≡ 2 ∷ 3 ∷ [] = unfold children in refl in ground arith

    of_two : contains_pid v (children pgrep 2) ≡ true → contains_pid v world ≡ true
    of_two h = let e : children pgrep 2 ≡ 1 ∷ [] = unfold children in refl in ground arith

    none_left : contains_pid v [] ≡ true → contains_pid v world ≡ true
    none_left h = ground arith

reached-in_world : (v : ℕ) → Reach (children pgrep) 1 v → contains_pid v world ≡ true
reached-in_world v (Reach.here e) = rw e refl
reached-in_world v (Reach.child u r h) = world-closed u v h

get_process_tree-IsTree_example :
    (tree : List ℕ) × (get_process_tree pgrep 4 1 ≡ some tree) × IsTree (children pgrep) 1 tree
get_process_tree-IsTree_example =
    get_process_tree-IsTree pgrep 1 world reached-in_world 4 (omega arith)

tree_of_one : get_process_tree pgrep 4 1 ≡ some (1 ∷ 2 ∷ 3 ∷ [])
unfolding get_process_tree split parse_nat trim trim_end trim_start is_whitespace
tree_of_one = refl

port_of_wildcard : extract_port (codes "*:3000") ≡ some (codes "3000")
unfolding extract_port strip_prefix split
port_of_wildcard = refl

port_of_bracket : extract_port (codes "[::]:8080") ≡ some (codes "8080")
unfolding extract_port strip_prefix
port_of_bracket = refl

ports_of_lines :
    output_ports
      (some (
        codes
          "COMMAND PID USER FD TYPE DEVICE SIZE/OFF NODE NAME\nnode 7 me 23u IPv4 0x1 0t0 TCP *:3000 (LISTEN)\nnode 7 me 24u IPv6 0x2 0t0 TCP [::1]:3000 (LISTEN)\n"))
      []
    ≡ 3000 ∷ []
unfolding output_ports split split_whitespace is_whitespace strip_prefix parse_nat
ports_of_lines = refl
