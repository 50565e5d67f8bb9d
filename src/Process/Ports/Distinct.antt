-- ===== src/Process/Ports/Distinct.antt =====
-- Lists of process numbers without a repetition, and what is pushed to them
-- (mcproc/src/daemon/process/port_detector.rs).
use mcproc.Prelude.{
  ℕ, suc, ◌≤◌, ◌≡◌, inl, inr, refl, sym, ap, ◌∙◌, subst, Bool, true, false, not, ◌&&◌, ◌||◌, List,
  [], ◌∷◌, ◌++◌, ◌==◌, ==_iff, if◌then◌else◌, any-append, length, append-nil, append_assoc,
  Bool-cases, arith,
}
use mcproc.Process.Ports.{contains_pid, push_new, push_all}

abbrev pub is_distinct : List ℕ → Bool
is_distinct [] = true
is_distinct (p ∷ ps) = not (contains_pid p ps) && is_distinct ps

remove_one : ℕ → List ℕ → List ℕ
remove_one p [] = []
remove_one p (q ∷ ps) = let rest = remove_one p ps in if q == p then ps else q ∷ rest

length-remove_one :
    (p : ℕ) (ps : List ℕ) → contains_pid p ps ≡ true → suc (length (remove_one p ps)) ≡ length ps
unfolding remove_one
length-remove_one p [] h = ground arith
length-remove_one p (q ∷ ps) h = ground (arith, length-remove_one p ps)

contains_pid-remove_one :
    (v p : ℕ) (ps : List ℕ)
    → (v == p) ≡ false
    → contains_pid v ps ≡ true
    → contains_pid v (remove_one p ps) ≡ true
unfolding remove_one
contains_pid-remove_one v p [] e h = h
contains_pid-remove_one v p (q ∷ ps) e h = ground (arith, contains_pid-remove_one v p ps)

contains_pid_other :
    (v p : ℕ) (ps : List ℕ)
    → contains_pid p ps ≡ false
    → contains_pid v ps ≡ true
    → (v == p) ≡ false
contains_pid_other v p ps h m = elim (Bool-cases (v == p)) [
  | inr e ↦ e
  | inl e ↦
      let same : v ≡ p = (==_iff v p).0 e in
      absurd (ground (arith, ap (λ (x : ℕ). contains_pid x ps) same))
]

-- Distinct numbers from a list are no more than the list.
pub pigeonhole :
    (ps qs : List ℕ)
    → is_distinct ps ≡ true
    → ((v : ℕ) → contains_pid v ps ≡ true → contains_pid v qs ≡ true)
    → length ps ≤ length qs
pigeonhole [] qs d inside = omega arith
pigeonhole (p ∷ ps) qs d inside =
    let here : contains_pid p qs ≡ true = inside p (ground arith) in
    let rest = pigeonhole ps (remove_one p qs) (ground arith) (λ v m.
      contains_pid-remove_one v p qs (contains_pid_other v p ps (ground arith) m)
        (inside v (ground arith))) in
    omega (arith, rest, length-remove_one p qs here)

is_distinct-snoc :
    (ps : List ℕ) (c : ℕ)
    → is_distinct ps ≡ true
    → contains_pid c ps ≡ false
    → is_distinct (ps ++ c ∷ []) ≡ true
is_distinct-snoc [] c d h = refl
is_distinct-snoc (p ∷ ps) c d h =
    ground (arith, is_distinct-snoc ps c, any-append (λ (q : ℕ). q == p) ps (c ∷ []))

push_new-extends : (c : ℕ) (ps : List ℕ) → (extra : List ℕ) × (push_new c ps ≡ ps ++ extra)
unfolding push_new
push_new-extends c ps = elim (Bool-cases (contains_pid c ps)) [
  | inl e ↦ ([], rw e (sym (append-nil ps)))
  | inr e ↦ (c ∷ [], rw e)
]

contained_already :
    (v c : ℕ) (ps : List ℕ)
    → contains_pid c ps ≡ true
    → contains_pid v ps ≡ (contains_pid v ps || c == v)
contained_already v c ps e = elim (Bool-cases (c == v)) [
  | inl same ↦
      let here : contains_pid v ps ≡ true =
        subst (λ x. contains_pid x ps ≡ true) ((==_iff c v).0 same) e in
      ground arith
  | inr other ↦ ground arith
]

push_new-contains_pid :
    (v c : ℕ) (ps : List ℕ) → contains_pid v (push_new c ps) ≡ (contains_pid v ps || c == v)
unfolding push_new
push_new-contains_pid v c ps = elim (Bool-cases (contains_pid c ps)) [
  | inl e ↦ rw e (contained_already v c ps e)
  | inr e ↦ rw e (any-append (λ q. q == v) ps (c ∷ []) ∙ ground arith)
]

push_new-is_distinct :
    (c : ℕ) (ps : List ℕ) → is_distinct ps ≡ true → is_distinct (push_new c ps) ≡ true
unfolding push_new
push_new-is_distinct c ps d = elim (Bool-cases (contains_pid c ps)) [
  | inl e ↦ rw e d
  | inr e ↦ rw e (is_distinct-snoc ps c d e)
]

-- Pushing children keeps what is there in place.
pub push_all_lem :
    (cs ps : List ℕ)
    → is_distinct ps ≡ true
    → (extra : List ℕ) × (push_all cs ps ≡ ps ++ extra)
      × (is_distinct (ps ++ extra) ≡ true)
      × ((v : ℕ) → contains_pid v (ps ++ extra) ≡ (contains_pid v ps || contains_pid v cs))
unfolding push_all
push_all_lem [] ps d =
    ([], sym (append-nil ps), rw (append-nil ps) d, λ v. rw (append-nil ps) (ground arith))
push_all_lem (c ∷ cs) ps d =
    let (one, e) = push_new-extends c ps in
    let (extra, e', d', m) = push_all_lem cs (push_new c ps) (push_new-is_distinct c ps d) in
    let same : push_new c ps ++ extra ≡ ps ++ (one ++ extra) =
      ap (λ t. t ++ extra) e ∙ append_assoc ps one extra in
    (
      one ++ extra,
      e' ∙ same,
      subst (λ t. is_distinct t ≡ true) same d',
      λ v.
          subst (λ t. contains_pid v t ≡ (contains_pid v ps || contains_pid v (c ∷ cs))) same
            (ground (arith, m v, push_new-contains_pid v c ps)),
    )
