-- ===== src/Process/Ports/Tree.antt =====
-- The list of a process and of those that it started is complete, and found in finitely many steps
-- (`get_process_tree` of mcproc/src/daemon/process/port_detector.rs).
use mcproc.Prelude.{
  ℕ, zero, suc, ◌+◌, ◌≤◌, ◌<◌, ◌≡◌, ◌↔◌, inl, inr, refl, sym, ap, ◌∙◌, subst, true, ◌||◌, List, [],
  ◌∷◌, ◌++◌, Option, some, ◌==◌, ==_iff, any-append, drop, length, length-append, append-nil,
  append_assoc, Bool-cases, arith, Text,
}
use mcproc.Process.Ports.{contains_pid, push_all, tree_loop, get_process_tree, children}
use mcproc.Process.Ports.Distinct.{is_distinct, pigeonhole, push_all_lem}

-- The processes that are reached from `root`: it, and the children of each.
pub data Reach (kids : ℕ → List ℕ) (root : ℕ) : ℕ → Type 0 where
  here : {v : ℕ} → v ≡ root → Reach kids root v
  child : (u : ℕ) {v : ℕ} → Reach kids root u → contains_pid v (kids u) ≡ true → Reach kids root v

drop_done : (done todo : List ℕ) → drop (length done) (done ++ todo) ≡ todo
drop_done [] todo = refl
drop_done (p ∷ done) todo = drop_done done todo

-- What the loop keeps: `done` is what it has asked for children, the start of `pids`.
record Inv (kids : ℕ → List ℕ) (root : ℕ) (done pids : List ℕ) : Type 0 where
  rooted : contains_pid root pids ≡ true
  distinct : is_distinct pids ≡ true
  sound : (v : ℕ) → contains_pid v pids ≡ true → Reach kids root v
  closed :
      (u v : ℕ)
      → contains_pid u done ≡ true
      → contains_pid v (kids u) ≡ true
      → contains_pid v pids ≡ true

-- The list that is wanted: each process that is reached, once.
abbrev pub IsTree : (ℕ → List ℕ) → ℕ → List ℕ → Type 0
IsTree kids root pids =
    (is_distinct pids ≡ true) × ((v : ℕ) → (contains_pid v pids ≡ true) ↔ Reach kids root v)

module _ (kids : ℕ → List ℕ) (root : ℕ) where
  Inv-complete :
      (pids : List ℕ)
      → Inv kids root pids pids
      → (v : ℕ) → Reach kids root v
      → contains_pid v pids ≡ true
  Inv-complete pids inv v (Reach.here e) = rw e inv.rooted
  Inv-complete pids inv v (Reach.child u r h) = inv.closed u v (Inv-complete pids inv u r) h

  Inv-done : (pids : List ℕ) → Inv kids root pids pids → IsTree kids root pids
  Inv-done pids inv = (inv.distinct, λ v. (inv.sound v, Inv-complete pids inv v))

  -- One round: the children of the next process are pushed.
  Inv-step :
      (done : List ℕ) (p : ℕ) (rest extra : List ℕ)
      → Inv kids root done (done ++ p ∷ rest)
      → is_distinct ((done ++ p ∷ rest) ++ extra) ≡ true
      → ((v : ℕ)
          → contains_pid v ((done ++ p ∷ rest) ++ extra)
            ≡ (contains_pid v (done ++ p ∷ rest) || contains_pid v (kids p)))
      → Inv kids root (done ++ p ∷ []) ((done ++ p ∷ rest) ++ extra)
  Inv-step done p rest extra inv d m = record {
    rooted = ground (arith, m root, inv.rooted);
    distinct = d;
    sound = λ v h. sound_step v h;
    closed = λ u v h k. closed_step u v h k;
  }
    where
      of_p : (v : ℕ) → contains_pid v (kids p) ≡ true → Reach kids root v
      of_p v h =
          Reach.child p
            (inv.sound p
              (ground (arith, any-append (λ (q : ℕ). q == p) done (p ∷ rest), ==_iff p p)))
            h

      sound_step : (v : ℕ) → contains_pid v ((done ++ p ∷ rest) ++ extra) ≡ true → Reach kids root v
      sound_step v h = elim (Bool-cases (contains_pid v (done ++ p ∷ rest))) [
        | inl old ↦ inv.sound v old
        | inr new ↦ of_p v (ground (arith, m v))
      ]

      closed_step :
          (u v : ℕ)
          → contains_pid u (done ++ p ∷ []) ≡ true
          → contains_pid v (kids u) ≡ true
          → contains_pid v ((done ++ p ∷ rest) ++ extra) ≡ true
      closed_step u v h k = elim (Bool-cases (contains_pid u done)) [
        | inl old ↦ ground (arith, m v, inv.closed u v old k)
        | inr new ↦
            let same : p ≡ u =
              (==_iff p u).0 (ground (arith, any-append (λ (q : ℕ). q == u) done (p ∷ []))) in
            ground (arith, m v, subst (λ x. contains_pid v (kids x) ≡ true) (sym same) k)
      ]

  drop_room : (done todo : List ℕ) → length done ≤ length (done ++ todo)
  drop_room done todo = omega (arith, length-append done todo)

  tree_loop-ends :
      (fuel next : ℕ) (pids : List ℕ)
      → drop next pids ≡ []
      → tree_loop kids (suc fuel) next pids ≡ some pids
  unfolding tree_loop
  tree_loop-ends fuel next pids e = rw (e, tree_loop) refl

  tree_loop-goes_on :
      (fuel next : ℕ) (pids : List ℕ) (p : ℕ) (rest : List ℕ)
      → drop next pids ≡ p ∷ rest
      → tree_loop kids (suc fuel) next pids
        ≡ tree_loop kids fuel (suc next) (push_all (kids p) pids)
  unfolding tree_loop
  tree_loop-goes_on fuel next pids p rest e = rw (e, tree_loop) refl

  tree_loop_lem :
      (world : List ℕ)
      → ((v : ℕ) → Reach kids root v → contains_pid v world ≡ true)
      → (fuel : ℕ) (done todo pids : List ℕ) → pids ≡ done ++ todo
      → Inv kids root done pids
      → length world < fuel + length done
      → (tree : List ℕ) × (tree_loop kids fuel (length done) pids ≡ some tree)
        × IsTree kids root tree
  unfolding tree_loop
  tree_loop_lem world inside zero done todo pids e inv enough = absurd (
      omega (
        arith,
        pigeonhole pids world inv.distinct (λ v h. inside v (inv.sound v h)),
        ap length e,
        drop_room done todo,
      ))
  tree_loop_lem world inside (suc fuel) done [] pids e inv enough =
      let whole : done ≡ pids = sym (e ∙ append-nil done) in
      (
        pids,
        tree_loop-ends fuel (length done) pids (ap (drop (length done)) e ∙ drop_done done []),
        Inv-done pids (subst (λ t. Inv kids root t pids) whole inv),
      )
  tree_loop_lem world inside (suc fuel) done (p ∷ rest) pids e inv enough =
      let (extra, pushed, d, m) = push_all_lem (kids p) pids inv.distinct in
      let inv' =
        Inv-step done p rest extra (subst (λ t. Inv kids root done t) e inv)
          (subst (λ t. is_distinct (t ++ extra) ≡ true) e d)
          (λ v.
            subst (λ t. contains_pid v (t ++ extra) ≡ (contains_pid v t || contains_pid v (kids p)))
              e (m v)) in
      let shape : push_all (kids p) pids ≡ (done ++ p ∷ rest) ++ extra =
        pushed ∙ ap (λ t. t ++ extra) e in
      let next : length (done ++ p ∷ []) ≡ suc (length done) =
        omega (arith, length-append done (p ∷ [])) in
      let (tree, ran, good) =
        tree_loop_lem world inside fuel (done ++ p ∷ []) (rest ++ extra) (push_all (kids p) pids)
          (shape
            ∙ append_assoc done (p ∷ rest) extra
            ∙ sym (append_assoc done (p ∷ []) (rest ++ extra)))
          (subst (λ t. Inv kids root (done ++ p ∷ []) t) (sym shape) inv') (omega (arith, next)) in
      (
        tree,
        tree_loop-goes_on fuel (length done) pids p rest
              (ap (drop (length done)) e ∙ drop_done done (p ∷ rest))
            ∙ (subst (λ n. tree_loop kids fuel n (push_all (kids p) pids) ≡ some tree) next ran),
        good,
      )

-- Where finitely many processes are started from `pid`, directly or not, the list of a process and of its
-- descendants is found: with more rounds than there are such processes, `get_process_tree` returns, its list
-- names each of them, no other process, and none twice, cycles in what `pgrep` reports included.
pub get_process_tree-IsTree :
    (pgrep : ℕ → Option Text) (pid : ℕ) (world : List ℕ)
    → ((v : ℕ) → Reach (children pgrep) pid v → contains_pid v world ≡ true)
    → (fuel : ℕ) → length world < fuel
    → (tree : List ℕ) × (get_process_tree pgrep fuel pid ≡ some tree)
      × IsTree (children pgrep) pid tree
unfolding get_process_tree
get_process_tree-IsTree pgrep pid world inside fuel enough =
    tree_loop_lem (children pgrep) pid world inside fuel [] (pid ∷ []) (pid ∷ []) refl
      (record {
        rooted = ground (arith, ==_iff pid pid);
        distinct = refl;
        sound = λ v h. Reach.here (sym ((==_iff pid v).0 (ground arith)));
        closed = λ u v h k. absurd (ground arith);
      })
      (omega arith)
