-- ===== src/Log/Grep/Window.antt =====
-- The window before a line, and the matches that wait for the lines behind them
-- (`grep_log_file` of mcproc/src/daemon/api/grpc/log_handlers.rs).
use mcproc.Prelude.{
  ℕ, zero, suc, ◌-◌, ◌≤◌, ◌≡◌, ◌⊎◌, inl, inr, refl, sym, ap, ◌∙◌, true, false, List, [], ◌∷◌, ◌++◌,
  map, leb, ltb, ◌==◌, length, take, length-append, length-drop, drop-append, last, last_none,
  last-snoc, Bool-cases, append-nil, append_assoc, arith, subst,
}
use mcproc.Log.Grep.{
  LogEntry, ParsedLogLine, PendingMatch, GrepMatch, push_after, push_before, close, completed,
  waiting, to_log_entry,
}

-- The window holds the last lines.
pub push_before-last :
    (before : ℕ) (line : ParsedLogLine) (seen : List ParsedLogLine)
    → push_before before line (last before seen) ≡ last before (seen ++ line ∷ [])
unfolding push_before
push_before-last zero line seen = last_none seen ∙ sym (last_none (seen ++ line ∷ []))
push_before-last (suc k) line seen =
    let pos : ltb 0 (suc k) ≡ true = ground arith in
    let l : length (last (suc k) seen) ≡ length seen - (length seen - suc k) =
      length-drop (length seen - suc k) seen in
    elim (Bool-cases (leb (suc k) (length seen))) [
      | inl full ↦
          let long : ltb (suc k) (length (last (suc k) seen ++ line ∷ [])) ≡ true =
            ground (arith, length-append (last (suc k) seen) (line ∷ [])) in
          rw (pos, long, last-snoc (suc k) line seen (omega arith), full)
            (drop-append 1 (last (suc k) seen) (line ∷ []) (ground arith))
      | inr room ↦
          let short : ltb (suc k) (length (last (suc k) seen ++ line ∷ [])) ≡ false =
            ground (arith, length-append (last (suc k) seen) (line ∷ [])) in
          rw (pos, short, last-snoc (suc k) line seen (omega arith), room)
    ]

-- A match as it will be when these lines have come.
abbrev pub fill : List ParsedLogLine → PendingMatch → GrepMatch
fill lines p = record {
  matched_line = p.matched_line;
  context_before = p.context_before;
  context_after = p.context_after ++ map to_log_entry (take p.after_remaining lines);
}

pub fill-close :
    (lines : List ParsedLogLine) (p : PendingMatch) → p.after_remaining ≡ 0 → fill lines p ≡ close p
unfolding close
fill-close lines p e = λ i. record {
  matched_line = p.matched_line;
  context_before = p.context_before;
  context_after = no_more i;
}
  where
    no_more : p.context_after ++ map to_log_entry (take p.after_remaining lines) ≡ p.context_after
    no_more = rw e (append-nil p.context_after)

-- At the end of the file.
pub fill-close_nil : (p : PendingMatch) → fill [] p ≡ close p
unfolding close
fill-close_nil p = λ i. record {
  matched_line = p.matched_line;
  context_before = p.context_before;
  context_after = no_more p.after_remaining i;
}
  where
    no_more : (n : ℕ) → p.context_after ++ map to_log_entry (take n []) ≡ p.context_after
    no_more zero = append-nil p.context_after
    no_more (suc n) = append-nil p.context_after

take_step {ℓ} :
    {A : Type ℓ} (n : ℕ) (x : A) (xs : List A)
    → ltb 0 n ≡ true
    → take n (x ∷ xs) ≡ x ∷ take (n - 1) xs
take_step zero x xs h = ground arith
take_step (suc n) x xs h = let e : suc n - 1 ≡ n = omega arith in rw e

take_none {ℓ} : {A : Type ℓ} (n : ℕ) (xs : List A) → ltb 0 n ≡ false → take n xs ≡ []
take_none zero xs h = refl
take_none (suc n) xs h = absurd (ground arith)

pub fill-push_after :
    (x : ParsedLogLine) (lines : List ParsedLogLine) (p : PendingMatch)
    → fill (x ∷ lines) p ≡ fill lines (push_after (to_log_entry x) p)
unfolding push_after
fill-push_after x lines p = elim (Bool-cases (ltb 0 p.after_remaining)) [
  | inl e ↦ rw e (λ i. record {
    matched_line = p.matched_line;
    context_before = p.context_before;
    context_after = one e i;
  })
  | inr e ↦ rw e (λ i. record {
    matched_line = p.matched_line;
    context_before = p.context_before;
    context_after = none_left e i;
  })
]
  where
    one :
        ltb 0 p.after_remaining ≡ true
        → p.context_after ++ map to_log_entry (take p.after_remaining (x ∷ lines))
          ≡ (p.context_after ++ to_log_entry x ∷ [])
            ++ map to_log_entry (take (p.after_remaining - 1) lines)
    one e = rw (take_step p.after_remaining x lines e) (
        sym (
          append_assoc p.context_after (to_log_entry x ∷ [])
            (map to_log_entry (take (p.after_remaining - 1) lines))))

    none_left :
        ltb 0 p.after_remaining ≡ false
        → p.context_after ++ map to_log_entry (take p.after_remaining (x ∷ lines))
          ≡ p.context_after ++ map to_log_entry (take p.after_remaining lines)
    none_left e =
        rw (take_none p.after_remaining (x ∷ lines) e, take_none p.after_remaining lines e)

-- The matches wait for more and more lines, each for `lo` or more, and for less than `hi`.
abbrev pub Staggered : ℕ → ℕ → List PendingMatch → Type 0
Staggered lo hi [] = lo ≤ hi
Staggered lo hi (p ∷ ps) = (lo ≤ p.after_remaining) × Staggered (suc p.after_remaining) hi ps

Staggered-widen :
    (lo hi : ℕ) (ps : List PendingMatch) → Staggered lo hi ps → Staggered lo (suc hi) ps
Staggered-widen lo hi [] h = omega arith
Staggered-widen lo hi (p ∷ ps) (a, h) = (a, Staggered-widen (suc p.after_remaining) hi ps h)

Staggered-snoc :
    (lo hi : ℕ) (ps : List PendingMatch) (p : PendingMatch)
    → p.after_remaining ≡ hi
    → Staggered lo hi ps
    → Staggered lo (suc hi) (ps ++ p ∷ [])
Staggered-snoc lo hi [] p e h = (omega arith, omega arith)
Staggered-snoc lo hi (q ∷ ps) p e (a, h) = (a, Staggered-snoc (suc q.after_remaining) hi ps p e h)

remaining-push_after :
    (entry : LogEntry) (p : PendingMatch)
    → (push_after entry p).after_remaining ≡ p.after_remaining - 1
unfolding push_after
remaining-push_after entry p = ground arith

Staggered-push_after :
    (lo hi : ℕ) (entry : LogEntry) (ps : List PendingMatch)
    → Staggered (suc lo) (suc hi) ps
    → Staggered lo hi (map (push_after entry) ps)
Staggered-push_after lo hi entry [] h = omega arith
Staggered-push_after lo hi entry (p ∷ ps) (a, h) =
    let r = remaining-push_after entry p in
    let e : p.after_remaining ≡ suc (push_after entry p).after_remaining = omega (arith, r) in
    (
      omega (arith, r),
      subst (λ n. Staggered n hi (map (push_after entry) ps)) e
          (Staggered-push_after p.after_remaining hi entry ps h),
    )

-- Matches that all wait.
late_all :
    (lo hi : ℕ) (ps : List PendingMatch)
    → Staggered (suc lo) hi ps
    → (completed ps ≡ []) × (waiting ps ≡ ps)
unfolding completed waiting
late_all lo hi [] h = (refl, refl)
late_all lo hi (p ∷ ps) (a, h) =
    let (c, w) = late_all p.after_remaining hi ps h in
    let e : (p.after_remaining == 0) ≡ false = ground arith in (rw e c, rw e (ap (λ t. p ∷ t) w))

-- What may wait between two lines: with no context behind a match, one match at most, which is complete;
-- else matches that each wait for one line more than the one before, or more.
abbrev pub Stored : ℕ → List PendingMatch → Type 0
Stored zero ps = Staggered 0 1 ps
Stored (suc after) ps = Staggered 1 (suc (suc after)) ps

-- What may wait once the complete matches are gone.
abbrev pub Free : ℕ → List PendingMatch → Type 0
Free zero ps = ps ≡ []
Free (suc after) ps = Staggered 1 (suc after) ps

-- A line completes no match, or the first of those that wait.
abbrev pub Settles : ℕ → List PendingMatch → Type 0
Settles after ps =
    ((completed ps ≡ []) × (waiting ps ≡ ps) × Free after ps)
    ⊎ ((p : PendingMatch) × (rest : List PendingMatch) × (ps ≡ p ∷ rest)
        × (p.after_remaining ≡ 0)
        × (completed ps ≡ p ∷ [])
        × (waiting ps ≡ rest)
        × Free after rest)

no_more_than : (lo hi : ℕ) (ps : List PendingMatch) → Staggered lo hi ps → lo ≤ hi
no_more_than lo hi [] h = h
no_more_than lo hi (p ∷ ps) (a, h) = omega (arith, no_more_than (suc p.after_remaining) hi ps h)

Settles-Staggered :
    (after : ℕ) (ps : List PendingMatch) → Staggered 0 (suc after) ps → Settles (suc after) ps
unfolding completed waiting
Settles-Staggered after [] h = inl (refl, refl, omega arith)
Settles-Staggered after (p ∷ ps) (a, h) = elim (Bool-cases (p.after_remaining == 0)) [
  | inl e ↦
      let z : p.after_remaining ≡ 0 = ground arith in
      let late : Staggered 1 (suc after) ps = subst (λ n. Staggered (suc n) (suc after) ps) z h in
      let (c, w) = late_all 0 (suc after) ps late in
      inr (p, ps, refl, z, rw e (ap (λ t. p ∷ t) c), rw e w, late)
  | inr e ↦
      let (c, w) = late_all p.after_remaining (suc after) ps h in
      inl (rw e c, rw e (ap (λ t. p ∷ t) w), (ground arith, h))
]

complete : (p : PendingMatch) → p.after_remaining ≡ 0 → completed (p ∷ []) ≡ p ∷ []
unfolding completed
complete p z = let e : (p.after_remaining == 0) ≡ true = ground arith in rw e

none_waits : (p : PendingMatch) → p.after_remaining ≡ 0 → waiting (p ∷ []) ≡ []
unfolding waiting
none_waits p z = let e : (p.after_remaining == 0) ≡ true = ground arith in rw e

pub settles :
    (after : ℕ) (entry : LogEntry) (ps : List PendingMatch)
    → Stored after ps
    → Settles after (map (push_after entry) ps)
settles (suc after) entry ps h =
    Settles-Staggered after (map (push_after entry) ps)
      (Staggered-push_after 0 (suc after) entry ps h)
settles zero entry [] h = inl (unfold completed waiting in (refl, refl, refl))
settles zero entry (p ∷ []) (a, h) =
    let z : (push_after entry p).after_remaining ≡ 0 =
      omega (arith, remaining-push_after entry p) in
    inr (
      push_after entry p,
      [],
      refl,
      z,
      complete (push_after entry p) z,
      none_waits (push_after entry p) z,
      refl,
    )
settles zero entry (p ∷ q ∷ ps) (a, (b, h)) =
    absurd (omega (arith, no_more_than (suc q.after_remaining) 1 ps h))

pub Stored-snoc :
    (after : ℕ) (ps : List PendingMatch) (p : PendingMatch)
    → p.after_remaining ≡ after
    → Free after ps
    → Stored after (ps ++ p ∷ [])
Stored-snoc zero ps p e h = rw h (omega arith, omega arith)
Stored-snoc (suc after) ps p e h = Staggered-snoc 1 (suc after) ps p e h

pub Stored-widen : (after : ℕ) (ps : List PendingMatch) → Free after ps → Stored after ps
Stored-widen zero ps h = rw h (omega arith)
Stored-widen (suc after) ps h = Staggered-widen 1 (suc after) ps h
