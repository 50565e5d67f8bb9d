-- ===== src/Log/Grep/Matches.antt =====
-- The search gives the first matches, each with the lines around it
-- (`grep_log_file` of mcproc/src/daemon/api/grpc/log_handlers.rs).
use mcproc.Prelude.{
  ℕ, zero, suc, ◌≤◌, ◌<◌, ◌≡◌, inl, inr, refl, sym, ap, ◌∙◌, Bool, List, [], ◌∷◌, ◌++◌, map, leb,
  if◌then◌else◌, length, take, length-append, take-append, last, last_nil, Bool-cases, append-nil,
  append_assoc, arith, Text, Option,
}
use mcproc.Log.Grep.{
  ParsedLogLine, PendingMatch, GrepMatch, Search, push_after, push_before, close, completed,
  waiting, to_log_entry, max_grep_matches, settle, note_line, finalize, grep_loop, grep_log_file,
  passing_lines,
}
use mcproc.Log.Grep.Window.{
  push_before-last, fill, fill-close, fill-close_nil, fill-push_after, Stored, Free, Settles,
  settles, Stored-snoc, Stored-widen,
}

take_short {ℓ} : {A : Type ℓ} (n : ℕ) (xs : List A) → length xs ≤ n → take n xs ≡ xs
take_short zero [] h = refl
take_short zero (x ∷ xs) h = absurd (omega arith)
take_short (suc n) [] h = refl
take_short (suc n) (x ∷ xs) h = ap (λ t. x ∷ t) (take_short n xs (omega arith))

module _ (is_match : Text → Bool) (before after : ℕ) where
  -- The matching lines of `lines`, each with the last lines before it, those of `seen` included, and the
  -- first ones behind it.
  unfoldable pub matches : List ParsedLogLine → List ParsedLogLine → List GrepMatch
  matches seen [] = []
  matches seen (line ∷ lines) =
      let rest = matches (seen ++ line ∷ []) lines in
      if is_match line.original
      then record {
        matched_line = to_log_entry line;
        context_before = map to_log_entry (last before seen);
        context_after = map to_log_entry (take after lines);
      }
        ∷ rest
      else rest

  -- The answer to come, from a state of the search and the lines that are left.
  to_come : Search → List ParsedLogLine → List ParsedLogLine → List GrepMatch
  to_come s seen lines = s.results ++ (map (fill lines) s.pending_matches ++ matches seen lines)

  finalize_lem :
      (ps : List PendingMatch) (results : List GrepMatch)
      → length results ≤ max_grep_matches
      → finalize results ps ≡ take max_grep_matches (results ++ map close ps)
  unfolding finalize
  finalize_lem [] results h =
      sym (ap (take max_grep_matches) (append-nil results) ∙ take_short max_grep_matches results h)
  finalize_lem (p ∷ ps) results h = elim (Bool-cases (leb max_grep_matches (length results))) [
    | inl full ↦
        rw full (sym (take-append max_grep_matches results (map close (p ∷ ps)) (ground arith)))
    | inr room ↦ rw room (
        finalize_lem ps (results ++ close p ∷ [])
          (ground (arith, length-append results (close p ∷ [])))
        ∙ ap (take max_grep_matches) (append_assoc results (close p ∷ []) (map close ps)))
  ]

  map-fill-push_after :
      (x : ParsedLogLine) (lines : List ParsedLogLine) (ps : List PendingMatch)
      → map (fill (x ∷ lines)) ps ≡ map (fill lines) (map (push_after (to_log_entry x)) ps)
  map-fill-push_after x lines [] = refl
  map-fill-push_after x lines (p ∷ ps) =
      λ i. fill-push_after x lines p i ∷ map-fill-push_after x lines ps i

  -- The complete matches come before those that wait, one at most.
  fill-Settles :
      (lines : List ParsedLogLine) (qs : List PendingMatch)
      → Settles after qs
      → (map (fill lines) qs ≡ map close (completed qs) ++ map (fill lines) (waiting qs))
        × (length (map close (completed qs)) ≤ 1)
        × Free after (waiting qs)
  fill-Settles lines qs (inl (c, w, free)) = rw (c, w) (refl, omega arith, free)
  fill-Settles lines qs (inr (p, rest, e, z, c, w, free)) =
      rw (c, w)
        (
          ap (map (fill lines)) e ∙ ap (λ t. t ∷ map (fill lines) rest) (fill-close lines p z),
          omega arith,
          free,
        )

  -- What a line adds: the match that it is, if it is one.
  noted :
      (line : ParsedLogLine) (seen lines : List ParsedLogLine) (s : Search)
      → s.before_buffer ≡ last before seen
      → map (fill lines) s.pending_matches ++ matches seen (line ∷ lines)
        ≡ map (fill lines) (note_line is_match before after line s).pending_matches
          ++ matches (seen ++ line ∷ []) lines
  unfolding note_line matches
  noted line seen lines s window = elim (Bool-cases (is_match line.original)) [
    | inr e ↦ rw e
    | inl e ↦
        rw (e, window) (push_fill lines s.pending_matches _ (matches (seen ++ line ∷ []) lines))
  ]
    where
      push_fill :
          (xs : List ParsedLogLine) (ps : List PendingMatch) (p : PendingMatch)
          (ms : List GrepMatch)
          → map (fill xs) ps ++ fill xs p ∷ ms ≡ map (fill xs) (ps ++ p ∷ []) ++ ms
      push_fill xs [] p ms = refl
      push_fill xs (q ∷ ps) p ms = ap (λ t. fill xs q ∷ t) (push_fill xs ps p ms)

  note_line-Stored :
      (line : ParsedLogLine) (s : Search)
      → Free after s.pending_matches
      → Stored after (note_line is_match before after line s).pending_matches
  unfolding note_line
  note_line-Stored line s free = elim (Bool-cases (is_match line.original)) [
    | inl e ↦ rw e (Stored-snoc after s.pending_matches _ refl free)
    | inr e ↦ rw e (Stored-widen after s.pending_matches free)
  ]

  note_line-results :
      (line : ParsedLogLine) (s : Search)
      → (note_line is_match before after line s).results ≡ s.results
  unfolding note_line
  note_line-results line s = refl

  -- The whole answer stays the same from one line to the next.
  same_answer :
      (line : ParsedLogLine) (seen lines : List ParsedLogLine) (s : Search)
      → s.before_buffer ≡ last before seen
      → Stored after s.pending_matches
      → to_come s seen (line ∷ lines) ≡ (
          let t = settle (to_log_entry line) s in
          t.results
          ++ (map (fill lines) (note_line is_match before after line t).pending_matches
              ++ matches (seen ++ line ∷ []) lines))
  unfolding to_come settle
  same_answer line seen lines s window stored =
      let qs = map (push_after (to_log_entry line)) s.pending_matches in
      let t : Search = settle (to_log_entry line) s in
      let (split, few, free) =
        fill-Settles lines qs (settles after (to_log_entry line) s.pending_matches stored) in
      ap (λ ms. s.results ++ ms)
        (ap (λ ms. ms ++ matches seen (line ∷ lines))
            (map-fill-push_after line lines s.pending_matches ∙ split)
          ∙ append_assoc (map close (completed qs)) (map (fill lines) (waiting qs))
              (matches seen (line ∷ lines))
          ∙ ap (λ ms. map close (completed qs) ++ ms) (noted line seen lines t window))
      ∙ sym (append_assoc s.results (map close (completed qs)) _)

  few_new :
      (line : ParsedLogLine) (lines : List ParsedLogLine) (s : Search)
      → Stored after s.pending_matches
      → (length (settle (to_log_entry line) s).results ≤ suc (length s.results))
        × Free after (settle (to_log_entry line) s).pending_matches
  unfolding settle
  few_new line lines s stored =
      let qs = map (push_after (to_log_entry line)) s.pending_matches in
      let (split, few, free) =
        fill-Settles lines qs (settles after (to_log_entry line) s.pending_matches stored) in
      (omega (arith, length-append s.results (map close (completed qs)), few), free)

  grep_loop-matches :
      (lines seen : List ParsedLogLine) (s : Search)
      → s.before_buffer ≡ last before seen
      → Stored after s.pending_matches
      → length s.results < max_grep_matches
      → grep_loop is_match before after lines s ≡ take max_grep_matches (to_come s seen lines)
  unfolding grep_loop to_come
  grep_loop-matches [] seen s window stored room =
      finalize_lem s.pending_matches s.results (omega arith)
      ∙ unfold matches in
        ap (λ ms. take max_grep_matches (s.results ++ ms)) (closed s.pending_matches)
    where
      closed : (ps : List PendingMatch) → map close ps ≡ map (fill []) ps ++ []
      closed [] = refl
      closed (p ∷ ps) = λ i. sym (fill-close_nil p) i ∷ closed ps i
  grep_loop-matches (line ∷ lines) seen s window stored room =
      let t : Search = settle (to_log_entry line) s in
      let (few, free) = few_new line lines s stored in
      elim (Bool-cases (leb max_grep_matches (length t.results))) [
        | inl full ↦ rw full (
            sym (take-append max_grep_matches t.results _ (ground arith))
            ∙ ap (take max_grep_matches) (sym (same_answer line seen lines s window stored)))
        | inr more ↦ rw more (
            grep_loop-matches lines (seen ++ line ∷ []) (note_line is_match before after line t)
              (unfold settle note_line in
                ap (push_before before line) window ∙ push_before-last before line seen)
              (note_line-Stored line t free) (ground (arith, note_line-results line t))
            ∙ ap (take max_grep_matches) (sym (same_answer line seen lines s window stored)))
      ]

-- The search gives the first 1000 matching lines, in order, of the lines whose time passes: each with its
-- number in the file, with the last `before` lines before it and with the first `after` lines behind it,
-- counted among the lines that pass.
pub grep_log_file-matches :
    (parse_time : Text → Option ℕ) (is_match : Text → Bool) (before after : ℕ)
    (since until : Option ℕ) (file : List Text)
    → grep_log_file parse_time is_match before after since until file
      ≡ take max_grep_matches
          (matches is_match before after [] (passing_lines parse_time since until 1 file))
unfolding grep_log_file
grep_log_file-matches parse_time is_match before after since until file =
    let lines = passing_lines parse_time since until 1 file in
    let s : Search = record { before_buffer = []; pending_matches = []; results = [] } in
    grep_loop-matches is_match before after lines [] s (sym (last_nil before)) (none_stored after)
      (omega arith)
    ∙ unfold to_come in refl
  where
    none_stored : (n : ℕ) → Stored n []
    none_stored zero = omega arith
    none_stored (suc n) = omega arith
