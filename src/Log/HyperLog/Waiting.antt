-- ===== src/Log/HyperLog/Waiting.antt =====
-- The answer to `wait_for_log` is settled by the first line that matches, and is given once
-- (mcproc/src/daemon/process/hyperlog.rs).
use mcproc.Prelude.{
  ℕ, zero, suc, ◌+◌, ◌≤◌, ◌≡◌, leb, is_empty, refl, Bool, true, false, List, [], ◌∷◌, ◌++◌, Option,
  none, some, ltb, if◌then◌else◌, arith, length, Bool-cases, Option-cases, inl, inr, Text,
  from_utf8, trim_end, subst,
}
use mcproc.Log.HyperLog.{
  HyperLogConfig, Wait, Sink, check_pattern, match_bytes, match_text, notify, drain_line,
  drain_lines, emit, force_flush, max_line_buffer_size, process_chunk, process_batch,
}
use mcproc.Log.HyperLog.Streamer.{
  Event, chunk, batch_timeout, pattern_timeout, shared, Stream, on_event, process, flush_stream,
  flush_partial, finish, batch_size, awaits_pattern, handle_pattern_match_timeout,
}

-- What was sent on the one-shot channel, and what could still be.
abbrev pub budget : Wait → ℕ
budget w = w.notified + (if w.sender then 1 else 0)

-- `w'` may follow `w` where `is_match` is looked for: a match stays, with its line, a new one has a line
-- that matches, and the channel gives no more than it had.
pub record Follows (is_match : Text → Bool) (w w' : Wait) : Type 0 where
  pub stays : w.pattern_matched ≡ true → w'.pattern_matched ≡ true
  pub line : w.pattern_matched ≡ true → w'.matched_line ≡ w.matched_line
  pub found :
      w.pattern_matched ≡ false
      → w'.pattern_matched ≡ true
      → (text : Text) × (w'.matched_line ≡ some text) × (is_match text ≡ true)
  pub once : budget w' ≤ budget w

-- The other stream changes nothing.
abbrev pub is_alone : List Event → Bool
is_alone [] = true
is_alone (chunk c ∷ es) = is_alone es
is_alone (batch_timeout ∷ es) = is_alone es
is_alone (pattern_timeout ∷ es) = is_alone es
is_alone (shared w ∷ es) = false

first : (e : Event) (es : List Event) → is_alone (e ∷ es) ≡ true → is_alone (e ∷ []) ≡ true
first (chunk c) es h = refl
first batch_timeout es h = refl
first pattern_timeout es h = refl
first (shared w) es h = h

rest : (e : Event) (es : List Event) → is_alone (e ∷ es) ≡ true → is_alone es ≡ true
rest (chunk c) es h = h
rest batch_timeout es h = h
rest pattern_timeout es h = h
rest (shared w) es h = absurd (ground arith)

module _ (is_match : Text → Bool) where
  -- Closing the channel.
  closed_Follows :
      (late : Bool) (w : Wait)
      → Follows is_match w (record w { timeout_occurred = late; sender = false })
  closed_Follows late w = record {
    stays = λ h. h;
    line = λ h. refl;
    found = λ e h. absurd (ground arith);
    once = ground arith;
  }

  Follows-refl : (w : Wait) → Follows is_match w w
  Follows-refl w = record {
    stays = λ h. h;
    line = λ h. refl;
    found = λ e h. absurd (ground arith);
    once = omega arith;
  }

  Follows-trans :
      (a b c : Wait) → Follows is_match a b → Follows is_match b c → Follows is_match a c
  Follows-trans a b c f g = record {
    stays = λ h. g.stays (f.stays h);
    line = λ h. cc (g.line (f.stays h), f.line h);
    found = λ e h. elim (Bool-cases b.pattern_matched) [
      | inr m ↦ g.found m h
      | inl m ↦ let (text, same, ok) = f.found e m in (text, cc (same, g.line m), ok)
    ];
    once = omega (arith, f.once, g.once);
  }

  match_text-Follows :
      (text : Text) (w : Wait)
      → w.pattern_matched ≡ false
      → Follows is_match w (match_text is_match text w)
  unfolding match_text notify
  match_text-Follows text w new = elim (Bool-cases (is_match text)) [
    | inr e ↦ rw e (Follows-refl w)
    | inl e ↦ record {
      stays = λ h. absurd (ground arith);
      line = λ h. absurd (ground arith);
      found = λ m h. (text, ground arith, e);
      once = ground arith;
    }
  ]

  match_bytes-Follows :
      (text : Option Text) (w : Wait)
      → w.pattern_matched ≡ false
      → Follows is_match w (match_bytes is_match text w)
  unfolding match_bytes
  match_bytes-Follows none w new = Follows-refl w
  match_bytes-Follows (some text) w new = match_text-Follows (trim_end text) w new

module _ (config : HyperLogConfig) (is_match : Text → Bool)
    (looks : config.log_pattern ≡ some is_match) where
  check_pattern-Follows :
      (line : Text) (w : Wait) → Follows is_match w (check_pattern config line w)
  unfolding check_pattern
  check_pattern-Follows line w = rw looks (step w.pattern_matched refl)
    where
      step :
          (b : Bool)
          → w.pattern_matched ≡ b
          → Follows is_match w (if b then w else match_bytes is_match (from_utf8 line) w)
      step true e = Follows-refl is_match w
      step false e = match_bytes-Follows is_match (from_utf8 line) w e

  drain_lines-Follows :
      (fuel : ℕ) (s : Sink) → Follows is_match s.wait (drain_lines fuel config s).wait
  unfolding drain_lines emit
  drain_lines-Follows zero s = Follows-refl is_match s.wait
  drain_lines-Follows (suc fuel) s = elim (Option-cases (drain_line s.line_buffer)) [
    | inl e ↦ rw (e, drain_lines) (Follows-refl is_match s.wait)
    | inr ((line, rest), e) ↦
        rw (e, drain_lines)
          (Follows-trans is_match s.wait (check_pattern config line s.wait) _
            (check_pattern-Follows line s.wait)
            (drain_lines-Follows fuel (
              emit config line
                (record s { line_buffer = rest; wait = check_pattern config line s.wait }))))
  ]

  force_flush_wait : (s : Sink) → (force_flush config s).wait ≡ s.wait
  unfolding force_flush emit
  force_flush_wait s = elim (Bool-cases (ltb max_line_buffer_size (length s.line_buffer))) [
    | inl e ↦ rw e
    | inr e ↦ rw e
  ]

  process_batch-Follows :
      (batch : List Text) (s : Sink) → Follows is_match s.wait (process_batch config s batch).wait
  unfolding process_batch process_chunk
  process_batch-Follows [] s = Follows-refl is_match s.wait
  process_batch-Follows (bytes ∷ batch) s =
      let t : Sink = record s { line_buffer = s.line_buffer ++ bytes } in
      let u : Sink = drain_lines (length t.line_buffer) config t in
      Follows-trans is_match s.wait u.wait _ (drain_lines-Follows (length t.line_buffer) t) (
        subst (λ w. Follows is_match w (process_batch config (force_flush config u) batch).wait)
          (force_flush_wait u) (process_batch-Follows batch (force_flush config u)))

  on_event-Follows :
      (e : Event) (s : Stream)
      → is_alone (e ∷ []) ≡ true
      → Follows is_match s.sink.wait (on_event config e s).sink.wait
  unfolding on_event flush_stream handle_pattern_match_timeout
  on_event-Follows (chunk c) s h = elim (Bool-cases (leb batch_size (length (s.batch ++ c ∷ [])))) [
    | inl full ↦ rw full (process_batch-Follows (s.batch ++ c ∷ []) s.sink)
    | inr more ↦ rw more (Follows-refl is_match s.sink.wait)
  ]
  on_event-Follows batch_timeout s h = elim (Bool-cases (is_empty s.batch)) [
    | inl e ↦ rw e (Follows-refl is_match s.sink.wait)
    | inr e ↦ rw e (process_batch-Follows s.batch s.sink)
  ]
  on_event-Follows pattern_timeout s h =
      elim (Bool-cases (awaits_pattern config.log_pattern s.sink.wait)) [
        | inl e ↦ rw e (closed_Follows is_match true s.sink.wait)
        | inr e ↦ rw e (Follows-refl is_match s.sink.wait)
      ]
  on_event-Follows (shared w) s h = absurd (ground arith)

  finish-Follows : (s : Stream) → Follows is_match s.sink.wait (finish config s).wait
  unfolding finish flush_partial
  finish-Follows s =
      let t : Sink = process_batch config s.sink s.batch in
      Follows-trans is_match s.sink.wait t.wait _ (process_batch-Follows s.batch s.sink) (
        Follows-trans is_match t.wait (flush_partial config t).wait _ (partial t) (
          closed_Follows is_match (flush_partial config t).wait.timeout_occurred
            (flush_partial config t).wait))
    where
      partial : (t : Sink) → Follows is_match t.wait (flush_partial config t).wait
      partial t = elim (Bool-cases (is_empty t.line_buffer)) [
        | inl e ↦ rw e (Follows-refl is_match t.wait)
        | inr e ↦ rw e (
            process_batch-Follows ([] ∷ [])
              (record t { line_buffer = t.line_buffer ++ b'\n' ∷ [] }))
      ]

-- While no other stream changes what the two share: a match and its line stay for the rest of the
-- stream, a line that becomes the match does match, and the answer is sent once at most, never after the
-- timeout has closed the channel (what was sent, plus one if the channel is open, never grows).
pub process-Follows :
    (config : HyperLogConfig) (is_match : Text → Bool)
    → config.log_pattern ≡ some is_match
    → (es : List Event) (s : Stream) → is_alone es ≡ true
    → Follows is_match s.sink.wait (process config es s).wait
unfolding process
process-Follows config is_match looks [] s h = finish-Follows config is_match looks s
process-Follows config is_match looks (e ∷ es) s h =
    Follows-trans is_match s.sink.wait (on_event config e s).sink.wait _
      (on_event-Follows config is_match looks e s (first e es h))
      (process-Follows config is_match looks es (on_event config e s) (rest e es h))
