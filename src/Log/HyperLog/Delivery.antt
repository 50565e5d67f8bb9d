-- ===== src/Log/HyperLog/Delivery.antt =====
-- Every byte of a stream reaches the log file, whatever the timeouts do
-- (`HyperLogStreamer` of mcproc/src/daemon/process/hyperlog.rs).
use mcproc.Prelude.{
  ℕ, zero, suc, ◌≡◌, refl, sym, ap, ◌∙◌, Bool, true, false, List, [], ◌∷◌, ◌++◌, some, leb, ltb,
  ◌==◌, arith, length, is_empty, append_assoc, append-nil, Bool-cases, Option-cases, inl, inr, Text,
  contains,
}
use mcproc.Log.HyperLog.{
  HyperLogConfig, Sink, check_pattern, cons_line, drain_line, drain_lines, emit, force_flush,
  max_line_buffer_size, process_chunk, process_batch,
}
use mcproc.Log.HyperLog.Streamer.{
  Event, chunk, batch_timeout, pattern_timeout, shared, Stream, batch_size, on_event, flush_stream,
  flush_partial, finish, process, awaits_pattern,
}
use mcproc.Log.HyperLog.Lines.{
  contents, total, payload, payload-append, payload_newline, concat, process_batch-payload,
  process_chunk-rest,
}

-- The bytes that the events bring.
abbrev pub incoming : List Event → Text
incoming [] = []
incoming (chunk c ∷ es) = c ++ incoming es
incoming (batch_timeout ∷ es) = incoming es
incoming (pattern_timeout ∷ es) = incoming es
incoming (shared w ∷ es) = incoming es

-- The text is empty or its last byte is a newline.
unfoldable ended : Text → Bool
ended [] = true
ended (b ∷ []) = b == b'\n'
ended (b ∷ c ∷ s) = ended (c ∷ s)

ended_rest : (b : ℕ) (s : Text) → ended (b ∷ s) ≡ true → ended s ≡ true
unfolding ended
ended_rest b [] h = refl
ended_rest b (c ∷ s) h = h

ended-append : (s : Text) → ended (s ++ b'\n' ∷ []) ≡ true
unfolding ended
ended-append [] = refl
ended-append (b ∷ []) = refl
ended-append (b ∷ c ∷ s) = ended-append (c ∷ s)

ended_empty : (s : Text) → ended s ≡ true → contains b'\n' s ≡ false → s ≡ []
unfolding ended
ended_empty [] h none_in = refl
ended_empty (b ∷ []) h none_in = ground arith
ended_empty (b ∷ c ∷ s) h none_in = ground (arith, ended_empty (c ∷ s))

drain_line-ended :
    (s line rest : Text) → drain_line s ≡ some (line, rest) → ended s ≡ true → ended rest ≡ true
unfolding drain_line cons_line
drain_line-ended [] line rest h e = ground arith
drain_line-ended (b ∷ s) line rest h e = elim (Bool-cases (b == b'\n')) [
  | inl n ↦ ground (arith, ended_rest b s)
  | inr n ↦ elim (Option-cases (drain_line s)) [
    | inl o ↦ ground arith
    | inr ((l, r), o) ↦ ground (arith, ended_rest b s, drain_line-ended s l r o)
  ]
]

drain_lines-ended :
    (fuel : ℕ) (config : HyperLogConfig) (s : Sink)
    → ended s.line_buffer ≡ true
    → ended (drain_lines fuel config s).line_buffer ≡ true
unfolding drain_lines emit
drain_lines-ended zero config s h = h
drain_lines-ended (suc fuel) config s h = elim (Option-cases (drain_line s.line_buffer)) [
  | inl e ↦ rw (e, drain_lines) h
  | inr ((line, rest), e) ↦
      rw (e, drain_lines)
        (drain_lines-ended fuel config
          (emit config line
            (record s { line_buffer = rest; wait = check_pattern config line s.wait }))
          (drain_line-ended s.line_buffer line rest e h))
]

force_flush-ended :
    (config : HyperLogConfig) (s : Sink)
    → ended s.line_buffer ≡ true
    → ended (force_flush config s).line_buffer ≡ true
unfolding force_flush emit
force_flush-ended config s h = elim (Bool-cases (ltb max_line_buffer_size (length s.line_buffer))) [
  | inl e ↦ rw e (unfold ended in refl)
  | inr e ↦ rw e h
]

process_chunk-ended :
    (config : HyperLogConfig) (s : Sink)
    → ended s.line_buffer ≡ true
    → (process_chunk config s []).line_buffer ≡ []
process_chunk-ended config s h =
    ended_empty (process_chunk config s []).line_buffer
      (unfold process_chunk in
        force_flush-ended config _ (
          drain_lines-ended (length (s.line_buffer ++ [])) config
            (record s { line_buffer = s.line_buffer ++ [] }) (rw (append-nil s.line_buffer) h)))
      (process_chunk-rest config s []).0

module _ (config : HyperLogConfig) (writes : config.has_writer ≡ true) where
  -- What has come to a stream so far.
  received : Stream → Text
  received s = payload (total s.sink) ++ payload (concat s.batch)

  concat-append : (cs : List Text) (c : Text) → concat (cs ++ c ∷ []) ≡ concat cs ++ c
  concat-append [] c = append-nil c
  concat-append (d ∷ cs) c =
      ap (λ t. d ++ t) (concat-append cs c) ∙ sym (append_assoc d (concat cs) c)

  flush_stream-received : (s : Stream) → received (flush_stream config s) ≡ received s
  unfolding flush_stream received payload
  flush_stream-received s = append-nil _ ∙ process_batch-payload config writes s.batch s.sink

  unchanged : (t : Text) → t ≡ t ++ payload []
  unchanged t = unfold payload in sym (append-nil t)

  received-chunk :
      (c : Text) (s : Stream)
      → received (record s { batch = s.batch ++ c ∷ [] }) ≡ received s ++ payload (c ++ [])
  unfolding received
  received-chunk c s =
      rw (concat-append s.batch c, append-nil c, payload-append (concat s.batch) c)
        (sym (append_assoc (payload (total s.sink)) (payload (concat s.batch)) (payload c)))

  on_event-received :
      (e : Event) (s : Stream)
      → received (on_event config e s) ≡ received s ++ payload (incoming (e ∷ []))
  unfolding on_event received
  on_event-received (chunk c) s = elim (Bool-cases (leb batch_size (length (s.batch ++ c ∷ [])))) [
    | inl full ↦
        rw full
          (flush_stream-received (record s { batch = s.batch ++ c ∷ [] }) ∙ received-chunk c s)
    | inr more ↦ rw more (received-chunk c s)
  ]
  on_event-received batch_timeout s = elim (Bool-cases (is_empty s.batch)) [
    | inl e ↦ rw e (unchanged (received s))
    | inr e ↦ rw e (flush_stream-received s ∙ unchanged (received s))
  ]
  on_event-received pattern_timeout s =
      elim (Bool-cases (awaits_pattern config.log_pattern s.sink.wait)) [
        | inl e ↦ rw e (unchanged (received s))
        | inr e ↦ rw e (unchanged (received s))
      ]
  on_event-received (shared w) s = unchanged (received s)

  -- The newline that closes a partial line empties the buffer.
  closed :
      (s : Sink)
      → payload (
          contents
            (process_batch config
              (record s { line_buffer = s.line_buffer ++ b'\n' ∷ [] })
              ([] ∷ [])).written)
        ≡ payload (total s)
  closed s =
      let t : Sink = record s { line_buffer = s.line_buffer ++ b'\n' ∷ [] } in
      let r : Sink = process_batch config t ([] ∷ []) in
      let e : r.line_buffer ≡ [] =
        unfold process_batch in process_chunk-ended config t (ended-append s.line_buffer) in
      ap payload (sym (append-nil (contents r.written)) ∙ ap (λ b. contents r.written ++ b) (sym e))
      ∙ process_batch-payload config writes ([] ∷ []) t
      ∙ sym (unchanged (payload (total t)))
      ∙ ap payload (sym (append_assoc (contents s.written) s.line_buffer (b'\n' ∷ [])))
      ∙ payload-append (total s) (b'\n' ∷ [])
      ∙ rw payload_newline (append-nil (payload (total s)))

  flush_partial-written :
      (s : Sink) → payload (contents (flush_partial config s).written) ≡ payload (total s)
  unfolding flush_partial
  flush_partial-written s = elim (Bool-cases (is_empty s.line_buffer)) [
    | inl e ↦ rw e (empty s.line_buffer e)
    | inr e ↦ rw e (closed s)
  ]
    where
      empty :
          (t : Text)
          → is_empty t ≡ true
          → payload (contents s.written) ≡ payload (contents s.written ++ t)
      empty [] e = ap payload (sym (append-nil (contents s.written)))
      empty (b ∷ t) e = ground arith

  finish-written : (s : Stream) → payload (contents (finish config s).written) ≡ received s
  unfolding finish received
  finish-written s =
      flush_partial-written (process_batch config s.sink s.batch)
      ∙ process_batch-payload config writes s.batch s.sink

  incoming_step :
      (e : Event) (es : List Event) → incoming (e ∷ []) ++ incoming es ≡ incoming (e ∷ es)
  incoming_step (chunk c) es = ap (λ t. t ++ incoming es) (append-nil c)
  incoming_step batch_timeout es = refl
  incoming_step pattern_timeout es = refl
  incoming_step (shared w) es = refl

  process-received :
      (es : List Event) (s : Stream)
      → payload (contents (process config es s).written) ≡ received s ++ payload (incoming es)
  unfolding process
  process-received [] s = finish-written s ∙ unchanged (received s)
  process-received (e ∷ es) s =
      process-received es (on_event config e s)
      ∙ rw (on_event-received e s) (
          append_assoc (received s) (payload (incoming (e ∷ []))) (payload (incoming es))
          ∙ ap (λ t. received s ++ t)
              (sym (payload-append (incoming (e ∷ [])) (incoming es))
                ∙ ap payload (incoming_step e es)))

-- When a stream that has a writer is over, the entries for the file are, newlines aside, what was
-- written, what was in the buffer and in the batch, and the bytes that came since, once and in order,
-- however the chunks are cut and wherever the two timeouts and changes by the other stream come in.
pub process_delivers :
    (config : HyperLogConfig)
    → config.has_writer ≡ true
    → (es : List Event) (s : Stream)
    → payload (contents (process config es s).written)
      ≡ payload (total s.sink) ++ payload (concat s.batch) ++ payload (incoming es)
unfolding received
process_delivers config writes es s = process-received config writes es s
