-- ===== src/Log/HyperLog/Lines.antt =====
-- No byte of the output is lost, repeated or moved on its way into lines (`process_batch` of
-- mcproc/src/daemon/process/hyperlog.rs).
use mcproc.Prelude.{
  ℕ, zero, suc, ◌≤◌, ◌<◌, ◌≡◌, refl, sym, ap, ◌∙◌, true, false, not, List, [], ◌∷◌, ◌++◌, none,
  some, ltb, ◌==◌, arith, length, append_assoc, append-nil, filter, filter-append, Bool-cases,
  Option-cases, inl, inr, Text, contains,
}
use mcproc.Log.HyperLog.{
  HyperLogConfig, Wait, Entry, Sink, max_line_buffer_size, check_pattern, emit, drain_line,
  cons_line, drain_lines, force_flush, process_chunk, process_batch,
}

-- The bytes in the file, in the order of the entries.
abbrev pub contents : List Entry → Text
contents [] = []
contents (e ∷ es) = e.content ++ contents es

contents-append : (es fs : List Entry) → contents (es ++ fs) ≡ contents es ++ contents fs
contents-append [] fs = refl
contents-append (e ∷ es) fs =
    rw (contents-append es fs) (sym (append_assoc e.content (contents es) (contents fs)))

-- What is written and what is still in the buffer.
abbrev pub total : Sink → Text
total s = contents s.written ++ s.line_buffer

-- The bytes that are no newline.
unfoldable pub payload : Text → Text
payload = filter (λ b. not (b == b'\n'))

pub payload-append : (s t : Text) → payload (s ++ t) ≡ payload s ++ payload t
unfolding payload
payload-append s t = filter-append (λ b. not (b == b'\n')) s t

pub payload_newline : payload (b'\n' ∷ []) ≡ []
unfolding payload
payload_newline = refl

-- The bytes of a batch.
abbrev pub concat : List Text → Text
concat [] = []
concat (c ∷ cs) = c ++ concat cs

drain_line-none : (s : Text) → drain_line s ≡ none → contains b'\n' s ≡ false
unfolding drain_line cons_line
drain_line-none [] h = refl
drain_line-none (b ∷ s) h = ground (arith, drain_line-none s)

-- A drained line and the rest are the buffer, and the rest is shorter.
pub drain_line-some :
    (s line rest : Text)
    → drain_line s ≡ some (line, rest)
    → (line ++ rest ≡ s) × (length rest < length s)
unfolding drain_line cons_line
drain_line-some [] line rest h = ground arith
drain_line-some (b ∷ s) line rest h = elim (Bool-cases (b == b'\n')) [
  | inl e ↦ ground arith
  | inr e ↦ elim (Option-cases (drain_line s)) [
    | inl e' ↦ ground arith
    | inr ((l, r), e') ↦ ground (arith, drain_line-some s l r e')
  ]
]

module _ (config : HyperLogConfig) (writes : config.has_writer ≡ true) where
  -- Emitting a line writes its bytes behind the others, whatever the buffer holds.
  emit-total :
      (line : Text) (s : Sink) (rest : Text) (w : Wait)
      → total (emit config line (record s { line_buffer = rest; wait = w }))
        ≡ contents s.written ++ (line ++ rest)
  unfolding emit
  emit-total line s rest w =
      rw
        (
          writes,
          contents-append s.written (record { content = line; is_stderr = config.is_stderr } ∷ []),
        )
        (simp (append_assoc, append-nil))

  drain_lines-total : (fuel : ℕ) (s : Sink) → total (drain_lines fuel config s) ≡ total s
  unfolding drain_lines
  drain_lines-total zero s = refl
  drain_lines-total (suc fuel) s = elim (Option-cases (drain_line s.line_buffer)) [
    | inl e ↦ rw (e, drain_lines)
    | inr ((line, rest), e) ↦
        rw (e, drain_lines)
          (drain_lines-total fuel _
            ∙ emit-total line s rest (check_pattern config line s.wait)
            ∙ ap (λ t. contents s.written ++ t) (drain_line-some s.line_buffer line rest e).0)
  ]

  -- The forced flush adds a newline to the file, and no byte besides.
  force_flush-payload : (s : Sink) → payload (total (force_flush config s)) ≡ payload (total s)
  unfolding force_flush
  force_flush-payload s = elim (Bool-cases (ltb max_line_buffer_size (length s.line_buffer))) [
    | inr e ↦ rw e
    | inl e ↦ rw e (
        ap payload (emit-total (s.line_buffer ++ b'\n' ∷ []) s [] s.wait)
        ∙ newline (contents s.written) s.line_buffer)
  ]
    where
      newline :
          (old line : Text) → payload (old ++ ((line ++ b'\n' ∷ []) ++ [])) ≡ payload (old ++ line)
      newline old line = simp (payload-append, append-nil, payload_newline)

  process_chunk-payload :
      (s : Sink) (chunk : Text)
      → payload (total (process_chunk config s chunk)) ≡ payload (total s) ++ payload chunk
  unfolding process_chunk
  process_chunk-payload s chunk =
      force_flush-payload _
      ∙ ap payload (drain_lines-total (length (s.line_buffer ++ chunk)) _)
      ∙ ap payload (sym (append_assoc (contents s.written) s.line_buffer chunk))
      ∙ payload-append (total s) chunk

  -- For a batch of chunks: what the file and the buffer hold, newlines aside, is what they held and then
  -- the bytes of the chunks, in order.
  pub process_batch-payload :
      (batch : List Text) (s : Sink)
      → payload (total (process_batch config s batch)) ≡ payload (total s) ++ payload (concat batch)
  unfolding process_batch payload
  process_batch-payload [] s = sym (append-nil (payload (total s)))
  process_batch-payload (chunk ∷ batch) s =
      process_batch-payload batch (process_chunk config s chunk)
      ∙ rw (process_chunk-payload s chunk, payload-append chunk (concat batch))
          (append_assoc (payload (total s)) (payload chunk) (payload (concat batch)))

line_buffer-emit :
    (config : HyperLogConfig) (line : Text) (s : Sink)
    → (emit config line s).line_buffer ≡ s.line_buffer
unfolding emit
line_buffer-emit config line s = refl

-- The loop leaves no complete line.
drain_lines-rest :
    (fuel : ℕ) (config : HyperLogConfig) (s : Sink)
    → length s.line_buffer ≤ fuel
    → contains b'\n' (drain_lines fuel config s).line_buffer ≡ false
unfolding drain_lines
drain_lines-rest zero config s h = none_left s.line_buffer h
  where
    none_left : (t : Text) → length t ≤ 0 → contains b'\n' t ≡ false
    none_left [] h = refl
    none_left (b ∷ t) h = absurd (omega arith)
drain_lines-rest (suc fuel) config s h = elim (Option-cases (drain_line s.line_buffer)) [
  | inl e ↦ rw (e, drain_lines) (drain_line-none s.line_buffer e)
  | inr ((line, rest), e) ↦
      rw (e, drain_lines)
        (drain_lines-rest fuel config
          (emit config line
            (record s { line_buffer = rest; wait = check_pattern config line s.wait }))
          (rw
            (line_buffer-emit config line
              (record s { line_buffer = rest; wait = check_pattern config line s.wait }))
            (omega (arith, (drain_line-some s.line_buffer line rest e).1))))
]

-- After a chunk, what waits for more is no complete line, and 1 MiB at most.
pub process_chunk-rest :
    (config : HyperLogConfig) (s : Sink) (chunk : Text)
    → (contains b'\n' (process_chunk config s chunk).line_buffer ≡ false)
      × (length (process_chunk config s chunk).line_buffer ≤ max_line_buffer_size)
unfolding process_chunk
process_chunk-rest config s chunk =
    flushed
      (drain_lines (length (s.line_buffer ++ chunk)) config
        (record s { line_buffer = s.line_buffer ++ chunk }))
      (drain_lines-rest (length (s.line_buffer ++ chunk)) config
        (record s { line_buffer = s.line_buffer ++ chunk }) (omega arith))
  where
    flushed :
        (t : Sink)
        → contains b'\n' t.line_buffer ≡ false
        → (contains b'\n' (force_flush config t).line_buffer ≡ false)
          × (length (force_flush config t).line_buffer ≤ max_line_buffer_size)
    flushed t h =
        unfold force_flush emit in
        elim (Bool-cases (ltb max_line_buffer_size (length t.line_buffer))) [
          | inl e ↦ rw e (refl, omega arith)
          | inr e ↦ rw e (h, ground arith)
        ]
