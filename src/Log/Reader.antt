-- ===== src/Log/Reader.antt =====
-- How the daemon reads a log file back: `parse_log_line` and `tail_log_lines` of
-- mcproc/src/daemon/api/grpc/log_handlers.rs. The time that a text stands for is a function, of the
-- `chrono` crate.
use mcproc.Prelude.{
  ℕ, zero, suc, ◌-◌, ◌≤◌, ◌≡◌, refl, sym, ap, ◌∙◌, Bool, true, false, List, [], ◌∷◌, ◌++◌, Option,
  none, some, leb, ◌==◌, if◌then◌else◌, length, drop, min, Text, codes, append-nil, append_assoc,
  contains, strip_prefix, arith, length-append, length-drop, last, last_none, last-snoc, subst,
}
use mcproc.Log.BatchWriter.{LogEntry, level}

-- MAX_LOG_LINES
abbrev pub max_log_lines : ℕ
max_log_lines = 10000

unfoldable pub clamp_tail : ℕ → ℕ
clamp_tail tail = min tail max_log_lines

-- `line.find(' ')` and the two slices around it.
unfoldable pub cut_cons : ℕ → Option (Text × Text) → Option (Text × Text)
cut_cons c none = none
cut_cons c (some (s, t)) = some (c ∷ s, t)

unfoldable pub cut_space : Text → Option (Text × Text)
unfolding cut_cons
cut_space [] = none
cut_space (c ∷ s) = let more = cut_cons c (cut_space s) in if c == b' ' then some ([], s) else more

pub data LogLevel : Type 0 where
  stdout stderr : LogLevel

unfoldable pub by_level : {T : Type 0} → T → Option Text → Option Text → Text → T × LogLevel × Text
by_level time (some content) info rest = (time, stderr, content)
by_level time none (some content) rest = (time, stdout, content)
by_level time none none rest = (time, stdout, rest)

module _ {T : Type 0} (parse_time : Text → Option T) where
  parts : Option (Text × Text) → Text → Option T × LogLevel × Text
  unfolding by_level
  parts none line = (none, stdout, line)
  parts (some (time, rest)) line =
      by_level (parse_time time) (strip_prefix (codes "[ERROR] ") rest)
        (strip_prefix (codes "[INFO] ") rest) rest

  unfoldable pub parse_log_line : Text → Option T × LogLevel × Text
  unfolding parts cut_space
  parse_log_line line = parts (cut_space line) line

cut_space-append : (s t : Text) → contains b' ' s ≡ false → cut_space (s ++ b' ' ∷ t) ≡ some (s, t)
unfolding cut_space cut_cons
cut_space-append [] t h = refl
cut_space-append (c ∷ s) t h = ground (arith, cut_space-append s t)

-- `BatchLogWriter` writes ` [`, the level, `] ` and the content behind the time.
abbrev pub level_stream : Bool → LogLevel
level_stream true = stderr
level_stream false = stdout

-- A line of the writer, read back without its newline, gives its time, its stream and its content, for
-- any text of a time that has no space and is parsed to that time.
pub parse_log_line_written :
    {T : Type 0} (parse_time : Text → Option T) (format : ℕ → Text) (time : T) (e : LogEntry)
    → contains b' ' (format e.timestamp) ≡ false
    → parse_time (format e.timestamp) ≡ some time
    → parse_log_line parse_time
        (format e.timestamp ++ (codes " [" ++ (level e.is_stderr ++ (codes "] " ++ e.content))))
      ≡ (some time, level_stream e.is_stderr, e.content)
unfolding parse_log_line parts level by_level strip_prefix
parse_log_line_written parse_time format time e no_space parsed = by_stream e.is_stderr
  where
    by_stream :
        (b : Bool)
        → parts parse_time
            (cut_space
              (format e.timestamp ++ (codes " [" ++ (level b ++ (codes "] " ++ e.content)))))
            (format e.timestamp ++ (codes " [" ++ (level b ++ (codes "] " ++ e.content))))
          ≡ (some time, level_stream b, e.content)
    by_stream true =
        rw (cut_space-append (format e.timestamp) (codes "[ERROR] " ++ e.content) no_space, parsed)
    by_stream false =
        rw (cut_space-append (format e.timestamp) (codes "[INFO] " ++ e.content) no_space, parsed)

-- `pop_front` of a full deque, and `push_back`.
unfoldable pub push_line : ℕ → Text → List Text → List Text
push_line tail line lines = (if length lines == tail then drop 1 lines else lines) ++ line ∷ []

-- The loop over the lines of a file: the last ones, and how many there were.
unfoldable pub tail_loop : ℕ → List Text → ℕ → List Text → ℕ × List Text
unfolding push_line
tail_loop tail [] total lines = (total, lines)
tail_loop tail (line ∷ rest) total lines =
    tail_loop tail rest (suc total) (if tail == 0 then lines else push_line tail line lines)

-- `total_lines.saturating_sub(lines.len())`
unfoldable pub number_lines : ℕ × List Text → ℕ × List Text
number_lines (total, lines) = (total - length lines, lines)

-- `tail_log_lines`: the number of lines in front, and the last `tail` lines.
unfoldable pub tail_log_lines : ℕ → List Text → ℕ × List Text
unfolding tail_loop number_lines
tail_log_lines tail file = number_lines (tail_loop tail file 0 [])

push_line-last :
    (tail : ℕ) (line : Text) (xs : List Text)
    → 1 ≤ tail
    → push_line tail line (last tail xs) ≡ last tail (xs ++ line ∷ [])
unfolding push_line
push_line-last tail line xs h =
    let e : (length (last tail xs) == tail) ≡ leb tail (length xs) =
      ground (arith, length-drop (length xs - tail) xs) in
    rw e (sym (last-snoc tail line xs h))

tail_loop-last :
    (tail : ℕ) (file seen : List Text)
    → tail_loop tail file (length seen) (last tail seen)
      ≡ (length (seen ++ file), last tail (seen ++ file))
unfolding tail_loop
tail_loop-last tail [] seen = rw (append-nil seen)
tail_loop-last tail (line ∷ rest) seen =
    subst
      (λ lines.
        tail_loop tail rest (suc (length seen)) lines
        ≡ (length (seen ++ line ∷ rest), last tail (seen ++ line ∷ rest)))
      (sym (step tail))
      (subst
        (λ n.
          tail_loop tail rest n (last tail (seen ++ line ∷ []))
          ≡ (length (seen ++ line ∷ rest), last tail (seen ++ line ∷ rest)))
        (length-append seen (line ∷ []) ∙ omega arith)
        (rw (append_assoc seen (line ∷ []) rest) at (tail_loop-last tail rest (seen ++ line ∷ []))))
  where
    step :
        (tail : ℕ)
        → (if tail == 0 then last tail seen else push_line tail line (last tail seen))
          ≡ last tail (seen ++ line ∷ [])
    step zero = last_none seen ∙ sym (last_none (seen ++ line ∷ []))
    step (suc k) =
        let e : (suc k == 0) ≡ false = ground arith in
        rw e (push_line-last (suc k) line seen (omega arith))

-- The lines that are returned are the last `tail` lines of the file, all of them if it has fewer, and the
-- number is that of the lines in front of them.
pub tail_log_lines_lem :
    (tail : ℕ) (file : List Text)
    → tail_log_lines tail file ≡ (length file - tail, drop (length file - tail) file)
unfolding tail_log_lines number_lines
tail_log_lines_lem tail file =
    subst
      (λ (lines : List Text).
        number_lines (tail_loop tail file 0 lines) ≡ (length file - tail, last tail file))
      start
      (rw (tail_loop-last tail file []) (
        ap (λ (n : ℕ). (n, last tail file)) (omega (arith, length-drop (length file - tail) file))))
  where
    none_yet : 0 - tail ≡ 0
    none_yet = omega arith

    start : last {A = Text} tail [] ≡ []
    start = ap (λ (n : ℕ). drop n []) none_yet
