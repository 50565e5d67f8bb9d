-- ===== src/Api/Streamed.antt =====
-- What a request for logs streams (`get_logs_impl` of mcproc/src/daemon/api/grpc/log_handlers.rs).
use mathlib.Core.List.{Memᴰ}
use mcproc.Prelude.{
  ◌↔◌, ◌≢◌, ◌%◌, ◌^◌, ℕ, zero, suc, ◌+◌, ◌-◌, ◌≡◌, refl, sym, ap, ◌∙◌, inl, inr, List, [], ◌∷◌,
  ◌++◌, Option, none, some, Bool-cases, Text, if◌then◌else◌, drop, length, arith, ltb, min, last,
  last_none, ◌⊎◌, Option-cases,
}
use mcproc.Names.ProcessKey.{ProcessKey}
use mcproc.Names.Validation.{validate_project_name}
use mcproc.Names.LogPath.{join, get_log_file_path_for_key}
use mcproc.Log.Reader.{clamp_tail, tail_log_lines_lem, parse_log_line}
use mcproc.Log.Sources.{resolve_log_sources}
use mcproc.Process.Registry.{ProcessRegistry}
use mcproc.Api.Status.{Status, Answer, ok, err}
use mcproc.Api.Logs.{
  failed, GetLogsRequest, GetLogsResponse, log_entry, Received, ReadDir, number_entries,
  tail_entries, all_tails, or_hundred, stream_logs, registry_matches, discover_log_names,
  get_logs_impl,
}
use mcproc.Api.Discovered.{IsDirectory, discover_log_names-IsDirectory, discover_log_names-failed}
use mcproc.Api.Wanted.{followed, IsMatch, follow_loop-followed, registry_matches-IsMatch}

-- The entries of the last lines, numbered on from those in front, are the last entries of the whole file.
drop-number_entries :
    (parse_time : Text → Option ℕ) (who : Text) (k n m : ℕ) (lines : List Text)
    → m ≡ k + n
    → number_entries parse_time who m (drop k lines)
      ≡ drop k (number_entries parse_time who n lines)
unfolding number_entries
drop-number_entries parse_time who zero n m lines e =
    let same : m ≡ n = omega (arith, e) in
    ap (λ (x : ℕ). number_entries parse_time who x lines) same
drop-number_entries parse_time who (suc k) n m [] e = refl
drop-number_entries parse_time who (suc k) n m (l ∷ lines) e =
    drop-number_entries parse_time who k (suc n) m lines (omega (arith, e))

length-number_entries :
    (parse_time : Text → Option ℕ) (who : Text) (n : ℕ) (lines : List Text)
    → length (number_entries parse_time who n lines) ≡ length lines
unfolding number_entries
length-number_entries parse_time who n [] = refl
length-number_entries parse_time who n (l ∷ lines) =
    ap suc (length-number_entries parse_time who (suc n) lines)

-- The lines of a file from the line `k` on as entries: a number has 32 bits.
abbrev pub numbered : (Text → Option ℕ) → Text → ℕ → List Text → List GetLogsResponse
numbered parse_time who k [] = []
numbered parse_time who k (line ∷ lines) =
    let (timestamp, level, content) = parse_log_line parse_time line in
    log_entry (k % 2 ^ 32) content timestamp level who ∷ numbered parse_time who (suc k) lines

number_entries-numbered :
    (parse_time : Text → Option ℕ) (who : Text) (n : ℕ) (lines : List Text)
    → number_entries parse_time who n lines ≡ numbered parse_time who (suc n) lines
unfolding number_entries
number_entries-numbered parse_time who n [] = refl
number_entries-numbered parse_time who n (line ∷ lines) =
    let (timestamp, level, content) = parse_log_line parse_time line in
    ap (λ es. log_entry (suc n % 2 ^ 32) content timestamp level who ∷ es)
      (number_entries-numbered parse_time who (suc n) lines)

-- The last `tail` entries of a file whose lines are numbered from 1.
abbrev pub newest : (Text → Option ℕ) → ℕ → Text → Option (List Text) → List GetLogsResponse
newest parse_time tail who none = []
newest parse_time tail who (some file) = last tail (numbered parse_time who 1 file)

tail_entries-newest :
    (parse_time : Text → Option ℕ) (tail : ℕ) (who : Text) (file : Option (List Text))
    → tail_entries parse_time tail who file ≡ newest parse_time tail who file
unfolding tail_entries
tail_entries-newest parse_time tail who none = refl
tail_entries-newest parse_time tail who (some file) =
    ap (λ (p : ℕ × List Text). number_entries parse_time who p.0 p.1) (tail_log_lines_lem tail file)
    ∙ drop-number_entries parse_time who (length file - tail) 0 (length file - tail) file
        (omega arith)
    ∙ ap (λ (n : ℕ). drop (n - tail) (number_entries parse_time who 0 file))
        (sym (length-number_entries parse_time who 0 file))
    ∙ ap (last tail) (number_entries-numbered parse_time who 0 file)

-- How many lines of each file a request is answered: as many as it says, and at most 10000; or else 100.
abbrev pub tail_of : Option ℕ → ℕ
tail_of none = 100
tail_of (some asked) = min asked 10000

clamp_tail-tail_of : (asked : Option ℕ) → clamp_tail (or_hundred asked) ≡ tail_of asked
unfolding clamp_tail or_hundred
clamp_tail-tail_of none = refl
clamp_tail-tail_of (some asked) = refl

module _ (parse_time : Text → Option ℕ) (log_dir : Text) (file : Text → Option (List Text))
    (dir : Text → ReadDir) where
  -- The newest entries of each source, one source after the other.
  abbrev pub newest_of : ℕ → List ProcessKey → List GetLogsResponse
  newest_of tail [] = []
  newest_of tail (key ∷ keys) =
      newest parse_time tail key.name (file (get_log_file_path_for_key log_dir key))
      ++ newest_of tail keys

  all_tails-newest_of :
      (tail : ℕ) (keys : List ProcessKey)
      → all_tails parse_time log_dir file dir tail keys ≡ newest_of tail keys
  unfolding all_tails
  all_tails-newest_of tail [] = refl
  all_tails-newest_of tail (key ∷ keys) = λ i.
      tail_entries-newest parse_time tail key.name (file (get_log_file_path_for_key log_dir key)) i
      ++ all_tails-newest_of tail keys i

  newest_none : (keys : List ProcessKey) → newest_of 0 keys ≡ []
  newest_none [] = refl
  newest_none (key ∷ keys) =
      λ i. none_of key.name (file (get_log_file_path_for_key log_dir key)) i ++ newest_none keys i
    where
      none_of : (who : Text) (o : Option (List Text)) → newest parse_time 0 who o ≡ []
      none_of who none = refl
      none_of who (some ls) = last_none (numbered parse_time who 1 ls)

  tails-newest_of :
      (tail : ℕ) (keys : List ProcessKey)
      → (if ltb 0 tail then all_tails parse_time log_dir file dir tail keys else [])
        ≡ newest_of tail keys
  tails-newest_of tail keys = elim (Bool-cases (ltb 0 tail)) [
    | inl some_lines ↦ rw some_lines (all_tails-newest_of tail keys)
    | inr no_lines ↦
        let zero_lines : 0 ≡ tail = ground arith in
        rw no_lines (sym (newest_none keys) ∙ ap (λ (n : ℕ). newest_of n keys) zero_lines)
  ]

  -- What an answer to a request for logs is. A refusal is for the project, for the directory, or for a name.
  -- Else there are sources, of the processes that the request asks for and of the names of the files of the
  -- directory; and the stream has the newest entries of each, and then what the request wants to follow.
  abbrev pub Streams :
      GetLogsRequest
      → ProcessRegistry
      → List Received
      → (matched : List ProcessKey) → Answer (List GetLogsResponse)
      → Type 0
  Streams req r rs matched (err status) =
      ((status ≡ Status.invalid_argument) × (validate_project_name req.project ≢ none))
      ⊎ ((status ≡ Status.internal) × (dir (join log_dir req.project) ≡ failed))
      ⊎ ((status ≡ Status.invalid_argument)
          × ((names : List Text) × IsDirectory (dir (join log_dir req.project)) names
              × (resolve_log_sources req.project matched req.process_names names ≡ none)))
  Streams req r rs matched (ok answers) =
      (names : List Text) × (sources : List ProcessKey) × (validate_project_name req.project ≡ none)
      × IsDirectory (dir (join log_dir req.project)) names
      × (resolve_log_sources req.project matched req.process_names names ≡ some sources)
      × (answers ≡ newest_of (tail_of req.tail) sources ++ followed req rs)

  streamed :
      (req : GetLogsRequest) (rs : List Received) (sources : List ProcessKey)
      → stream_logs parse_time log_dir file dir req sources rs
        ≡ newest_of (tail_of req.tail) sources ++ followed req rs
  unfolding stream_logs
  streamed req rs sources = λ i.
      (tails-newest_of (clamp_tail (or_hundred req.tail)) sources
          ∙ ap (λ (n : ℕ). newest_of n sources) (clamp_tail-tail_of req.tail))
        i
      ++ follow_loop-followed req rs i

  -- A request for logs whose project passes its check, whose directory can be read and whose names are valid
  -- streams, for each source in order, the last entries of its file, at most 10000 and 100 if the request
  -- says nothing, with their numbers in the file in 32 bits; and then, if it follows, each line that concerns
  -- its project and its names and, if it asks for events, each event that does, in order, until the receiver
  -- is closed. The sources are those that `resolve_log_sources` makes of exactly the registered processes
  -- that the request asks for, and of exactly the names of the log files in its directory. Any other request
  -- is refused: for its project or a name as an invalid argument, for the directory with an internal error.
  pub get_logs_impl-Streams :
      (req : GetLogsRequest) (r : ProcessRegistry) (rs : List Received)
      → (matched : List ProcessKey) × ((k : ProcessKey) → Memᴰ k matched ↔ IsMatch req r k)
        × Streams req r rs matched (get_logs_impl parse_time log_dir file dir req r rs)
  unfolding get_logs_impl
  get_logs_impl-Streams req r rs = (
    registry_matches req r,
    registry_matches-IsMatch req r,
    elim (Option-cases (validate_project_name req.project)) [
      | inr (x, e) ↦ rw (e, get_logs_impl) (inl (refl, λ h. absurd (ground (arith, h))))
      | inl e ↦ elim (Option-cases (discover_log_names (dir (join log_dir req.project)))) [
        | inl d ↦ rw (e, d, get_logs_impl) (inr (inl (refl, discover_log_names-failed _ d)))
        | inr (names, d) ↦
            elim (Option-cases
              (resolve_log_sources req.project (registry_matches req r) req.process_names names)) [
                | inl s ↦
                    rw (e, d, s, get_logs_impl)
                      (inr (inr (refl, (names, discover_log_names-IsDirectory _ names d, s))))
                | inr (sources, s) ↦
                    rw (e, d, s, get_logs_impl)
                      (
                        names,
                        sources,
                        e,
                        discover_log_names-IsDirectory _ names d,
                        s,
                        streamed req rs sources,
                      )
              ]
      ]
    ],
  )
