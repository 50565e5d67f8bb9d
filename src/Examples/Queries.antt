-- ===== src/Examples/Queries.antt =====
-- Searches of log files and what is read back of them (mcproc/src/daemon/api/grpc/log_handlers.rs).
use mcproc.Prelude.{
  ◌≡◌, ◌==◌, any, refl, [], ◌∷◌, List, Bool, Option, none, some, codes, Text, ℕ, take, map, suc,
  length, ◌++◌, true, false, arith,
}
use mcproc.Log.BatchWriter.{Event, entry, tick, entries, writer_task}
use mcproc.Log.Reader.{parse_log_line}
use mcproc.Log.ReadBack.{read_lines, pop_last}
use mcproc.Log.ReadBack.Written.{IsReadable, answer, shown, writer_task-read_lines}
use mcproc.Log.Grep.{grep_log_file, max_grep_matches, passing_lines}
use mcproc.Log.Grep.Matches.{matches, grep_log_file-matches}

abbrev no_time : Text → Option ℕ
no_time t = none

abbrev has_x : Text → Bool
has_x t = any (λ c. c == b'x') t

abbrev searched : List Text
searched = codes "one" ∷ codes "x" ∷ codes "three" ∷ codes "xx" ∷ []

grep_log_file-matches_example :
    grep_log_file no_time has_x 1 2 none (some 5) searched
    ≡ take max_grep_matches (matches has_x 1 2 [] (passing_lines no_time none (some 5) 1 searched))
grep_log_file-matches_example = grep_log_file-matches no_time has_x 1 2 none (some 5) searched

found_lines :
    map (λ m. m.matched_line.line_number) (grep_log_file no_time has_x 1 2 none none searched)
    ≡ 2 ∷ 4 ∷ []
unfolding grep_log_file
found_lines = refl

abbrev stamp : ℕ → Text
stamp t = codes "12:00"

abbrev read_stamp : Text → Option ℕ
read_stamp t = some 12

abbrev whole : Text → Text
whole t = t

abbrev sent : List Event
sent =
    entry (record { timestamp = 12; content = codes "up\r\n"; is_stderr = false })
    ∷ tick
    ∷ entry (record { timestamp = 12; content = codes "no newline"; is_stderr = true })
    ∷ []

sent-IsReadable : IsReadable whole stamp (entries sent)
unfolding shown pop_last
sent-IsReadable = (refl, refl, (refl, refl, tt))

writer_task-read_lines_example :
    (old : List Text) × (new : List Text) × (read_lines whole
        (suc (length (writer_task stamp (codes "old") sent)))
        (codes "old")
      ≡ some old)
    × (read_lines whole
          (suc (length (writer_task stamp (codes "old") sent)))
          (writer_task stamp (codes "old") sent)
        ≡ some (old ++ new))
    × (map (parse_log_line read_stamp) new ≡ map (answer (λ t. 12)) (entries sent))
writer_task-read_lines_example =
    writer_task-read_lines whole read_stamp (λ t. 12) stamp (codes "old") sent
      (suc (length (writer_task stamp (codes "old") sent))) (λ t. refl) (λ t. refl) (λ t. refl)
      sent-IsReadable (omega arith)

lines_back :
    read_lines whole 60 (writer_task stamp (codes "old") sent)
    ≡ some (codes "old" ∷ codes "12:00 [INFO] up" ∷ codes "12:00 [ERROR] no newline" ∷ [])
unfolding read_lines writer_task
lines_back = refl
