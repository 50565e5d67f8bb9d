-- ===== src/Examples/Log.antt =====
-- Log streams, log files and their readers (mcproc/src/daemon).
use mcproc.Prelude.{
  ◌≡◌, ◌≤◌, ◌-◌, refl, true, false, [], ◌∷◌, ◌++◌, List, none, some, codes, Text, text_eq, contains,
  length, drop, Bool, ℕ,
}
use mcproc.Log.HyperLog.{HyperLogConfig, process_chunk, max_line_buffer_size}
use mcproc.Log.HyperLog.Lines.{contents, total, payload, concat, process_chunk-rest}
use mcproc.Log.HyperLog.Streamer.{Event, chunk, batch_timeout, pattern_timeout, Stream, process}
use mcproc.Log.HyperLog.Delivery.{incoming, process_delivers}
use mcproc.Log.HyperLog.Waiting.{Follows, process-Follows}
use mcproc.Log.BatchWriter.Holds.{Completes, written, writer_task-Holds}
use mcproc.Log.BatchWriter
use mcproc.Log.BatchWriter.{LogEntry, level, writer_task, open_file, batch_text, entries}
use mcproc.Log.Reader.{tail_log_lines, tail_log_lines_lem}

abbrev is_ready : Text → Bool
is_ready t = text_eq t (codes "ready")

abbrev stdout_config : HyperLogConfig
stdout_config = record { log_pattern = some is_ready; is_stderr = false; has_writer = true }

abbrev begun : Stream
begun = record {
  sink = record {
    line_buffer = [];
    written = [];
    published = [];
    wait = record {
      pattern_matched = false;
      matched_line = none;
      timeout_occurred = false;
      sender = true;
      notified = 0;
    };
  };
  batch = [];
}

-- `ready` comes in two chunks, behind a line and in front of one that has no newline.
abbrev events : List Event
events = chunk (codes "up\nre") ∷ batch_timeout ∷ chunk (codes "ady\ngo") ∷ pattern_timeout ∷ []

process_delivers_example :
    payload (contents (process stdout_config events begun).written)
    ≡ payload (total begun.sink) ++ payload (concat begun.batch) ++ payload (incoming events)
process_delivers_example = process_delivers stdout_config refl events begun

process-Follows_example : Follows is_ready begun.sink.wait (process stdout_config events begun).wait
process-Follows_example = process-Follows stdout_config is_ready refl events begun refl

process_chunk-rest_example :
    (contains b'\n' (process_chunk stdout_config begun.sink (codes "a\nb")).line_buffer ≡ false)
    × (length (process_chunk stdout_config begun.sink (codes "a\nb")).line_buffer
        ≤ max_line_buffer_size)
process_chunk-rest_example = process_chunk-rest stdout_config begun.sink (codes "a\nb")

abbrev noon : LogEntry
noon = record { timestamp = 12; content = codes "hello"; is_stderr = true }

abbrev stamp : ℕ → Text
stamp t = codes "2025-07-15T12:00:00Z"

abbrev sent : List BatchWriter.Event
sent = BatchWriter.entry noon ∷ BatchWriter.tick ∷ []

writer_task-Holds_example :
    (gap : Text) × Completes (codes "old") gap
    × (writer_task stamp (codes "old") sent ≡ (codes "old" ++ gap) ++ written stamp (entries sent))
writer_task-Holds_example = writer_task-Holds stamp (codes "old") sent

abbrev file : List Text
file = codes "one" ∷ codes "two" ∷ codes "three" ∷ []

tail_log_lines_lem_example : tail_log_lines 2 file ≡ (length file - 2, drop (length file - 2) file)
tail_log_lines_lem_example = tail_log_lines_lem 2 file
