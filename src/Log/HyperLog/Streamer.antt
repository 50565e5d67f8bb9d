-- ===== src/Log/HyperLog/Streamer.antt =====
-- The processor task of `HyperLogStreamer::spawn` and `handle_pattern_match_timeout`
-- (mcproc/src/daemon/process/hyperlog.rs): chunks are collected into batches, in whatever order they and
-- the two timeouts come.
use mcproc.Prelude.{
  ℕ, Bool, true, false, not, ◌&&◌, List, [], ◌∷◌, ◌++◌, Option, none, some, leb, if◌then◌else◌,
  length, is_empty, Text,
}
use mcproc.Log.HyperLog.{HyperLogConfig, Wait, Sink, process_batch}

-- BATCH_SIZE
abbrev pub batch_size : ℕ
batch_size = 4

-- What the loop of the processor wakes up for. The two streams of a process share the `Wait`: another
-- one, as the other stream leaves it, may be found at any time.
pub data Event : Type 0 where
  chunk : Text → Event
  batch_timeout pattern_timeout : Event
  shared : Wait → Event

pub record Stream : Type 0 where
  pub sink : Sink
  pub batch : List Text

unfoldable pub handle_pattern_match_timeout : Wait → Wait
handle_pattern_match_timeout w = record w { timeout_occurred = true; sender = false }

-- The guard of the branch of `pattern_timeout`.
unfoldable pub awaits_pattern : Option (Text → Bool) → Wait → Bool
awaits_pattern none w = false
awaits_pattern (some p) w = not w.pattern_matched && not w.timeout_occurred

unfoldable pub flush_stream : HyperLogConfig → Stream → Stream
flush_stream config s = record { sink = process_batch config s.sink s.batch; batch = [] }

-- One round of the loop; the branch of `batch_timeout` is there only if there is a batch.
unfoldable pub on_event : HyperLogConfig → Event → Stream → Stream
unfolding flush_stream handle_pattern_match_timeout awaits_pattern
on_event config (chunk c) s =
    let t = record s { batch = s.batch ++ c ∷ [] } in
    if leb batch_size (length t.batch) then flush_stream config t else t
on_event config batch_timeout s = if is_empty s.batch then s else flush_stream config s
on_event config pattern_timeout s =
    if awaits_pattern config.log_pattern s.sink.wait
    then record s { sink = record s.sink { wait = handle_pattern_match_timeout s.sink.wait } }
    else s
on_event config (shared w) s = record s { sink = record s.sink { wait = w } }

-- The rest of a line that the stream ended in becomes a line.
unfoldable pub flush_partial : HyperLogConfig → Sink → Sink
flush_partial config s =
    if is_empty s.line_buffer
    then s
    else process_batch config (record s { line_buffer = s.line_buffer ++ b'\n' ∷ [] }) ([] ∷ [])

-- The stream is closed: what is collected is processed, and the ready channel is closed.
unfoldable pub finish : HyperLogConfig → Stream → Sink
unfolding flush_partial
finish config s =
    let t = flush_partial config (process_batch config s.sink s.batch) in
    record t { wait = record t.wait { sender = false } }

unfoldable pub process : HyperLogConfig → List Event → Stream → Sink
unfolding on_event finish
process config [] s = finish config s
process config (e ∷ es) s = process config es (on_event config e s)
