-- ===== src/Examples/Requests.antt =====
-- Requests for logs (mcproc/src/daemon/api/grpc/log_handlers.rs).
use mathlib.Core.List.{Memᴰ}
use mcproc.Prelude.{
  ◌↔◌, ℕ, ◌*◌, ◌-◌, ◌≡◌, ◌==◌, ◌&&◌, leb, refl, any, Bool, true, if◌then◌else◌, [], ◌∷◌, List,
  Option, none, some, ℤ, pos, negsuc, codes, Text, trim, trim_end, trim_start, is_whitespace,
  parse_nat, text_eq,
}
use mcproc.Names.ProcessKey
use mcproc.Process.Registry
use mcproc.Process.Registry.{ProcessRegistry}
use mcproc.Process.Events.{log}
use mcproc.Log.Times.{Chrono, parse_duration, parse_i64}
use mcproc.Log.Times
use mcproc.Api.Status.{Status}
use mcproc.Api.Grep.{GrepLogsRequest, LogFile, lines}
use mcproc.Api.Logs.{GetLogsRequest, ReadDir, entries, Received, received, closed, get_logs_impl}
use mcproc.Api.Wanted.{IsMatch}
use mcproc.Api.Streamed.{Streams, get_logs_impl-Streams}

abbrev is_letter : ℕ → Bool
is_letter c = leb b'a' c && leb c b'z'

-- Durations in seconds, of at most a million days.
abbrev seconds : ℕ → ℤ → Option ℕ
seconds unit (pos n) = if leb (unit * n) 86400000000 then some (unit * n) else none
seconds unit (negsuc n) = none

abbrev ago : ℕ → Option ℕ
ago d = some (1000000 - d)

abbrev no_time : Text → Option ℕ
no_time t = none

abbrev clock : Chrono
clock = record {
  Duration = ℕ;
  is_alphabetic = is_letter;
  duration = seconds;
  before_now = ago;
  parse_time_string = no_time;
}

ten_minutes : parse_duration clock (codes " 10m") ≡ Times.ok 600
unfolding parse_duration trim trim_end trim_start is_whitespace parse_nat text_eq
ten_minutes = refl

-- The handler panics on a number of days that no duration holds.
endless : parse_duration clock (codes "9999999999999999d") ≡ Times.panic
unfolding parse_duration trim trim_end trim_start is_whitespace parse_nat text_eq
endless = refl

minus_five : parse_i64 (codes "-5") ≡ some (negsuc 4)
unfolding parse_i64 parse_nat
minus_five = refl

abbrev has_x : Text → Option (Text → Bool)
has_x pattern = some (λ t. any (λ c. c == b'x') t)

abbrev log_file : Text → LogFile
log_file path = lines (codes "one" ∷ codes "x" ∷ [])

abbrev search : GrepLogsRequest
search = record {
  name = codes "web";
  pattern = codes "x";
  project = codes "shop";
  context = none;
  before = some 5000;
  after = none;
  since = none;
  until = none;
  last = some (codes "1h");
}

abbrev follow_web : GetLogsRequest
follow_web = record {
  process_names = codes "web" ∷ [];
  tail = some 1;
  follow = some true;
  project = codes "shop";
  include_events = none;
}

abbrev on_disk : Text → Option (List Text)
on_disk path = some (codes "one" ∷ codes "two" ∷ [])

abbrev listing : Text → ReadDir
listing path = entries (record { name = codes "web.log"; is_file = true } ∷ [])

abbrev happening : List Received
happening =
    received (log (codes "web") (codes "shop") (codes "up"))
    ∷ received (log (codes "api") (codes "shop") (codes "no"))
    ∷ closed
    ∷ []

get_logs_impl-Streams_example :
    (matched : List ProcessKey.ProcessKey) × ((k : ProcessKey.ProcessKey)
      → Memᴰ k matched ↔ IsMatch follow_web Registry.new k)
    × Streams no_time
        (codes "/l")
        on_disk
        listing
        follow_web
        Registry.new
        happening
        matched
        (get_logs_impl no_time (codes "/l") on_disk listing follow_web Registry.new happening)
get_logs_impl-Streams_example =
    get_logs_impl-Streams no_time (codes "/l") on_disk listing follow_web Registry.new happening
