-- ===== src/Log/Times.antt =====
-- The times of a search (`parse_time_filters` and `parse_duration` of
-- mcproc/src/daemon/api/grpc/log_handlers.rs). Durations, local times and their arithmetic are of the
-- `chrono` crate, which panics where a duration is out of its range.
use mcproc.Prelude.{
  ℕ, zero, suc, Bool, [], ◌∷◌, Option, none, some, ◌==◌, if◌then◌else◌, is_empty, ℤ, pos, negsuc,
  Text, codes, text_eq, trim, parse_nat,
}

abbrev pub i64_max : ℕ
i64_max = 9223372036854775807

unfoldable pub negate : Option ℕ → Option ℤ
negate none = none
negate (some zero) = some (pos 0)
negate (some (suc n)) = some (negsuc n)

unfoldable pub positive : Option ℕ → Option ℤ
positive none = none
positive (some n) = some (pos n)

-- Behind a `-` no other sign stands.
unfoldable pub parse_negative : Text → Option ℤ
unfolding negate
parse_negative [] = none
parse_negative (c ∷ s) = if c == b'+' then none else negate (parse_nat (suc i64_max) (c ∷ s))

-- `num_str.parse::<i64>()`
unfoldable pub parse_i64 : Text → Option ℤ
unfolding parse_negative positive
parse_i64 [] = none
parse_i64 (c ∷ s) = if c == b'-' then parse_negative s else positive (parse_nat i64_max (c ∷ s))

-- `rfind(char::is_alphabetic)` and `split_at`: the unit begins with the last letter.
unfoldable pub in_front : ℕ → Option (Text × Text) → Option (Text × Text) → Option (Text × Text)
in_front c none here = here
in_front c (some (number, unit)) here = some (c ∷ number, unit)

unfoldable pub split_unit : (ℕ → Bool) → Text → Option (Text × Text)
unfolding in_front
split_unit is_alphabetic [] = none
split_unit is_alphabetic (c ∷ s) =
    in_front c (split_unit is_alphabetic s) (if is_alphabetic c then some ([], c ∷ s) else none)

-- The seconds of a unit.
unfoldable pub unit_seconds : Text → Option ℕ
unit_seconds unit =
    if text_eq unit (codes "s")
    then some 1
    else if text_eq unit (codes "m")
    then some 60
    else if text_eq unit (codes "h")
    then some 3600
    else if text_eq unit (codes "d")
    then some 86400
    else none

-- A result, an error for the caller, or a panic.
pub data Outcome {ℓ} (A : Type ℓ) : Type ℓ where
  ok : A → Outcome A
  invalid : Outcome A
  panic : Outcome A

unfoldable pub or_panic : {A : Type 0} → Option A → Outcome A
or_panic none = panic
or_panic (some a) = ok a

-- The crate: letters, the duration of a number of units, the time that lies before `now` by a duration,
-- both none for a panic, and the time that a text stands for.
pub record Chrono : Type 1 where
  pub Duration : Type 0
  pub is_alphabetic : ℕ → Bool
  pub duration : ℕ → ℤ → Option Duration
  pub before_now : Duration → Option ℕ
  pub parse_time_string : Text → Option ℕ

module _ (c : Chrono) where
  unfoldable pub of_unit : Option ℤ → Option ℕ → Outcome c.Duration
  unfolding or_panic
  of_unit none unit = invalid
  of_unit (some number) none = invalid
  of_unit (some number) (some seconds) = or_panic (c.duration seconds number)

  unfoldable pub of_parts : Option (Text × Text) → Outcome c.Duration
  unfolding of_unit parse_i64 unit_seconds
  of_parts none = invalid
  of_parts (some (number, unit)) = of_unit (parse_i64 number) (unit_seconds unit)

  unfoldable pub parse_duration : Text → Outcome c.Duration
  unfolding of_parts split_unit
  parse_duration text =
      let t = trim text in if is_empty t then invalid else of_parts (split_unit c.is_alphabetic t)

  unfoldable pub since_last : Outcome c.Duration → Outcome (Option ℕ)
  since_last invalid = invalid
  since_last panic = panic
  since_last (ok d) = elim (c.before_now d) [ none ↦ panic | some t ↦ ok (some t) ]

  unfoldable pub time_of : Option Text → Outcome (Option ℕ)
  time_of none = ok none
  time_of (some text) = elim (c.parse_time_string text) [ none ↦ invalid | some t ↦ ok (some t) ]

  unfoldable pub since_time : Option Text → Option Text → Outcome (Option ℕ)
  unfolding since_last time_of parse_duration
  since_time (some last) since = since_last (parse_duration last)
  since_time none since = time_of since

  unfoldable pub with_until :
      Outcome (Option ℕ) → Outcome (Option ℕ) → Outcome (Option ℕ × Option ℕ)
  with_until invalid until = invalid
  with_until panic until = panic
  with_until (ok since) invalid = invalid
  with_until (ok since) panic = panic
  with_until (ok since) (ok until) = ok (since, until)

  unfoldable pub parse_time_filters :
      Option Text → Option Text → Option Text → Outcome (Option ℕ × Option ℕ)
  unfolding with_until since_time time_of
  parse_time_filters since until last = with_until (since_time last since) (time_of until)
