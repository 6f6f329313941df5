-- ===== src/Scheduler/Time.antt =====
-- Datetimes, as far as the scheduler uses them, and the moments that `parse_at` computes.
use ai_agent_ollama.Base.{
  ℕ, ◌+◌, ◌-◌, ◌*◌, ◌/◌, ◌%◌, String, ◌≡◌, Bool, Option, none, some, leb, ltb, if◌then◌else◌,
  Result, ok, err, ◌||◌,
}
use ai_agent_ollama.Errors.{Exception, value_error}

abbrev pub second : ℕ
second = 1000000

abbrev pub day : ℕ
day = 24 * 3600 * second

-- `wall` counts the microseconds of the datetime's own clock from the first of January of year 1.
-- `zone` is none without a time zone, and else the offset from UTC plus one day, in microseconds.
pub record DateTime : Type 0 where
  pub wall : ℕ
  pub zone : Option ℕ

-- `a <= b`; none stands for the TypeError of a datetime with a zone against one without
unfoldable pub le? : DateTime → DateTime → Option Bool
le? a b = elim a.zone [
  | none ↦ elim b.zone [ none ↦ some (leb a.wall b.wall) | some _ ↦ none ]
  | some i ↦ elim b.zone [ none ↦ none | some j ↦ some (leb (a.wall + j) (b.wall + i)) ]
]

-- `t + timedelta(microseconds=n)`
abbrev pub plus : DateTime → ℕ → DateTime
plus t n = record t { wall = t.wall + n }

-- `t` with its microseconds cut off, as `isoformat(timespec="seconds")` writes it
abbrev pub floor_second : DateTime → DateTime
floor_second t = record t { wall = t.wall / second * second }

-- The textual side of the `datetime` class and the machine's time zone: `fromisoformat`,
-- `isoformat(timespec="seconds")`, and the local clock that `astimezone` gives to an aware datetime.
pub record Calendar : Type 0 where
  pub from_iso : String → Option DateTime
  pub iso_seconds : DateTime → String
  pub local_wall : DateTime → ℕ
  pub from_iso-iso_seconds : (t : DateTime) → from_iso (iso_seconds t) ≡ some (floor_second t)

-- What the tests of `parse_at` make of its argument: a datetime, a text that is empty, in ISO
-- form, or of one of the two patterns, and any other text.
pub data Moment : Type 0 where
  given iso : DateTime → Moment
  empty garbage : Moment
  at_clock : (hour minute : ℕ) → Moment
  in_minutes in_hours in_seconds : ℕ → Moment

-- `now.replace(hour=…, minute=…, second=0, microsecond=0)`
unfoldable pub at_time : DateTime → ℕ → ℕ → Result Exception DateTime
at_time now hour minute =
    if ltb 23 hour || ltb 59 minute
    then err (value_error "hour or minute out of range")
    else ok (record now { wall = now.wall - now.wall % day + (hour * 3600 + minute * 60) * second })

-- `parse_at`, from what its tests found
unfoldable pub parse_at : DateTime → Moment → Result Exception DateTime
unfolding at_time
parse_at now (given t) = ok t
parse_at now empty = err (value_error "the time (at) is empty")
parse_at now (iso t) = elim t.zone [ none ↦ ok (record t { zone = now.zone }) | some _ ↦ ok t ]
parse_at now (at_clock hour minute) = elim (at_time now hour minute) [
  | err e ↦ err e
  | ok when ↦ if leb when.wall now.wall then ok (plus when day) else ok when
]
parse_at now (in_minutes n) = ok (plus now (n * 60 * second))
parse_at now (in_hours n) = ok (plus now (n * 3600 * second))
parse_at now (in_seconds n) = ok (plus now (n * second))
parse_at now garbage = err (value_error "the time is not understood")
