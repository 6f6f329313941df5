-- ===== src/Scheduler/Examples.antt =====
-- A calendar that writes seconds as strokes, and the theorems about the scheduler over it.
use Prim.Native.Char.{code}
use ai_agent_ollama.Base.{
  ℕ, zero, suc, ◌+◌, ◌*◌, ◌/◌, ◌≤◌, ◌<◌, String, ◌≡◌, refl, true, Option, none, some, List, [], ◌∷◌,
  ◌==◌, if◌then◌else◌, ok, arith,
}
use ai_agent_ollama.Values.{Value, end, float, truthy, Conversions}
use ai_agent_ollama.Scheduler.Time.{
  DateTime, Calendar, in_minutes, in_seconds, second, floor_second, parse_at, le?,
}
use ai_agent_ollama.Scheduler.Jobs.{Scheduler, payload_of, load, new_job, add, is_due}
use ai_agent_ollama.Scheduler.Firing.{
  Call, add_call, cancel_call, tick_call, call_all, count_by, every, is_fired, told_once,
}
use ai_agent_ollama.Scheduler.Due.{add_due}
use ai_agent_ollama.Scheduler.Reload.{reload_lem}

abbrev strokes : ℕ → String → String
strokes zero rest = rest
strokes (suc n) rest = String.◌∷◌ "x" (strokes n rest)

abbrev count_strokes : String → ℕ
count_strokes String.[] = 0
count_strokes (String.◌∷◌ c s) = if code c == b'x' then suc (count_strokes s) else 0

abbrev after_strokes : String → String
after_strokes String.[] = ""
after_strokes (String.◌∷◌ c s) = if code c == b'x' then after_strokes s else s

count_strokes-strokes :
    (n : ℕ) (rest : String) → count_strokes (strokes n (String.◌∷◌ "." rest)) ≡ n
count_strokes-strokes zero rest = refl
count_strokes-strokes (suc n) rest = omega (arith, count_strokes-strokes n rest)

after_strokes-strokes :
    (n : ℕ) (rest : String) → after_strokes (strokes n (String.◌∷◌ "." rest)) ≡ rest
after_strokes-strokes zero rest = refl
after_strokes-strokes (suc n) rest = after_strokes-strokes n rest

-- the seconds, and the zone if there is one
abbrev write : DateTime → String
write t = elim t.zone [
  | none ↦ strokes (t.wall / second) (String.◌∷◌ "." "")
  | some z ↦ strokes (t.wall / second) (String.◌∷◌ "." (strokes z (String.◌∷◌ "." "z")))
]

abbrev zone_of : String → Option ℕ
zone_of String.[] = none
zone_of (String.◌∷◌ c s) = some (count_strokes (String.◌∷◌ c s))

abbrev read : String → Option DateTime
read s = some (record { wall = count_strokes s * second; zone = zone_of (after_strokes s) })

zone_of-strokes : (z : ℕ) → zone_of (strokes z (String.◌∷◌ "." "z")) ≡ some z
zone_of-strokes zero = refl
zone_of-strokes (suc z) = cc (count_strokes-strokes z "z")

read-write : (t : DateTime) → read (write t) ≡ some (floor_second t)
read-write t = go t.zone t.wall
  where
    go :
        (z : Option ℕ) (w : ℕ)
        → read (write (record { wall = w; zone = z }))
          ≡ some (floor_second (record { wall = w; zone = z }))
    go none w = cc (count_strokes-strokes (w / second) "", after_strokes-strokes (w / second) "")
    go (some z) w = cc (
      count_strokes-strokes (w / second) (strokes z (String.◌∷◌ "." "z")),
      after_strokes-strokes (w / second) (strokes z (String.◌∷◌ "." "z")),
      zone_of-strokes z,
    )

abbrev cal : Calendar
cal = record {
  from_iso = read;
  iso_seconds = write;
  local_wall = λ t. t.wall;
  from_iso-iso_seconds = read-write;
}

abbrev reads : Value → Option String
reads (float x) = some x
reads _ = none

abbrev conv : Conversions
conv = record { render = λ v. ""; as_float = reads; as_float_float = λ x. refl }

abbrev at : ℕ → DateTime
at n = record { wall = n; zone = none }

abbrev nothing : Scheduler
nothing = record {
  jobs = [];
  file = some (payload_of []);
  writable = true;
  has_callback = true;
  notified = [];
}

abbrev calls : List Call
calls =
    add_call (at 0) (at 1) (in_seconds 2) "j1" "" "reminder" "tea" "" end
    ∷ add_call (at 5) (at 6) (in_minutes 1) "j2" "" "reminder" "eggs" "" end
    ∷ tick_call (λ j. at 2500000)
    ∷ cancel_call "j2"
    ∷ tick_call (λ j. at 99000000)
    ∷ []

told_once_example :
    (count_by every "j1" (call_all cal nothing calls).notified
      ≤ count_by is_fired "j1" (call_all cal nothing calls).jobs)
    × (count_by every "j1" (call_all cal nothing calls).notified
        ≤ count_by every "j1" (call_all cal nothing calls).jobs)
told_once_example = told_once cal "j1" nothing calls refl

add_due_example :
    (1 < 2500000)
    × (2500000 ≤ 3000000
        → is_due cal (new_job cal (at 2500000) "j" "" "reminder" "tea" "" end) (at 3000000) ≡ true)
    × (is_due cal (new_job cal (at 2500000) "j" "" "reminder" "tea" "" end) (at 3000000) ≡ true
        → 2500000 < 3000000 + second)
unfolding add parse_at le?
add_due_example =
    add_due cal (at 500000) (at 1) (in_seconds 2) "j" "" "reminder" "tea" "" end nothing
      (at 3000000) refl refl refl refl refl

reload_lem_example :
    load conv (call_all cal nothing calls).file ≡ ok (call_all cal nothing calls).jobs
unfolding truthy
reload_lem_example =
    reload_lem conv cal nothing calls (record { can_write = refl; saved = refl; named = tt })
      (refl, (refl, (tt, (tt, (tt, tt)))))
