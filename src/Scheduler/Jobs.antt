-- ===== src/Scheduler/Jobs.antt =====
-- `ScheduledJob` and `Scheduler`: each method is a function to the new state.
use ai_agent_ollama.Base.{
  String, Bool, true, false, ◌&&◌, Option, none, some, List, [], ◌∷◌, ◌++◌, map, str_eq,
  if◌then◌else◌, Result, ok, err, ◌>>=◌,
}
use ai_agent_ollama.Values.{
  Value, Items, Fields, null, str, arr, obj, nil, cons, end, field, truthy, get_or, Conversions,
  text_of,
}
use ai_agent_ollama.Errors.{Exception, value_error, type_error}
use ai_agent_ollama.Scheduler.Time.{DateTime, Calendar, Moment, le?, parse_at}

pub record Job : Type 0 where
  pub id : String
  pub at : String
  pub type : String
  pub message : String
  pub action_name : String
  pub arguments : Fields
  pub status : String
  pub created_at : String

abbrev pub to_fields : Job → Fields
to_fields j = field "id" (str j.id) (
    field "at" (str j.at) (
      field "type" (str j.type) (
        field "message" (str j.message) (
          field "action_name" (str j.action_name) (
            field "arguments" (obj j.arguments)
              (field "status" (str j.status) (field "created_at" (str j.created_at) end)))))))

unfoldable pub to_dict : Job → Value
to_dict j = obj (to_fields j)

-- `dict(value or {})`. A list of pairs, which `dict` would take too, is refused here.
unfoldable pub as_dict : Value → Result Exception Fields
unfolding truthy
as_dict (obj fs) = ok fs
as_dict v = if truthy v then err (type_error "object is not iterable") else ok end

unfoldable pub from_dict : Conversions → Fields → Result Exception Job
unfolding get_or text_of as_dict
from_dict conv fs = do
  arguments ← as_dict (get_or fs "arguments" null)
  ok (record {
    id = text_of conv (get_or fs "id" (str ""));
    at = text_of conv (get_or fs "at" (str ""));
    type = text_of conv (get_or fs "type" (str "reminder"));
    message = text_of conv (get_or fs "message" (str ""));
    action_name = text_of conv (get_or fs "action_name" (str ""));
    arguments = arguments;
    status = text_of conv (get_or fs "status" (str "pending"));
    created_at = text_of conv (get_or fs "created_at" (str ""));
  })

-- `file` is the payload of scheduled.json, `writable` whether the file system accepts a write, and
-- `notified` logs the jobs that were handed to the callback.
pub record Scheduler : Type 0 where
  pub jobs : List Job
  pub file : Option Value
  pub writable : Bool
  pub has_callback : Bool
  pub notified : List Job

abbrev pub to_items : List Value → Items
to_items [] = nil
to_items (v ∷ vs) = cons v (to_items vs)

abbrev pub payload_of : List Job → Value
payload_of jobs = obj (field "jobs" (arr (to_items (map to_dict jobs))) end)

-- `_save_locked`: the rename makes the write whole or absent
unfoldable pub save : Scheduler → Scheduler
save s = if s.writable then record s { file = some (payload_of s.jobs) } else s

-- the list comprehension of `_load`: entries that are no dict, or without an id, are passed over
unfoldable pub load_items : Conversions → Items → Result Exception (List Job)
load_items conv nil = ok []
load_items conv (cons (obj fs) rest) =
    let others = load_items conv rest in
    if truthy (get_or fs "id" null)
    then (do j ← from_dict conv fs; js ← others; ok (j ∷ js))
    else others
load_items conv (cons _ rest) = load_items conv rest

abbrev items_of : Value → Items
items_of (arr xs) = xs
items_of _ = nil

-- `_load`; none is a file that is absent or that cannot be read as JSON
unfoldable pub load : Conversions → Option Value → Result Exception (List Job)
unfolding load_items
load conv none = ok []
load conv (some (obj fs)) = load_items conv (items_of (get_or fs "jobs" null))
load conv (some v) = load_items conv (items_of v)

-- the `ScheduledJob` that `add` makes
abbrev pub new_job : Calendar → DateTime → (id created type message action : String) → Fields → Job
new_job cal when id created type message action arguments = record {
  id = id;
  at = cal.iso_seconds when;
  type = type;
  message = message;
  action_name = action;
  arguments = arguments;
  status = "pending";
  created_at = created;
}

-- `add`. `now` and `later` are the two readings of the clock, `id` is the new identifier, and
-- `created` the time of the object's creation.
unfoldable pub add :
    Calendar
    → DateTime
    → DateTime
    → Moment
    → (id created type message action : String) → Fields
    → Scheduler
    → Result Exception Job × Scheduler
add cal now later moment id created type message action arguments s = elim (parse_at now moment) [
  | err e ↦ (err e, s)
  | ok when ↦ elim (le? when later) [
    | none ↦ (err (type_error "can't compare offset-naive and offset-aware datetimes"), s)
    | some true ↦ (err (value_error "the time must be in the future"), s)
    | some false ↦
        let job = new_job cal when id created type message action arguments in
        (ok job, save (record s { jobs = s.jobs ++ job ∷ [] }))
  ]
]

unfoldable pub list_jobs : Scheduler → List Value
list_jobs s = map to_dict s.jobs

abbrev pub is_pending : Job → Bool
is_pending j = str_eq j.status "pending"

-- the loop of `cancel`: the first pending job of that id
unfoldable pub cancel_first : String → List Job → Option (List Job)
cancel_first id [] = none
cancel_first id (j ∷ js) = elim (str_eq j.id id && is_pending j) [
  | true ↦ some (record j { status = "cancelled" } ∷ js)
  | false ↦ elim (cancel_first id js) [ none ↦ none | some rest ↦ some (j ∷ rest) ]
]

unfoldable pub cancel : String → Scheduler → Bool × Scheduler
cancel id s = elim (cancel_first id s.jobs) [
  | none ↦ (false, s)
  | some jobs ↦ (true, save (record s { jobs = jobs }))
]

-- `_is_due`
unfoldable pub is_due : Calendar → Job → DateTime → Bool
unfolding le?
is_due cal job now = elim (cal.from_iso job.at) [
  | none ↦ false
  | some when ↦
      let aligned : DateTime = elim when.zone [
        | some _ ↦ elim now.zone [
          | none ↦ record { wall = cal.local_wall when; zone = none }
          | some _ ↦ when
        ]
        | none ↦ record when { zone = now.zone }
      ] in
      elim (le? aligned now) [ some b ↦ b | none ↦ false ]
]

-- what `now or self._clock()` is for each job: the clock is read anew for each
abbrev pub Clock : Type 0
Clock = Job → DateTime

abbrev pub fires : Calendar → Clock → Job → Bool
fires cal now j = is_pending j && is_due cal j (now j)

abbrev pub fire : Job → Job
fire j = record j { status = "fired" }

-- the loop of `_tick` over the jobs
unfoldable pub fire_due : Calendar → Clock → List Job → List Job
fire_due cal now [] = []
fire_due cal now (j ∷ js) = (if fires cal now j then fire j else j) ∷ fire_due cal now js

-- its list `fired`
unfoldable pub fired_now : Calendar → Clock → List Job → List Job
fired_now cal now [] = []
fired_now cal now (j ∷ js) =
    let rest = fired_now cal now js in if fires cal now j then fire j ∷ rest else rest

abbrev pub is_empty : List Job → Bool
is_empty [] = true
is_empty (j ∷ js) = false

-- `_notify_fire`: without a callback nothing happens, and what a callback raises is dropped
unfoldable pub notify : List Job → Scheduler → Scheduler
notify fired s = if s.has_callback then record s { notified = s.notified ++ fired } else s

-- `_tick`: jobs are saved before anybody is told
unfoldable pub tick : Calendar → Clock → Scheduler → List Job × Scheduler
tick cal now s =
    let fired = fired_now cal now s.jobs in
    let after : Scheduler = record s { jobs = fire_due cal now s.jobs } in
    (fired, notify fired (if is_empty fired then after else save after))
