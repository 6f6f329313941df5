-- ===== src/Scheduler/Firing.antt =====
-- Every job is fired at most once, whatever is added, cancelled and ticked in between.
use Prim.Native.Nat.{zero-le}
use ai_agent_ollama.Base.{
  ℕ, ◌+◌, ◌≤◌, String, ◌≡◌, refl, Bool, true, false, ◌&&◌, Option, none, some, List, [], ◌∷◌, ◌++◌,
  str_eq, eq_iff, if◌then◌else◌, Result-cases, arith, Bool-cases, Option-cases, ◌⊎◌, inl, inr,
}
use ai_agent_ollama.Values.{Fields}
use ai_agent_ollama.Scheduler.Time.{DateTime, Calendar, Moment, le?, parse_at}
use ai_agent_ollama.Scheduler.Jobs.{
  Clock, Job, Scheduler, save, new_job, add, is_pending, cancel_first, cancel, fires, fire_due,
  fired_now, notify, tick,
}

-- how many of the jobs have this identifier and pass the test
abbrev pub count_by : (Job → Bool) → String → List Job → ℕ
count_by p id [] = 0
count_by p id (j ∷ js) = (if str_eq j.id id && p j then 1 else 0) + count_by p id js

abbrev pub is_fired : Job → Bool
is_fired j = str_eq j.status "fired"

abbrev pub every : Job → Bool
every j = true

count_by-append :
    (p : Job → Bool) (id : String) (xs ys : List Job)
    → count_by p id (xs ++ ys) ≡ count_by p id xs + count_by p id ys
count_by-append p id [] ys = omega arith
count_by-append p id (j ∷ js) ys = omega (arith, count_by-append p id js ys)

count_by-le :
    (p : Job → Bool) (id : String) (js : List Job) → count_by p id js ≤ count_by every id js
count_by-le p id [] = omega arith
count_by-le p id (j ∷ js) = ground (arith, count_by-le p id js)

module _ (cal : Calendar) (now : Clock) (id : String) where
  -- a tick turns as many jobs to fired as it hands out
  count_fired-fire_due :
      (js : List Job)
      → count_by is_fired id (fire_due cal now js)
        ≡ count_by is_fired id js + count_by every id (fired_now cal now js)
  unfolding fire_due fired_now
  count_fired-fire_due [] = refl
  count_fired-fire_due (j ∷ js) = elim (Bool-cases (fires cal now j)) [
    | inl f ↦ rw f (
        ground (
          arith,
          count_fired-fire_due js,
          eq_iff j.status "pending",
          eq_iff j.status "fired",
          eq_iff "fired" "pending",
        ))
    | inr n ↦ rw n (omega (arith, count_fired-fire_due js))
  ]

-- The methods that change the scheduler, with what the outside world gives them.
pub data Call : Type 0 where
  add_call :
      (now later : DateTime) (moment : Moment) (id created type message action : String)
      → Fields
      → Call
  cancel_call : String → Call
  tick_call : Clock → Call

abbrev pub call : Calendar → Scheduler → Call → Scheduler
call cal s (add_call now later moment id created type message action arguments) =
    (add cal now later moment id created type message action arguments s).1
call cal s (cancel_call id) = (cancel id s).1
call cal s (tick_call now) = (tick cal now s).1

abbrev pub call_all : Calendar → Scheduler → List Call → Scheduler
call_all cal s [] = s
call_all cal s (c ∷ cs) = call_all cal (call cal s c) cs

abbrev Told : String → Scheduler → Type 0
Told id s = count_by every id s.notified ≤ count_by is_fired id s.jobs

pub jobs-save : (s : Scheduler) → (save s).jobs ≡ s.jobs
unfolding save
jobs-save s = ground arith

notified-save : (s : Scheduler) → (save s).notified ≡ s.notified
unfolding save
notified-save s = ground arith

save-Told : (id : String) (s : Scheduler) → Told id s → Told id (save s)
save-Told id s h = rw (jobs-save s, notified-save s) h

abbrev SameFired : String → List Job → Option (List Job) → Type 0
SameFired id js none = Unit
SameFired id js (some after) = count_by is_fired id js ≡ count_by is_fired id after

-- a cancelled job was pending, and is not fired then
count_cancelled :
    (id : String) (j : Job) (js : List Job)
    → is_pending j ≡ true
    → SameFired id (j ∷ js) (some (record j { status = "cancelled" } ∷ js))
count_cancelled id j js h =
    let pending = (eq_iff j.status "pending").0 h in
    rw pending (ground (arith, eq_iff "pending" "fired", eq_iff "cancelled" "fired"))

SameFired-next :
    (k id : String) (j : Job) (js : List Job) (r : Option (List Job))
    → (str_eq j.id k && is_pending j) ≡ false
    → cancel_first k js ≡ r
    → SameFired id js r
    → SameFired id (j ∷ js) (cancel_first k (j ∷ js))
unfolding cancel_first
SameFired-next k id j js none other e h = rw (other, e, cancel_first) tt
SameFired-next k id j js (some rest) other e h = rw (other, e, cancel_first) (omega (arith, h))

count_fired-cancel_first : (k id : String) (js : List Job) → SameFired id js (cancel_first k js)
unfolding cancel_first
count_fired-cancel_first k id [] = tt
count_fired-cancel_first k id (j ∷ js) = elim (Bool-cases (str_eq j.id k && is_pending j)) [
  | inl found ↦ rw (found, cancel_first) (count_cancelled id j js (ground arith))
  | inr other ↦
      SameFired-next k id j js (cancel_first k js) other refl (count_fired-cancel_first k id js)
]

-- an addition fails and changes nothing, or appends a pending job
pub add_cases :
    (cal : Calendar) (now later : DateTime) (moment : Moment)
    (id created type message action : String) (arguments : Fields) (s : Scheduler)
    → ((add cal now later moment id created type message action arguments s).1 ≡ s)
      ⊎ ((when : DateTime) × ((add cal now later moment id created type message action arguments
              s).1
            ≡ save (record s {
              jobs = s.jobs ++ new_job cal when id created type message action arguments ∷ [];
            })))
unfolding add
add_cases cal now later moment id created type message action arguments s =
    elim (Result-cases (parse_at now moment)) [
      | inr (e, p) ↦ inl (rw (p, add))
      | inl (when, p) ↦ elim (Option-cases (le? when later)) [
        | inl n ↦ inl (rw (p, n, add))
        | inr (past, l) ↦ elim (Bool-cases past) [
          | inl t ↦ inl (rw (p, l, t, add))
          | inr f ↦ inr (when, rw (p, l, f, add))
        ]
      ]
    ]

pub jobs-tick :
    (cal : Calendar) (now : Clock) (s : Scheduler)
    → (tick cal now s).1.jobs ≡ fire_due cal now s.jobs
unfolding tick notify
jobs-tick cal now s = ground (arith, jobs-save (record s { jobs = fire_due cal now s.jobs }))

notified-tick :
    (cal : Calendar) (now : Clock) (s : Scheduler)
    → (tick cal now s).1.notified
      ≡ (if s.has_callback then s.notified ++ fired_now cal now s.jobs else s.notified)
unfolding tick notify save
notified-tick cal now s = ground arith

call-Told :
    (cal : Calendar) (id : String) (s : Scheduler) (c : Call) → Told id s → Told id (call cal s c)
unfolding cancel
call-Told cal id s (add_call now later moment k created type message action arguments) h =
    elim (add_cases cal now later moment k created type message action arguments s) [
      | inl same ↦ rw same h
      | inr (when, e) ↦ rw e (
          save-Told id _ (
            omega (
              arith,
              count_by-append is_fired id s.jobs
                  (new_job cal when k created type message action arguments ∷ []),
            )))
    ]
call-Told cal id s (cancel_call k) h = elim (Option-cases (cancel_first k s.jobs)) [
  | inl e ↦ rw (e, call, cancel) h
  | inr (after, e) ↦
      rw (e, call, cancel)
        (save-Told id (record s { jobs = after })
          (omega (arith, rw e at (count_fired-cancel_first k id s.jobs))))
]
call-Told cal id s (tick_call now) h =
    rw (jobs-tick cal now s, notified-tick cal now s)
      (ground (
        arith,
        count_fired-fire_due cal now id s.jobs,
        count_by-append every id s.notified (fired_now cal now s.jobs),
      ))

call_all-Told :
    (cal : Calendar) (id : String) (s : Scheduler) (cs : List Call)
    → Told id s
    → Told id (call_all cal s cs)
call_all-Told cal id s [] h = h
call_all-Told cal id s (c ∷ cs) h = call_all-Told cal id (call cal s c) cs (call-Told cal id s c h)

-- Whatever is called in whatever order, the callback is told of an identifier at most as often
-- as there are fired jobs with it, and so at most as often as there are jobs with it; so a job
-- whose identifier no other job has is fired once at most.
pub told_once :
    (cal : Calendar) (id : String) (s : Scheduler) (cs : List Call)
    → s.notified ≡ []
    → (count_by every id (call_all cal s cs).notified
        ≤ count_by is_fired id (call_all cal s cs).jobs)
      × (count_by every id (call_all cal s cs).notified
          ≤ count_by every id (call_all cal s cs).jobs)
told_once cal id s cs start =
    let h = call_all-Told cal id s cs (rw start zero-le) in
    (h, omega (arith, h, count_by-le is_fired id (call_all cal s cs).jobs))
