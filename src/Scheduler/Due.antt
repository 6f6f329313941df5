-- ===== src/Scheduler/Due.antt =====
-- When a job that was added becomes due.
use ai_agent_ollama.Base.{
  ◌+◌, ◌*◌, ◌/◌, ◌≤◌, ◌<◌, String, ◌≡◌, true, false, none, some, leb, ok, arith, Result-cases,
  Option-cases, Bool-cases, inl, inr, ap, ◌∙◌, le→leb, tests,
}
use ai_agent_ollama.Values.{Fields}
use ai_agent_ollama.Scheduler.Time.{DateTime, Calendar, Moment, le?, second, floor_second, parse_at}
use ai_agent_ollama.Scheduler.Jobs.{Job, Scheduler, add, new_job, is_due}

-- what a successful addition shows
add_ok :
    (cal : Calendar) (now later : DateTime) (moment : Moment)
    (id created type message action : String) (arguments : Fields) (s : Scheduler) {job : Job}
    → (add cal now later moment id created type message action arguments s).0 ≡ ok job
    → (when : DateTime) × (parse_at now moment ≡ ok when)
      × (le? when later ≡ some false)
      × (job ≡ new_job cal when id created type message action arguments)
unfolding add
add_ok cal now later moment id created type message action arguments s h =
    elim (Result-cases (parse_at now moment)) [
      | inr (e, p) ↦ cc (rw (p, add) at h)
      | inl (when, p) ↦ elim (Option-cases (le? when later)) [
        | inl n ↦ cc (rw (p, n, add) at h)
        | inr (past, l) ↦ elim (Bool-cases past) [
          | inl t ↦ cc (rw (p, l, t, add) at h)
          | inr f ↦ (when, p, rw f at l, cc (rw (p, l, f, add) at h))
        ]
      ]
    ]

is_due_naive :
    (cal : Calendar) (job : Job) (when t : DateTime)
    → job.at ≡ cal.iso_seconds when
    → when.zone ≡ none
    → t.zone ≡ none
    → is_due cal job t ≡ leb (when.wall / second * second) t.wall
unfolding is_due le?
is_due_naive cal job when t at z z' =
    let found : cal.from_iso job.at ≡ some (floor_second when) =
      ap cal.from_iso at ∙ cal.from_iso-iso_seconds when in
    rw (found, is_due) (ground arith)

-- Without time zones, a job that was added lies after the clock's reading; it is due from its
-- moment on, and not a second or more before.
pub add_due :
    (cal : Calendar) (now later : DateTime) (moment : Moment)
    (id created type message action : String) (arguments : Fields) (s : Scheduler) {job : Job}
    {when : DateTime} (t : DateTime)
    → (add cal now later moment id created type message action arguments s).0 ≡ ok job
    → parse_at now moment ≡ ok when
    → when.zone ≡ none
    → later.zone ≡ none
    → t.zone ≡ none
    → (later.wall < when.wall)
      × (when.wall ≤ t.wall → is_due cal job t ≡ true)
      × (is_due cal job t ≡ true → when.wall < t.wall + second)
add_due cal now later moment id created type message action arguments s {job} {when} t h p z zl zt =
    let (when', p', l, e) =
      add_ok cal now later moment id created type message action arguments s h in
    let same : when' ≡ when = cc in
    let at : job.at ≡ cal.iso_seconds when = cc in
    let due = is_due_naive cal job when t at z zt in
    let after = rw same at l in
    (
      unfold le? in ground arith,
      λ reached. rw due (le→leb _ _ (omega arith)),
      λ is. omega (tests, rw due at is),
    )
