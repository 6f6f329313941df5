-- ===== src/Scheduler/Reload.antt =====
-- The file of the jobs: a new scheduler over it has the jobs of the old one.
use ai_agent_ollama.Base.{
  String, ◌≡◌, refl, true, Option, none, some, List, [], ◌∷◌, map, if_ind, ok, arith, Option-cases,
  Bool-cases, inl, inr,
}
use ai_agent_ollama.Base.All.{All, All-append}
use ai_agent_ollama.Values.{null, str, truthy, get_or, Conversions}
use ai_agent_ollama.Scheduler.Time.{Calendar}
use ai_agent_ollama.Scheduler.Jobs.{
  Clock, Job, Scheduler, to_fields, to_dict, from_dict, payload_of, to_items, save, load,
  load_items, new_job, cancel_first, cancel, fires, fire_due, fired_now, notify, tick, is_empty,
}
use ai_agent_ollama.Scheduler.Firing.{
  Call, add_call, cancel_call, tick_call, call, call_all, add_cases,
}

-- Its identifier is not empty.
abbrev pub IsNamed : Job → Type 0
IsNamed j = truthy (str j.id) ≡ true

module _ (conv : Conversions) where
  from_dict-to_fields : (j : Job) → from_dict conv (to_fields j) ≡ ok j
  unfolding from_dict
  from_dict-to_fields j = refl

  truthy_id : (j : Job) → IsNamed j → truthy (get_or (to_fields j) "id" null) ≡ true
  unfolding get_or
  truthy_id j h = h

  load_items-to_items :
      (js : List Job) → All IsNamed js → load_items conv (to_items (map to_dict js)) ≡ ok js
  unfolding load_items to_dict
  load_items-to_items [] h = refl
  load_items-to_items (j ∷ js) h =
      rw (truthy_id j h.0, from_dict-to_fields j, load_items-to_items js h.1)

  load-payload_of : (js : List Job) → All IsNamed js → load conv (some (payload_of js)) ≡ ok js
  unfolding load get_or
  load-payload_of js h = load_items-to_items js h

-- The file can be written, and holds the jobs.
pub record IsSaved (s : Scheduler) : Type 0 where
  pub can_write : s.writable ≡ true
  pub saved : s.file ≡ some (payload_of s.jobs)
  pub named : All IsNamed s.jobs

save-IsSaved : (s : Scheduler) → s.writable ≡ true → All IsNamed s.jobs → IsSaved (save s)
save-IsSaved s w h =
    let e : save s ≡ record s { file = some (payload_of s.jobs) } = unfold save in simp w in
    rw e (record { can_write = w; saved = refl; named = h })

module _ (cal : Calendar) (now : Clock) where
  IsNamed-fire_due : (js : List Job) → All IsNamed js → All IsNamed (fire_due cal now js)
  unfolding fire_due
  IsNamed-fire_due [] h = tt
  IsNamed-fire_due (j ∷ js) h = elim (Bool-cases (fires cal now j)) [
    | inl f ↦ rw f (h.0, IsNamed-fire_due js h.1)
    | inr n ↦ rw n (h.0, IsNamed-fire_due js h.1)
  ]

  -- a tick that fires nothing changes no job
  fire_due_none :
      (js : List Job) → is_empty (fired_now cal now js) ≡ true → fire_due cal now js ≡ js
  unfolding fire_due fired_now
  fire_due_none [] h = refl
  fire_due_none (j ∷ js) h = ground (arith, fire_due_none js)

  notify-IsSaved : (fired : List Job) (s : Scheduler) → IsSaved s → IsSaved (notify fired s)
  unfolding notify
  notify-IsSaved fired s h =
      if_ind IsSaved s.has_callback
        (λ _. record { can_write = h.can_write; saved = h.saved; named = h.named }) (λ _. h)

  tick-IsSaved : (s : Scheduler) → IsSaved s → IsSaved (tick cal now s).1
  unfolding tick
  tick-IsSaved s h =
      let fired = fired_now cal now s.jobs in
      let after : Scheduler = record s { jobs = fire_due cal now s.jobs } in
      notify-IsSaved fired _ (
        if_ind IsSaved (is_empty fired) (λ none_due. rw (fire_due_none s.jobs none_due) h)
          (λ _. save-IsSaved after h.can_write (IsNamed-fire_due s.jobs h.named)))

abbrev pub NamesJobs : Call → Type 0
NamesJobs (add_call now later moment id created type message action arguments) =
    truthy (str id) ≡ true
NamesJobs _ = Unit

abbrev AllNamed? : Option (List Job) → Type 0
AllNamed? none = Unit
AllNamed? (some js) = All IsNamed js

named-cancel_first : (k : String) (js : List Job) → All IsNamed js → AllNamed? (cancel_first k js)
unfolding cancel_first
named-cancel_first k [] h = tt
named-cancel_first k (j ∷ js) h = ground (arith, named-cancel_first k js h.1)

call-IsSaved :
    (cal : Calendar) (s : Scheduler) (c : Call) → NamesJobs c → IsSaved s → IsSaved (call cal s c)
unfolding cancel
call-IsSaved cal s (add_call now later moment id created type message action arguments) n h =
    elim (add_cases cal now later moment id created type message action arguments s) [
      | inl same ↦ rw same h
      | inr (when, e) ↦ rw e (
          save-IsSaved _ h.can_write (
            All-append IsNamed s.jobs
              (new_job cal when id created type message action arguments ∷ []) h.named (n, tt)))
    ]
call-IsSaved cal s (cancel_call k) n h = elim (Option-cases (cancel_first k s.jobs)) [
  | inl e ↦ rw (e, call, cancel) h
  | inr (after, e) ↦
      rw (e, call, cancel)
        (save-IsSaved (record s { jobs = after }) h.can_write
          (rw e at (named-cancel_first k s.jobs h.named)))
]
call-IsSaved cal s (tick_call now) n h = tick-IsSaved cal now s h

call_all-IsSaved :
    (cal : Calendar) (s : Scheduler) (cs : List Call)
    → All NamesJobs cs
    → IsSaved s
    → IsSaved (call_all cal s cs)
call_all-IsSaved cal s [] n h = h
call_all-IsSaved cal s (c ∷ cs) n h =
    call_all-IsSaved cal (call cal s c) cs n.1 (call-IsSaved cal s c n.0 h)

-- If the file can be written and identifiers are not empty, a new scheduler over the file has,
-- after any calls, exactly the jobs of the old one.
pub reload_lem :
    (conv : Conversions) (cal : Calendar) (s : Scheduler) (cs : List Call)
    → IsSaved s
    → All NamesJobs cs
    → load conv (call_all cal s cs).file ≡ ok (call_all cal s cs).jobs
reload_lem conv cal s cs saved names =
    let h = call_all-IsSaved cal s cs names saved in
    rw h.saved (load-payload_of conv (call_all cal s cs).jobs h.named)
