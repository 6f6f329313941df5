-- ===== src/Actions/Consent.antt =====
-- That an action does nothing without a confirmation that it needs.
use ai_agent_ollama.Base.{
  String, ◌≡◌, ◌≢◌, refl, ◌∙◌, ap, ◌⊎◌, inl, inr, true, false, none, some, Result, ok, err, ◌>>=◌,
  Bool-cases, Result-cases, arith,
}
use ai_agent_ollama.Base.Dict.{Dict, lookup}
use ai_agent_ollama.Values.{Value}
use ai_agent_ollama.Errors.{Exception}
use ai_agent_ollama.Actions.{
  Answer, verdict, Context, Action, Registry, ask, missing, needs_confirmation, get,
  coerce_arguments, handled, validate_arguments, prepare, confirm, perform, run_action,
}

-- Why an action ran, and what ran: it is in the registry under that name and available, no required
-- argument is missing from the coerced ones, either the policy does not ask for these or the gate said
-- yes to these, and the run is the call of its function with these.
pub record Authorised {W : Type 0} (registry : Registry W) (name : String) (arguments : Value)
    (context : Context W) : Type 0 where
  pub action : Action W
  pub coerced : Dict Value
  pub registered : lookup name registry ≡ some action
  pub available : action.unavailable ≡ false
  pub of_arguments : coerce_arguments action arguments ≡ ok coerced
  pub complete : missing action.required coerced ≡ none
  pub reason : String
  pub consent :
      (needs_confirmation action context.safety coerced ≡ false)
      ⊎ (ask context.gate action.name action.risk_level coerced ≡ ok (true, reason))
  pub ran : run_action registry name arguments context ≡ (
    handled name (action.function.call coerced context).0,
    (action.function.call coerced context).1,
  )

module _ {W : Type 0} (registry : Registry W) (name : String) (arguments : Value) where
  prepare_cases :
      {action : Action W} {coerced : Dict Value}
      → prepare registry name arguments ≡ ok (action, coerced)
      → (lookup name registry ≡ some action)
        × (action.unavailable ≡ false)
        × (coerce_arguments action arguments ≡ ok coerced)
        × (missing action.required coerced ≡ none)
  unfolding prepare get validate_arguments
  prepare_cases h = ground arith

verdict_ok :
    (name : String) (r : Result Exception Answer)
    → (r >>= verdict name) ≡ ok tt
    → (reason : String) × (r ≡ ok (true, reason))
unfolding verdict
verdict_ok name (ok (true, reason)) h = (reason, refl)
verdict_ok name (ok (false, reason)) h = cc
verdict_ok name (err e) h = cc

module _ {W : Type 0} (action : Action W) (name : String) (coerced : Dict Value) where
  confirm_cases :
      (context : Context W)
      → confirm action name coerced context ≡ ok tt
      → (reason : String) × ((needs_confirmation action context.safety coerced ≡ false)
          ⊎ (ask context.gate action.name action.risk_level coerced ≡ ok (true, reason)))
  unfolding confirm
  confirm_cases context h = elim (Bool-cases (needs_confirmation action context.safety coerced)) [
    | inr f ↦ ("", inl f)
    | inl t ↦
        let (reason, e) =
          verdict_ok name (ask context.gate action.name action.risk_level coerced) (rw t at h) in
        (reason, inr e)
  ]

module _ {W : Type 0} (registry : Registry W) (name : String) (arguments : Value) where
  pub run_action_unprepared :
      (context : Context W) {e : Exception}
      → prepare registry name arguments ≡ err e
      → run_action registry name arguments context ≡ (err e, context)
  unfolding run_action
  run_action_unprepared context p = rw (p, run_action)

  pub run_action_unconfirmed :
      (context : Context W) {action : Action W} {coerced : Dict Value} {e : Exception}
      → prepare registry name arguments ≡ ok (action, coerced)
      → confirm action name coerced context ≡ err e
      → run_action registry name arguments context ≡ (err e, context)
  unfolding run_action
  run_action_unconfirmed context p c = rw (p, c, run_action)

  pub run_action_confirmed :
      (context : Context W) {action : Action W} {coerced : Dict Value}
      → prepare registry name arguments ≡ ok (action, coerced)
      → confirm action name coerced context ≡ ok tt
      → run_action registry name arguments context ≡ perform action name coerced context
  unfolding run_action
  run_action_confirmed context p c = rw (p, c, run_action)

  performed :
      (action : Action W) (name : String) (coerced : Dict Value) (context : Context W)
      → perform action name coerced context ≡ (
        handled name (action.function.call coerced context).0,
        (action.function.call coerced context).1,
      )
  unfolding perform
  performed action name coerced context = refl

  abbrev Acted : Context W → Type 0
  Acted context =
      ((run_action registry name arguments context).1 ≢ context)
      ⊎ ((text : String) × ((run_action registry name arguments context).0 ≡ ok text))

  unchanged :
      (context : Context W) {e : Exception}
      → run_action registry name arguments context ≡ (err e, context)
      → ¬ Acted context
  unchanged context p (inl n) = n (ap (λ r. r.1) p)
  unchanged context p (inr (t, q)) = cc (ap (λ r. r.0) p)

  -- If a run of an action changed anything, or returned a text, then the action is registered and
  -- available, none of its required arguments is missing, the arguments as coerced were confirmed if the
  -- policy asks, and the run is the call of the action's function with these arguments.
  pub run_action-Authorised :
      (context : Context W)
      → ((run_action registry name arguments context).1 ≢ context)
        ⊎ ((text : String) × ((run_action registry name arguments context).0 ≡ ok text))
      → Authorised registry name arguments context
  run_action-Authorised context h = elim (Result-cases (prepare registry name arguments)) [
    | inr (e, p) ↦ absurd (unchanged context (run_action_unprepared context p) h)
    | inl ((action, coerced), p) ↦ elim (Result-cases (confirm action name coerced context)) [
      | inr (e, c) ↦ absurd (unchanged context (run_action_unconfirmed context p c) h)
      | inl (u, c) ↦
          let (registered, available, of_arguments, complete) =
            prepare_cases registry name arguments p in
          let (reason, consent) = confirm_cases action name coerced context c in
          record {
            action = action;
            coerced = coerced;
            registered = registered;
            available = available;
            of_arguments = of_arguments;
            complete = complete;
            reason = reason;
            consent = consent;
            ran = run_action_confirmed context p c ∙ performed action name coerced context;
          }
    ]
  ]
