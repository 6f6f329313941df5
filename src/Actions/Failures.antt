-- ===== src/Actions/Failures.antt =====
-- Which exceptions leave `run_action`.
use ai_agent_ollama.Base.{
  String, ◌≡◌, ◌⊎◌, inl, inr, ap, true, false, none, Result, ok, err, ◌>>=◌, >>=-eq-err,
  raise_if-eq-err, raise_if, refl, Bool-cases, Result-cases, arith,
}
use ai_agent_ollama.Base.Dict.{Dict}
use ai_agent_ollama.Values.{Value, null, obj}
use ai_agent_ollama.Errors.{Exception, is_assistant, not_implemented}
use ai_agent_ollama.Actions.{
  Answer, Gate, Context, Action, Registry, ask, needs_confirmation, get, coerce_arguments,
  validate_arguments, prepare, verdict, confirm, reraise, handled, perform, run_action,
}
use ai_agent_ollama.Actions.Consent.{
  run_action_unprepared, run_action_unconfirmed, run_action_confirmed,
}

reraise-is_assistant : (name : String) (e : Exception) → is_assistant (reraise name e) ≡ true
unfolding reraise
reraise-is_assistant name e = ground arith

handled_fails :
    (name : String) (r : Result Exception String) {e : Exception}
    → handled name r ≡ err e
    → is_assistant e ≡ true
unfolding handled
handled_fails name (ok text) h = cc
handled_fails name (err x) h = ground (arith, reraise-is_assistant name x)

left_by :
    {W : Type 0} {r : Result Exception String × Context W} {context : Context W} {x e : Exception}
    → r ≡ (err x, context)
    → r.0 ≡ err e
    → x ≡ e
left_by p h = cc (ap (λ r. r.0) p)

-- No prompt was installed, and neither automatic answer is on.
abbrev pub IsUnset : Gate → Type 0
IsUnset gate = (gate.prompt ≡ none) × (gate.auto_approve_all ≡ false) × (gate.auto_deny_all ≡ false)

-- the exception of such a gate
abbrev pub IsUnanswered : Gate → Exception → Type 0
IsUnanswered gate e =
    IsUnset gate
    × (e ≡ not_implemented "ConfirmationGate.ask must be replaced by a UI prompt before use")

ask_fails :
    {W : Type 0} (action : Action W) (context : Context W) (coerced : Dict Value) {e : Exception}
    → ask context.gate action.name action.risk_level coerced ≡ err e
    → IsUnanswered context.gate e
unfolding ask
ask_fails action context coerced h = ground arith

verdict_fails :
    (name : String) (r : Result Exception Answer) {e : Exception}
    → (r >>= verdict name) ≡ err e
    → (is_assistant e ≡ true) ⊎ (r ≡ err e)
unfolding verdict
verdict_fails name (ok (true, reason)) h = cc
verdict_fails name (ok (false, reason)) h = ground arith
verdict_fails name (err e) h = inr cc

module _ {W : Type 0} (registry : Registry W) (name : String) where
  coerce_fails :
      (action : Action W) (arguments : Value) {e : Exception}
      → coerce_arguments action arguments ≡ err e
      → is_assistant e ≡ true
  unfolding coerce_arguments
  coerce_fails action null h = ground arith
  coerce_fails action (obj fs) h = cc
  coerce_fails action _ h = ground arith

  validate_fails :
      (action : Action W) (arguments : Dict Value) {e : Exception}
      → validate_arguments action arguments ≡ err e
      → is_assistant e ≡ true
  unfolding validate_arguments
  validate_fails action arguments h = ground arith

  get_fails : {e : Exception} → get name registry ≡ err e → is_assistant e ≡ true
  unfolding get
  get_fails h = ground arith

  prepare_fails :
      (arguments : Value) {e : Exception}
      → prepare registry name arguments ≡ err e
      → is_assistant e ≡ true
  unfolding prepare
  prepare_fails arguments h = elim (>>=-eq-err (get name registry) _ h) [
    | inl g ↦ get_fails g
    | inr (action, _, r) ↦ elim (>>=-eq-err (raise_if action.unavailable _) _ r) [
      | inl u ↦ rw (← raise_if-eq-err action.unavailable _ u) refl
      | inr (_, _, q) ↦ elim (>>=-eq-err (coerce_arguments action arguments) _ q) [
        | inl c ↦ coerce_fails action arguments c
        | inr (coerced, _, v) ↦ elim (>>=-eq-err (validate_arguments action coerced) _ v) [
          | inl f ↦ validate_fails action coerced f
          | inr (_, _, d) ↦ cc
        ]
      ]
    ]
  ]

  confirm_fails :
      (context : Context W) (action : Action W) (coerced : Dict Value) {e : Exception}
      → confirm action name coerced context ≡ err e
      → (is_assistant e ≡ true) ⊎ IsUnanswered context.gate e
  unfolding confirm
  confirm_fails context action coerced h =
      elim (Bool-cases (needs_confirmation action context.safety coerced)) [
        | inr f ↦ cc (rw f at h)
        | inl t ↦
            elim (verdict_fails name (ask context.gate action.name action.risk_level coerced)
              (rw t at h)) [ inl a ↦ inl a | inr r ↦ inr (ask_fails action context coerced r) ]
      ]

  -- Every exception that leaves `run_action` is an `AssistantError`, whatever the action raises, or it
  -- is the `NotImplementedError` of `ask` itself, with a gate without a prompt or an automatic answer.
  pub run_action_errors :
      (arguments : Value) (context : Context W) {e : Exception}
      → (run_action registry name arguments context).0 ≡ err e
      → (is_assistant e ≡ true) ⊎ IsUnanswered context.gate e
  run_action_errors arguments context h = elim (Result-cases (prepare registry name arguments)) [
    | inr (x, p) ↦ inl (
        rw (left_by (run_action_unprepared registry name arguments context p) h) at
          (prepare_fails arguments p))
    | inl ((action, coerced), p) ↦ elim (Result-cases (confirm action name coerced context)) [
      | inr (x, c) ↦
          rw (left_by (run_action_unconfirmed registry name arguments context p c) h) at
            (confirm_fails context action coerced c)
      | inl (u, c) ↦ inl (
          handled_fails name (action.function.call coerced context).0
            (unfold perform in rw (run_action_confirmed registry name arguments context p c) at h))
    ]
  ]
