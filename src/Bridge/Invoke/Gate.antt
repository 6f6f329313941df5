-- ===== src/Bridge/Invoke/Gate.antt =====
-- What an invocation does to the gate, and when one with `auto_confirm` gives a result.
use ai_agent_ollama.Base.{
  String, List, none, ◌≡◌, refl, ◌⊎◌, inl, inr, Result-cases, Bool, true, false, Result, ok, err,
}
use ai_agent_ollama.Values.{obj}
use ai_agent_ollama.Errors.{
  Exception, assistant, config, refused, dependency_missing, is_assistant, type_error, value_error,
  not_implemented, other,
}
use ai_agent_ollama.Actions.{Context, Registry, auto_approve, reset, run_action}
use ai_agent_ollama.Actions.Failures.{IsUnset, run_action_errors}
use ai_agent_ollama.Bridge.Artifacts.{Files, Artifact, collect_artifacts}
use ai_agent_ollama.Bridge.Invoke.{
  ActionInvocation, ActionResult, failure, entered, restored, outcome, invoke_action_sync,
}

module _ {W : Type 0} where
  approve-restored :
      (previous : Bool) (c : Context W)
      → ((restored true previous c).gate.auto_approve_all ≡ previous)
        × ((restored true previous c).gate.auto_deny_all ≡ false)
  unfolding restored auto_approve reset
  approve-restored true c = (refl, refl)
  approve-restored false c = (refl, refl)

  IsUnset-entered : (c : Context W) → ¬ IsUnset (entered true c).gate
  unfolding entered auto_approve
  IsUnset-entered c h = cc h.1

failure_ok :
    (name : String) (e : Exception)
    → is_assistant e ≡ true
    → (r : ActionResult) × (failure name e ≡ ok r)
unfolding failure
failure_ok name (assistant m) h = (_, refl)
failure_ok name (config m) h = (_, refl)
failure_ok name (refused m) h = (_, refl)
failure_ok name (dependency_missing m hint) h = (_, refl)
failure_ok name (type_error m) h = cc
failure_ok name (value_error m) h = cc
failure_ok name (not_implemented m) h = cc
failure_ok name (other c m) h = cc

-- the search for artifacts in a text raised
abbrev pub Broken : Files → Result Exception String → Type 0
Broken fs r =
    (text : String) × (e : Exception) × (r ≡ ok text) × (collect_artifacts fs text ≡ err e)

succeeded :
    (fs : Files) (name text : String) (found : List Artifact)
    → collect_artifacts fs text ≡ ok found
    → (out : ActionResult) × (outcome fs name (ok text) ≡ ok out)
unfolding outcome
succeeded fs name text found e = (
  record {
    name = name;
    text = text;
    success = true;
    refused = false;
    error = none;
    artifacts = found;
  },
  rw (e, outcome) refl,
)

outcome_ok :
    (fs : Files) (name : String) (r : Result Exception String)
    → ((e : Exception) → r ≡ err e → is_assistant e ≡ true)
    → ((out : ActionResult) × (outcome fs name r ≡ ok out)) ⊎ Broken fs r
unfolding outcome
outcome_ok fs name (ok text) h = elim (Result-cases (collect_artifacts fs text)) [
  | inl (found, e) ↦ inl (succeeded fs name text found e)
  | inr (x, e) ↦ inr (text, x, refl, e)
]
outcome_ok fs name (err e) h = inl (failure_ok name e (h e refl))

module _ {W : Type 0} (fs : Files) (registry : Registry W) where
  -- An invocation with `auto_confirm` gives a result, whatever the action does or raises, unless the
  -- search for artifacts in the text that the action returned raises; in each case it leaves the flag
  -- that approves everything as it was, and turns the flag that denies everything off.
  pub auto_confirm_lem :
      (inv : ActionInvocation) (context : Context W)
      → inv.auto_confirm ≡ true
      → (((r : ActionResult) × ((invoke_action_sync fs registry inv context).0 ≡ ok r))
          ⊎ Broken fs (run_action registry inv.name (obj inv.arguments) (entered true context)).0)
        × ((invoke_action_sync fs registry inv context).1.gate.auto_approve_all
            ≡ context.gate.auto_approve_all)
        × ((invoke_action_sync fs registry inv context).1.gate.auto_deny_all ≡ false)
  unfolding invoke_action_sync
  auto_confirm_lem inv context h =
      let result =
        outcome_ok fs inv.name
          (run_action registry inv.name (obj inv.arguments) (entered true context)).0
          (λ e raised.
            elim (run_action_errors registry inv.name (obj inv.arguments) (entered true context)
              raised) [ inl a ↦ a | inr unset ↦ absurd (IsUnset-entered context unset.0) ]) in
      let (approve, deny) =
        approve-restored context.gate.auto_approve_all
          (run_action registry inv.name (obj inv.arguments) (entered true context)).1 in
      rw h (result, approve, deny)
