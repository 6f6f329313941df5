-- ===== src/Actions/Examples.antt =====
-- Runs of actions over a small registry, and the theorems at these inputs.
use ai_agent_ollama.Base.{ℕ, ◌+◌, ◌≡◌, refl, ◌⊎◌, inr, true, false, none, [], ◌∷◌, ok, err}
use ai_agent_ollama.Base.Dict.{lookup}
use ai_agent_ollama.Values.{Value, str, obj, end, field}
use ai_agent_ollama.Errors.{refused, is_assistant}
use ai_agent_ollama.Actions.{
  destructive, Safety, Context, Action, Registry, ask, missing, needs_confirmation, get,
  coerce_arguments, validate_arguments, prepare, confirm, run_action,
}
use ai_agent_ollama.Actions.Consent.{Authorised, run_action-Authorised}
use ai_agent_ollama.Actions.Failures.{IsUnanswered, run_action_errors}

-- counts the files that were deleted
abbrev delete_file : Action ℕ
delete_file = record {
  name = "delete_file";
  description = "";
  function = record {
    takes_context = true;
    declared_risk = none;
    call = λ arguments context. (ok "deleted", record context { world = context.world + 1 });
  };
  parameters = [];
  required = "path" ∷ [];
  risk_level = destructive;
  unavailable = false;
  unavailable_reason = "";
  confirm_override = none;
  confirm_skip = none;
}

abbrev policy : Safety
policy = record { require_confirm_for_destructive = true; confirm_mode = "destructive" }

abbrev approving : Context ℕ
approving = record {
  safety = policy;
  gate = record { auto_approve_all = true; auto_deny_all = false; prompt = none };
  world = 0;
}

abbrev denying : Context ℕ
denying = record approving {
  gate = record { auto_approve_all = false; auto_deny_all = true; prompt = none };
}

abbrev one_action : Registry ℕ
one_action = ("delete_file", delete_file) ∷ []

abbrev given : Value
given = obj (field "path" (str "a.txt") end)

approved_run :
    run_action one_action "delete_file" given approving
    ≡ (ok "deleted", record approving { world = 1 })
unfolding run_action prepare get lookup coerce_arguments validate_arguments missing confirm
    needs_confirmation ask
approved_run = refl

denied_run :
    (run_action one_action "delete_file" given denying).0
    ≡ err (refused "action 'delete_file' was not approved: auto-deny-all is on")
unfolding run_action prepare get lookup coerce_arguments validate_arguments missing confirm
    needs_confirmation ask
denied_run = refl

run_action-Authorised_example : Authorised one_action "delete_file" given approving
unfolding run_action prepare get lookup coerce_arguments validate_arguments missing confirm
    needs_confirmation ask
run_action-Authorised_example =
    run_action-Authorised one_action "delete_file" given approving (inr ("deleted", refl))

run_action_errors_example :
    (is_assistant (refused "action 'delete_file' was not approved: auto-deny-all is on") ≡ true)
    ⊎ IsUnanswered denying.gate
        (refused "action 'delete_file' was not approved: auto-deny-all is on")
run_action_errors_example = run_action_errors one_action "delete_file" given denying denied_run
