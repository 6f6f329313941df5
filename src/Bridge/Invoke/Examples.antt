-- ===== src/Bridge/Invoke/Examples.antt =====
-- A screenshot that is taken with and without approval.
use ai_agent_ollama.Base.{
  ℕ, suc, String, ◌≡◌, refl, ◌⊎◌, Bool, true, false, none, some, List, [], ◌∷◌, str_eq,
  if◌then◌else◌, ok,
}
use ai_agent_ollama.Base.All.{All}
use ai_agent_ollama.Base.Dict.{lookup}
use ai_agent_ollama.Values.{obj, end}
use ai_agent_ollama.Actions.{
  destructive, Context, Action, Registry, needs_confirmation, get, run_action,
}
use ai_agent_ollama.Bridge.Artifacts.{Files}
use ai_agent_ollama.Bridge.Invoke.{
  ActionInvocation, ActionResult, Bridge, entered, invoke_action_sync,
  invoke_with_bridge_confirmation,
}
use ai_agent_ollama.Bridge.Invoke.Gate.{Broken, auto_confirm_lem}
use ai_agent_ollama.Bridge.Invoke.Approval.{last_answer, answered, bridge_confirmation_lem}

-- one file, and one token in a text
abbrev desktop : Files
desktop = record {
  tokens = λ text. "shot.png" ∷ [];
  lower = λ s. s;
  is_absolute = λ p. false;
  join = λ d p. if str_eq p "shot.png" then "/w/shot.png" else "/none";
  base_name = λ p. "shot.png";
  suffix = λ p. ".png";
  resolve = λ p. ok p;
  is_file = λ p. ok (str_eq p "/w/shot.png");
  relative = λ p d. if str_eq d "/w" then some "shot.png" else none;
  work_dir = "/w";
  data_dir = "/d";
}

-- counts the screenshots
abbrev capture : Action ℕ
capture = record {
  name = "screen_capture";
  description = "";
  function = record {
    takes_context = true;
    declared_risk = none;
    call =
        λ arguments context. (ok "saved to shot.png", record context { world = suc context.world });
  };
  parameters = [];
  required = [];
  risk_level = destructive;
  unavailable = false;
  unavailable_reason = "";
  confirm_override = none;
  confirm_skip = none;
}

abbrev tools : Registry ℕ
tools = ("screen_capture", capture) ∷ []

abbrev denying : Context ℕ
denying = record {
  safety = record { require_confirm_for_destructive = true; confirm_mode = "destructive" };
  gate = record { auto_approve_all = false; auto_deny_all = true; prompt = none };
  world = 0;
}

abbrev confirmed : ActionInvocation
confirmed = record { name = "screen_capture"; arguments = end; auto_confirm = true }

auto_confirm_lem_example :
    (((r : ActionResult) × ((invoke_action_sync desktop tools confirmed denying).0 ≡ ok r))
      ⊎ Broken desktop (run_action tools "screen_capture" (obj end) (entered true denying)).0)
    × ((invoke_action_sync desktop tools confirmed denying).1.gate.auto_approve_all ≡ false)
    × ((invoke_action_sync desktop tools confirmed denying).1.gate.auto_deny_all ≡ false)
auto_confirm_lem_example = auto_confirm_lem desktop tools confirmed denying refl

abbrev waiting : Bridge ℕ
waiting = record { context = denying; pending = []; published = [] }

-- an answer to another request, then an approval
abbrev answers : List (String × Bool)
answers = ("r0", false) ∷ ("r1", true) ∷ []

bridge_confirmation_lem_example :
    ((invoke_with_bridge_confirmation desktop tools "r1" answers "screen_capture" end "run"
        waiting).0
      ≡ (answered desktop tools "screen_capture" end (last_answer "r1" answers) denying).0)
    × ((invoke_with_bridge_confirmation desktop tools "r1" answers "screen_capture" end "run"
          waiting).1.context
        ≡ (answered desktop tools "screen_capture" end (last_answer "r1" answers) denying).1)
unfolding get lookup needs_confirmation
bridge_confirmation_lem_example =
    bridge_confirmation_lem desktop tools "r1" answers "screen_capture" end "run" waiting capture
      refl refl refl
