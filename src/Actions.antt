-- ===== src/Actions.antt =====
-- local_agent/actions/registry.py: the actions that the model may call, the registry of them, the
-- confirmation gate, and `run_action`. The proofs are in the modules below.
pub mod Consent
pub mod Failures
pub mod Names
mod Examples
use ai_agent_ollama.Base.{
  String, ◌≡◌, Bool, true, false, not, ◌&&◌, Option, none, some, List, [], ◌∷◌, map, str_eq,
  if◌then◌else◌, Result, ok, err, ◌>>=◌, ◌>>◌, raise_if, concat, text_or, quoted, or_else,
}
use ai_agent_ollama.Base.Dict.{Dict, lookup, insert, contains, values}
use ai_agent_ollama.Values.{Value, obj, fields}
use ai_agent_ollama.Values.Coerce.{coerce_value}
use ai_agent_ollama.Errors.{
  Exception, assistant, config, refused, dependency_missing, type_error, value_error,
  not_implemented, other, message,
}

pub data Risk : Type 0 where
  safe destructive system : Risk

-- `SafetySettings` of local_agent/core/config.py, as far as an action's run reads it
pub record Safety : Type 0 where
  pub require_confirm_for_destructive : Bool
  pub confirm_mode : String

abbrev pub Answer : Type 0
Answer = Bool × String

-- `prompt` is what `set_callback` puts in the place of `ask`
pub record Gate : Type 0 where
  pub auto_approve_all : Bool
  pub auto_deny_all : Bool
  pub prompt : Option (String → Risk → Dict Value → Answer)

-- What an action may read and write: the settings and the gate, and in `world` all else.
pub record Context (W : Type 0) : Type 0 where
  pub safety : Safety
  pub gate : Gate
  pub world : W

-- A Python function with what `inspect.signature` and `__action_risk__` tell of it.
pub record Function (W : Type 0) : Type 0 where
  pub takes_context : Bool
  pub declared_risk : Option Risk
  pub call : Dict Value → Context W → Result Exception String × Context W

pub record Action (W : Type 0) : Type 0 where
  pub name : String
  pub description : String
  pub function : Function W
  pub parameters : Dict Value
  pub required : List String
  pub risk_level : Risk
  pub unavailable : Bool
  pub unavailable_reason : String
  pub confirm_override : Option (Safety → Dict Value → Bool)
  pub confirm_skip : Option (Safety → Dict Value → Bool)

abbrev pub Registry : Type 0 → Type 0
Registry W = Dict (Action W)

abbrev pub is_safe : Risk → Bool
is_safe safe = true
is_safe _ = false

abbrev pub is_system : Risk → Bool
is_system system = true
is_system _ = false

-- `hook is not None and hook(safety, arguments)`
abbrev pub holds : Option (Safety → Dict Value → Bool) → Safety → Dict Value → Bool
holds none safety arguments = false
holds (some hook) safety arguments = hook safety arguments

-- `ConfirmationGate.ask`
unfoldable pub ask : Gate → String → Risk → Dict Value → Result Exception Answer
ask gate name risk arguments = elim gate.prompt [
  | some prompt ↦ ok (prompt name risk arguments)
  | none ↦
      if gate.auto_approve_all
      then ok (true, "auto-approve-all is on")
      else if gate.auto_deny_all
      then ok (false, "auto-deny-all is on")
      else err (not_implemented "ConfirmationGate.ask must be replaced by a UI prompt before use")
]

unfoldable pub auto_approve : Gate → Gate
auto_approve gate = record gate { auto_approve_all = true; auto_deny_all = false }

unfoldable pub auto_deny : Gate → Gate
auto_deny gate = record gate { auto_approve_all = false; auto_deny_all = true }

unfoldable pub reset : Gate → Gate
reset gate = record gate { auto_approve_all = false; auto_deny_all = false }

unfoldable pub set_callback : (String → Risk → Dict Value → Answer) → Gate → Gate
set_callback callback gate = record gate { prompt = some callback }

-- the loop over `action.required`
unfoldable pub missing : List String → Dict Value → Option String
missing [] arguments = none
missing (name ∷ rest) arguments =
    if contains name arguments then missing rest arguments else some name

-- the `except` clauses of `run_action`
unfoldable pub reraise : String → Exception → Exception
reraise name (type_error m) =
    assistant (concat ("action " ∷ name ∷ " got bad arguments: " ∷ m ∷ []))
reraise name (dependency_missing m hint) = dependency_missing m hint
reraise name (refused m) = refused m
reraise name (assistant m) = assistant m
reraise name (config m) = config m
reraise name e = assistant (concat ("action " ∷ name ∷ " failed: " ∷ message e ∷ []))

unfoldable pub handled : String → Result Exception String → Result Exception String
unfolding reraise
handled name (ok text) = ok text
handled name (err e) = err (reraise name e)

-- `if not approved: raise ActionRefused`
unfoldable pub verdict : String → Answer → Result Exception Unit
verdict name answer =
    if answer.0
    then ok tt
    else err (refused (concat ("action " ∷ quoted name ∷ " was not approved: " ∷ answer.1 ∷ [])))

module _ {W : Type 0} where
  unfoldable pub needs_confirmation : Action W → Safety → Dict Value → Bool
  needs_confirmation action safety arguments =
      if holds action.confirm_skip safety arguments
      then false
      else if holds action.confirm_override safety arguments
      then true
      else if is_safe action.risk_level
      then false
      else if str_eq safety.confirm_mode "never"
      then false
      else if str_eq safety.confirm_mode "always"
      then true
      else if is_system action.risk_level
      then true
      else safety.require_confirm_for_destructive

  -- `ActionRegistry.register`
  unfoldable pub register : Action W → Registry W → Result Exception (Registry W)
  register action registry =
      if contains action.name registry
      then err (value_error (concat ("action already registered: " ∷ action.name ∷ [])))
      else ok (insert action.name action registry)

  -- `ActionRegistry.decorator`: the function's own risk goes before the one that is given
  unfoldable pub decorator : Action W → Registry W → Result Exception (Registry W)
  unfolding register
  decorator action registry =
      let actual_risk = or_else action.function.declared_risk action.risk_level in
      register
        (record action { risk_level = actual_risk; unavailable = false; unavailable_reason = "" })
        registry

  -- `ActionRegistry.get`
  unfoldable pub get : String → Registry W → Result Exception (Action W)
  get name registry = elim (lookup name registry) [
    | none ↦ err (assistant (concat ("unknown action: " ∷ name ∷ [])))
    | some action ↦ ok action
  ]

  -- `ActionRegistry.all`
  unfoldable pub all_actions : Registry W → List (Action W)
  all_actions registry = values registry

  -- `_coerce_arguments`
  unfoldable pub coerce_arguments : Action W → Value → Result Exception (Dict Value)
  coerce_arguments action (obj fs) = ok (map (λ entry. (entry.0, coerce_value entry.1)) (fields fs))
  coerce_arguments action _ =
      err (assistant (concat ("arguments for " ∷ action.name ∷ " must be an object" ∷ [])))

  -- `_validate_arguments`
  unfoldable pub validate_arguments : Action W → Dict Value → Result Exception Unit
  validate_arguments action arguments = do
    raise_if (not action.function.takes_context) (
        assistant (
          concat (
            "action " ∷ action.name
            ∷ " does not accept a 'context' kwarg; every action must take context= to access runtime resources"
            ∷ [])))
    elim (missing action.required arguments) [
      | none ↦ ok tt
      | some required ↦
          err (
            assistant
              (concat ("action " ∷ action.name ∷ " missing required arg: " ∷ required ∷ [])))
    ]

  -- `run_action` up to the confirmation: the action, and its arguments coerced and validated
  unfoldable pub prepare : Registry W → String → Value → Result Exception (Action W × Dict Value)
  prepare registry name arguments = do
    action ← get name registry
    raise_if action.unavailable (
        assistant (
          text_or action.unavailable_reason
            (concat ("action " ∷ quoted name ∷ " is not available in this environment" ∷ []))))
    coerced ← coerce_arguments action arguments
    validate_arguments action coerced
    ok (action, coerced)

  -- the consent step of `run_action`
  unfoldable pub confirm : Action W → String → Dict Value → Context W → Result Exception Unit
  unfolding verdict
  confirm action name arguments context =
      if needs_confirmation action context.safety arguments
      then (do
        answer ← ask context.gate action.name action.risk_level arguments
        verdict name answer)
      else ok tt

  -- What an action wrote before it raised stays written.
  unfoldable pub perform :
      Action W → String → Dict Value → Context W → Result Exception String × Context W
  unfolding handled
  perform action name arguments context =
      let (result, after) = action.function.call arguments context in (handled name result, after)

  unfoldable pub run_action :
      Registry W → String → Value → Context W → Result Exception String × Context W
  unfolding perform
  run_action registry name arguments context = elim (prepare registry name arguments) [
    | err e ↦ (err e, context)
    | ok (action, coerced) ↦ elim (confirm action name coerced context) [
      | err e ↦ (err e, context)
      | ok _ ↦ perform action name coerced context
    ]
  ]
