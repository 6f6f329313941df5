-- ===== src/Bridge/Invoke.antt =====
-- The actions and the confirmations of local_agent/bridge/api/handlers.py, with the records of
-- local_agent/bridge/protocol.py that they pass.
pub mod Gate
pub mod Approval
mod Examples
use ai_agent_ollama.Base.{
  ℕ, suc, String, Bool, true, false, Option, none, some, List, [], ◌∷◌, ◌++◌, if◌then◌else◌, Result,
  ok, err, concat, str_eq,
}
use ai_agent_ollama.Base.Dict.{Dict, lookup, insert, erase}
use ai_agent_ollama.Values.{Value, Fields, str, bool, obj, field, end, fields}
use ai_agent_ollama.Errors.{
  Exception, assistant, config, refused, dependency_missing, is_assistant, message,
}
use ai_agent_ollama.Actions.{
  Risk, safe, destructive, system, Gate as ConfirmationGate, Context, Action, Registry,
  auto_approve, reset, needs_confirmation, get, run_action,
}
use ai_agent_ollama.Bridge.EventBus.{Event, tool_confirm_requested, tool_confirm_resolved}
use ai_agent_ollama.Bridge.Artifacts.{Files, Artifact, collect_artifacts}

pub record ActionInvocation : Type 0 where
  pub name : String
  pub arguments : Fields
  pub auto_confirm : Bool

pub record ActionResult : Type 0 where
  pub name : String
  pub text : String
  pub success : Bool
  pub refused : Bool
  pub error : Option String
  pub artifacts : List Artifact

-- a result that did not succeed
abbrev pub failed : String → String → Bool → Option String → ActionResult
failed name text was_refused error = record {
  name = name;
  text = text;
  success = false;
  refused = was_refused;
  error = error;
  artifacts = [];
}

-- the `except` clauses of `_invoke_action_sync`
unfoldable pub failure : String → Exception → Result Exception ActionResult
failure name (refused m) = ok (failed name m true none)
failure name (dependency_missing m hint) = ok (
    failed name m false
      (some (if str_eq hint "" then m else concat ("missing dependency: " ∷ hint ∷ []))))
failure name (assistant m) = ok (failed name m false (some m))
failure name (config m) = ok (failed name m false (some m))
failure name e = err e

unfoldable pub outcome : Files → String → Result Exception String → Result Exception ActionResult
unfolding failure
outcome fs name (ok text) = elim (collect_artifacts fs text) [
  | ok found ↦ ok (record {
    name = name;
    text = text;
    success = true;
    refused = false;
    error = none;
    artifacts = found;
  })
  | err e ↦ failure name e
]
outcome fs name (err e) = failure name e

-- `PendingConfirmation`; `decided` says whether its `threading.Event` is set.
pub record PendingConfirmation : Type 0 where
  pub request_id : String
  pub name : String
  pub arguments : Fields
  pub approved : Bool
  pub run_id : String
  pub decided : Bool

abbrev pub new_request : String → String → Fields → String → PendingConfirmation
new_request request_id name arguments run_id = record {
  request_id = request_id;
  name = name;
  arguments = arguments;
  approved = false;
  run_id = run_id;
  decided = false;
}

-- What the handlers of actions read and write. No handler reads the bus, so `published` lists the
-- events in the order in which they are published on it.
pub record Bridge (W : Type 0) : Type 0 where
  pub context : Context W
  pub pending : Dict PendingConfirmation
  pub published : List Event

abbrev pub risk_text : Risk → String
risk_text safe = "safe"
risk_text destructive = "destructive"
risk_text system = "system"

module _ {W : Type 0} where
  unfoldable pub say : Event → Bridge W → Bridge W
  say e b = record b { published = b.published ++ e ∷ [] }

  -- the gate of the call, and the gate that the `finally` clause leaves
  unfoldable pub entered : Bool → Context W → Context W
  entered auto_confirm c = if auto_confirm then record c { gate = auto_approve c.gate } else c

  unfoldable pub restored : Bool → Bool → Context W → Context W
  restored auto_confirm previous c =
      if auto_confirm
      then (if previous
          then record c { gate = auto_approve c.gate }
          else record c { gate = reset c.gate })
      else c

  -- `_invoke_action_sync`
  unfoldable pub invoke_action_sync :
      Files → Registry W → ActionInvocation → Context W → Result Exception ActionResult × Context W
  unfolding entered restored outcome
  invoke_action_sync fs registry inv context =
      let previous = context.gate.auto_approve_all in
      let (result, after) =
        run_action registry inv.name (obj inv.arguments) (entered inv.auto_confirm context) in
      (outcome fs inv.name result, restored inv.auto_confirm previous after)

  -- `resolve_confirmation`: the event is set and published only for a request that is pending
  unfoldable pub resolve_confirmation : String → Bool → Bridge W → Bool × Bridge W
  unfolding say
  resolve_confirmation request_id approved b = elim (lookup request_id b.pending) [
    | none ↦ (false, b)
    | some p ↦ (
      true,
      say
          (record {
            type = tool_confirm_resolved;
            payload = obj (
                field "request_id" (str request_id)
                  (field "approved" (bool approved) (field "name" (str p.name) end)));
            run_id = p.run_id;
          })
          (record b {
            pending =
                insert request_id (record p { approved = approved; decided = true }) b.pending;
          }),
    )
  ]

  -- the calls of `resolve_confirmation` that front ends make while a request waits
  unfoldable pub resolve_all : List (String × Bool) → Bridge W → Bridge W
  unfolding resolve_confirmation
  resolve_all [] b = b
  resolve_all ((request_id, approved) ∷ rest) b =
      resolve_all rest (resolve_confirmation request_id approved b).1

  unfoldable pub invoke_in :
      Files → Registry W → ActionInvocation → Bridge W → Result Exception ActionResult × Bridge W
  unfolding invoke_action_sync
  invoke_in fs registry inv b =
      let (result, after) = invoke_action_sync fs registry inv b.context in
      (result, record b { context = after })

  -- after the wait: the request is no longer pending, and runs if it was approved in time
  unfoldable pub decide :
      Files
      → Registry W
      → String
      → String
      → Fields
      → Option PendingConfirmation
      → Bridge W
      → Result Exception ActionResult × Bridge W
  unfolding invoke_in
  decide fs registry request_id name arguments waiting b =
      let after = record b { pending = erase request_id b.pending } in
      elim waiting [
        | none ↦ (ok (failed name "confirmation timed out (defaulting to refuse)" true none), after)
        | some p ↦
            if p.decided
            then (if p.approved
                then invoke_in fs registry
                    (record { name = name; arguments = arguments; auto_confirm = true }) after
                else (ok (failed name "user declined via bridge" true none), after))
            else (ok (failed name "confirmation timed out (defaulting to refuse)" true none), after)
      ]

  -- the pending request, announced to the front ends
  unfoldable pub request : Action W → String → String → Fields → String → Bridge W → Bridge W
  unfolding say
  request action request_id name arguments run_id b =
      say
        (record {
          type = tool_confirm_requested;
          payload = obj (
              field "request_id" (str request_id) (
                field "name" (str name) (
                  field "arguments" (obj arguments)
                    (field "risk" (str (risk_text action.risk_level)) end))));
          run_id = run_id;
        })
        (record b {
          pending = insert request_id (new_request request_id name arguments run_id) b.pending;
        })

  -- `_invoke_with_bridge_confirmation`. `answers` are the calls of `resolve_confirmation` up to
  -- the end of the wait, which is 120 seconds or the moment at which the event is set.
  unfoldable pub invoke_with_bridge_confirmation :
      Files
      → Registry W
      → String
      → List (String × Bool)
      → String
      → Fields
      → String
      → Bridge W
      → Result Exception ActionResult × Bridge W
  unfolding request resolve_all decide invoke_in
  invoke_with_bridge_confirmation fs registry request_id answers name arguments run_id b =
      elim (get name registry) [
        | err e ↦ (err e, b)
        | ok action ↦
            let direct =
              invoke_in fs registry
                (record { name = name; arguments = arguments; auto_confirm = false }) b in
            if needs_confirmation action b.context.safety (fields arguments)
            then (if b.context.gate.auto_approve_all
                then direct
                else let asked =
                    resolve_all answers (request action request_id name arguments run_id b) in
                  decide fs registry request_id name arguments (lookup request_id asked.pending)
                    asked)
            else direct
      ]
