-- ===== src/Bridge/Chat/Tools.antt =====
-- The tools of a chat run: what a run meets and keeps, and the loop over the calls of a reply in
-- `_chat_loop` of local_agent/bridge/api/handlers.py.
use ai_agent_ollama.Base.{
  ℕ, suc, String, Bool, true, false, Option, none, some, List, [], ◌∷◌, str_eq, leb, or_else,
  if◌then◌else◌, Result, ok, err, concat, text_or,
}
use ai_agent_ollama.Values.{Value, Items, Fields, null, bool, str, arr, obj, nil, cons, field, end}
use ai_agent_ollama.Errors.{Exception}
use ai_agent_ollama.Actions.{Registry}
use ai_agent_ollama.Runtime.{Message, Runtime, append}
use ai_agent_ollama.Bridge.EventBus.{
  EventType, assistant_delta, tool_proposed, tool_result, chat_failed, Event,
}
use ai_agent_ollama.Bridge.Artifacts.{Files, Artifact, collect_artifacts}
use ai_agent_ollama.Bridge.Invoke.{ActionResult, Bridge, say, invoke_with_bridge_confirmation}
use ai_agent_ollama.Bridge.Chat.Model.{ToolCall, ModelReply}

-- What a run meets from outside. `stops` is the number of the test of the stop event from which on
-- it is set. Identifiers, times and the answers to the request with an identifier are told apart by
-- the number of those that were drawn before. `model turn messages` is the call of the client in
-- that turn: the pieces that it passes on while it streams, and its reply or what it raises.
pub record Surroundings : Type 0 where
  pub stops : Option ℕ
  pub uuid : ℕ → String
  pub now : ℕ → String
  pub answers : ℕ → List (String × Bool)
  pub dumps : Fields → String
  pub lower : String → String
  pub first_120 : String → String
  pub files : Files
  pub client : Result Exception Unit
  pub model : ℕ → List Value → List String × Result Exception ModelReply
  pub max_agent_turns : ℕ
  pub max_context_messages : ℕ

-- `tests` counts the tests of the stop event, and `drawn` the identifiers.
pub record Run (W : Type 0) : Type 0 where
  pub bridge : Bridge W
  pub runtime : Runtime
  pub tests : ℕ
  pub drawn : ℕ

abbrev pub event : EventType → Fields → String → Event
event type payload run_id = record { type = type; payload = obj payload; run_id = run_id }

abbrev pub interrupted : Fields
interrupted = field "reason" (str "interrupted") end

abbrev pub spoken : String → String → String → Message
spoken role content now = record {
  role = role;
  content = content;
  name = null;
  tool_call_id = null;
  tool_calls = null;
  timestamp = now;
}

-- the text of a tool message
unfoldable pub result_text : ActionResult → String
result_text result =
    if result.refused
    then concat ("REFUSED: " ∷ result.text ∷ [])
    else if result.success
    then result.text
    else concat ("ERROR: " ∷ text_or (or_else result.error "") result.text ∷ [])

abbrev pub artifact_items : List Artifact → Items
artifact_items [] = nil
artifact_items (a ∷ rest) =
    cons
      (obj (field "name" (str a.name) (field "path" (str a.path) (field "kind" (str a.kind) end))))
      (artifact_items rest)

-- `_collect_artifacts(text) or list(result.artifacts)`
abbrev pub shown_artifacts : List Artifact → List Artifact → List Artifact
shown_artifacts [] own = own
shown_artifacts (a ∷ rest) own = a ∷ rest

module _ (here : Surroundings) where
  -- the identifiers of the calls: the model's, or new ones
  unfoldable pub assign_ids : List ToolCall → ℕ → List (ToolCall × String) × ℕ
  assign_ids [] drawn = ([], drawn)
  assign_ids (call ∷ rest) drawn =
      let new = concat ("call_" ∷ here.uuid drawn ∷ []) in
      let (later, after) = assign_ids rest (suc drawn) in
      ((call, text_or (or_else call.id "") new) ∷ later, after)

  -- the entry of a call in the `tool_calls` of a message
  abbrev pub call_item : ToolCall × String → Value
  call_item (call, call_id) = obj (
      field "id" (str call_id) (
        field "type" (str "function") (
          field "function"
            (obj (
              field "name" (str call.name)
                (field "arguments" (str (here.dumps call.arguments)) end)))
            end)))

  abbrev pub call_items : List (ToolCall × String) → Items
  call_items [] = nil
  call_items (entry ∷ rest) = cons (call_item entry) (call_items rest)

module _ {W : Type 0} where
  unfoldable pub remember : Message → Run W → Run W
  remember m r = record r { runtime = append m r.runtime }

  unfoldable pub tested : Run W → Run W
  tested r = record r { tests = suc r.tests }

module _ {W : Type 0} (run_id : String) where
  unfoldable pub publish : EventType → Fields → Run W → Run W
  unfolding say
  publish type payload r = record r { bridge = say (event type payload run_id) r.bridge }

  unfoldable pub propose : ToolCall → String → Run W → Run W
  unfolding publish
  propose call call_id r =
      publish tool_proposed
        (field "name" (str call.name)
          (field "arguments" (obj call.arguments) (field "call_id" (str call_id) end)))
        r

module _ {W : Type 0} (here : Surroundings) where
  -- `stop_event.is_set()`
  unfoldable pub is_set : Run W → Bool
  is_set r = elim here.stops [ none ↦ false | some n ↦ leb n r.tests ]

  -- the assistant message that carries the calls
  unfoldable pub calling : String → List (ToolCall × String) → Run W → Message
  calling content calls r = record (spoken "assistant" content (here.now r.drawn)) {
    tool_calls = arr (call_items here calls);
  }

  -- a tool's answer in the conversation
  unfoldable pub tool_message : ToolCall → String → String → Run W → Message
  tool_message call call_id text r = record (spoken "tool" text (here.now r.drawn)) {
    name = str call.name;
    tool_call_id = str call_id;
  }

module _ {W : Type 0} (here : Surroundings) (run_id : String) where
  -- `emit_delta` on the pieces of one reply, and whether one was passed on
  unfoldable pub emit_deltas : List String → Bool → Run W → Bool × Run W
  unfolding publish tested is_set
  emit_deltas [] streamed r = (streamed, r)
  emit_deltas (piece ∷ rest) streamed r =
      let silent = emit_deltas rest streamed (tested r) in
      let spoken_on =
        emit_deltas rest true
          (publish run_id assistant_delta (field "text" (str piece) end) (tested r)) in
      if is_set here r then silent else (if str_eq piece "" then silent else spoken_on)

  -- the end of a round of the loop over the calls
  unfoldable pub answer : ToolCall → String → ActionResult → List Artifact → Run W → Run W
  unfolding publish remember result_text tool_message
  answer call call_id result found r =
      let text = result_text result in
      publish run_id tool_result
        (field "name" (str call.name) (
          field "text" (str text) (
            field "success" (bool result.success) (
              field "refused" (bool result.refused) (
                field "call_id" (str call_id) (
                  field "artifacts" (arr (artifact_items (shown_artifacts found result.artifacts)))
                    end))))))
        (remember (tool_message here call call_id text r) r)

  -- what follows a result: the search for artifacts may raise before the answer is written
  unfoldable pub answered : ToolCall → String → ActionResult → Run W → Result Exception Unit × Run W
  unfolding answer result_text
  answered call call_id done r = elim (collect_artifacts here.files (result_text done)) [
    | err e ↦ (err e, r)
    | ok found ↦ (ok tt, answer call call_id done found r)
  ]

  -- one call of a tool: what it raises leaves the loop
  unfoldable pub run_tool : Registry W → ToolCall → String → Run W → Result Exception Unit × Run W
  unfolding propose answered
  run_tool registry call call_id r =
      let asked = propose run_id call call_id r in
      let (result, bridge) =
        invoke_with_bridge_confirmation here.files registry (here.uuid r.drawn)
          (here.answers r.drawn) call.name call.arguments run_id asked.bridge in
      let after = record asked { bridge = bridge; drawn = suc r.drawn } in
      elim result [ err e ↦ (err e, after) | ok done ↦ answered call call_id done after ]

  -- the loop over the calls; true where it returned from the run
  unfoldable pub run_tools :
      Registry W → List (ToolCall × String) → Run W → Result Exception Bool × Run W
  unfolding run_tool publish tested is_set
  run_tools registry [] r = (ok false, r)
  run_tools registry ((call, call_id) ∷ rest) r = elim (is_set here r) [
    | true ↦ (ok true, publish run_id chat_failed interrupted (tested r))
    | false ↦
        let (result, after) = run_tool registry call call_id (tested r) in
        elim result [ err e ↦ (err e, after) | ok _ ↦ run_tools registry rest after ]
  ]
