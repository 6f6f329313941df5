-- ===== src/Bridge/Chat/Answers.antt =====
-- That the tool messages of a round answer the calls of the assistant's message, one by one.
use ai_agent_ollama.Base.{
  suc, String, ◌≡◌, refl, ◌∙◌, sym, ap, inl, inr, Bool, true, false, List, [], ◌∷◌, ◌++◌, length,
  if_ind, append-nil, Bool-cases, Result-cases, Result, ok, err,
}
use mathlib.Core.List.{append_assoc}
use ai_agent_ollama.Values.{str}
use ai_agent_ollama.Errors.{Exception}
use ai_agent_ollama.Actions.{Registry}
use ai_agent_ollama.Runtime.{Message, Runtime, append, emit, persist_history}
use ai_agent_ollama.Bridge.Artifacts.{Artifact, collect_artifacts}
use ai_agent_ollama.Bridge.Invoke.{ActionResult, invoke_with_bridge_confirmation}
use ai_agent_ollama.Bridge.Chat.Model.{ToolCall}
use ai_agent_ollama.Bridge.Chat.Tools.{
  Surroundings, Run, remember, tested, publish, propose, is_set, answer, answered as finish,
  result_text, tool_message, run_tool, run_tools,
}

-- The messages answer the first calls, in order: each is a tool message with the identifier and the
-- name of its call.
pub data Answers : List (ToolCall × String) → List Message → Type 0 where
  none_yet : (calls : List (ToolCall × String)) → Answers calls []
  answers :
      (call : ToolCall) (call_id : String) (calls : List (ToolCall × String)) (m : Message)
      (later : List Message)
      → m.role ≡ "tool"
      → m.tool_call_id ≡ str call_id
      → m.name ≡ str call.name
      → Answers calls later
      → Answers ((call, call_id) ∷ calls) (m ∷ later)

-- What a round over the calls adds to the conversation.
pub record IsAnswered (calls : List (ToolCall × String)) (before after : List Message)
    (result : Result Exception Bool) : Type 0 where
  pub added : List Message
  pub appended : after ≡ before ++ added
  pub in_order : Answers calls added
  pub complete : result ≡ ok false → length added ≡ length calls

messages-append : (m : Message) (r : Runtime) → (append m r).messages ≡ r.messages ++ m ∷ []
unfolding append emit persist_history
messages-append m r =
    if_ind {A = Runtime} (λ x. x.messages ≡ r.messages ++ m ∷ []) r.writable (λ _. refl) (λ _. refl)

module _ {W : Type 0} (here : Surroundings) (run_id : String) (registry : Registry W) where
  messages-answer :
      (call : ToolCall) (call_id : String) (done : ActionResult) (found : List Artifact) (r : Run W)
      → (answer here run_id call call_id done found r).runtime.messages
        ≡ r.runtime.messages ++ tool_message here call call_id (result_text done) r ∷ []
  unfolding answer publish remember
  messages-answer call call_id done found r = messages-append _ r.runtime

  -- a call that raises answers nothing; any other adds its tool message
  pub data ToolLeft (call : ToolCall) (call_id : String) (before : List Message)
      : Result Exception Unit × Run W → Type 0 where
    raised :
        (e : Exception) (after : Run W)
        → after.runtime.messages ≡ before
        → ToolLeft call call_id before (err e, after)
    answered :
        (m : Message) (after : Run W)
        → m.role ≡ "tool"
        → m.tool_call_id ≡ str call_id
        → m.name ≡ str call.name
        → after.runtime.messages ≡ before ++ m ∷ []
        → ToolLeft call call_id before (ok tt, after)

  finish-ToolLeft :
      (call : ToolCall) (call_id : String) (done : ActionResult) (r : Run W)
      → ToolLeft call call_id r.runtime.messages (finish here run_id call call_id done r)
  unfolding finish tool_message
  finish-ToolLeft call call_id done r =
      elim (Result-cases (collect_artifacts here.files (result_text done))) [
        | inr (e, g) ↦ rw (g, finish) (raised e r refl)
        | inl (found, g) ↦
            rw (g, finish)
              (answered (tool_message here call call_id (result_text done) r)
                (answer here run_id call call_id done found r) refl refl refl
                (messages-answer call call_id done found r))
      ]

  run_tool-ToolLeft :
      (call : ToolCall) (call_id : String) (r : Run W)
      → ToolLeft call call_id r.runtime.messages (run_tool here run_id registry call call_id r)
  unfolding run_tool propose publish
  run_tool-ToolLeft call call_id r =
      let asked = propose run_id call call_id r in
      let invoked =
        invoke_with_bridge_confirmation here.files registry (here.uuid r.drawn)
          (here.answers r.drawn) call.name call.arguments run_id asked.bridge in
      let after = record asked { bridge = invoked.1; drawn = suc r.drawn } in
      elim (Result-cases invoked.0) [
        | inr (e, g) ↦ rw (g, run_tool) (raised e after refl)
        | inl (done, g) ↦ rw (g, run_tool) (finish-ToolLeft call call_id done after)
      ]

  abbrev Answered : List (ToolCall × String) → List Message → Result Exception Bool × Run W → Type 0
  Answered calls before q = IsAnswered calls before q.1.runtime.messages q.0

  nothing_added :
      (calls : List (ToolCall × String)) (before after : List Message)
      (result : Result Exception Bool)
      → after ≡ before
      → (result ≡ ok false → 0 ≡ length calls)
      → IsAnswered calls before after result
  nothing_added calls before after result e done = record {
    added = [];
    appended = e ∙ sym (append-nil before);
    in_order = none_yet calls;
    complete = done;
  }

  -- the rest of the loop after one call
  abbrev continued :
      List (ToolCall × String) → Result Exception Unit × Run W → Result Exception Bool × Run W
  continued rest q =
      let (result, after) = q in
      elim result [ err e ↦ (err e, after) | ok _ ↦ run_tools here run_id registry rest after ]

  step :
      (call : ToolCall) (call_id : String) (rest : List (ToolCall × String)) (before : List Message)
      (q : Result Exception Unit × Run W)
      → ((after : Run W)
          → Answered rest after.runtime.messages (run_tools here run_id registry rest after))
      → ToolLeft call call_id before q
      → Answered ((call, call_id) ∷ rest) before (continued rest q)
  step call call_id rest before q later (raised e after same) =
      nothing_added ((call, call_id) ∷ rest) before after.runtime.messages (err e) same
        (λ h. absurd (cc h))
  step call call_id rest before q later (answered m after role id name added_) =
      let found = later after in
      record {
        added = m ∷ found.added;
        appended =
            found.appended
            ∙ ap (λ l. l ++ found.added) added_
            ∙ append_assoc before (m ∷ []) found.added;
        in_order = answers call call_id rest m found.added role id name found.in_order;
        complete = λ h. ap suc (found.complete h);
      }

  -- The loop over the calls of a reply appends tool messages that answer the calls one by one in
  -- their order, each with the identifier and the name of its call, and nothing else; where it runs to
  -- its end every call is answered. Where it returns at an interrupt or raises, the later calls are not.
  pub run_tools_lem :
      (calls : List (ToolCall × String)) (r : Run W)
      → IsAnswered calls r.runtime.messages
          (run_tools here run_id registry calls r).1.runtime.messages
          (run_tools here run_id registry calls r).0
  unfolding run_tools publish tested
  run_tools_lem [] r = nothing_added [] r.runtime.messages _ (ok false) refl (λ h. refl)
  run_tools_lem ((call, call_id) ∷ rest) r = elim (Bool-cases (is_set here r)) [
    | inl s ↦
        rw (s, run_tools)
          (nothing_added ((call, call_id) ∷ rest) r.runtime.messages _ (ok true) refl
            (λ h. absurd (cc h)))
    | inr n ↦
        rw (n, run_tools)
          (step call call_id rest r.runtime.messages
            (run_tool here run_id registry call call_id (tested r)) (run_tools_lem rest)
            (run_tool-ToolLeft call call_id (tested r)))
  ]
