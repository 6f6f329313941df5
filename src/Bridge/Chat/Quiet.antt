-- ===== src/Bridge/Chat/Quiet.antt =====
-- What a chat run publishes before it ends: no event that says so.
use ai_agent_ollama.Base.{
  suc, String, ◌≡◌, refl, inl, inr, Bool, true, false, Option, none, some, List, [], ◌∷◌, ◌++◌,
  str_eq, if_ind, Result, ok, err, Bool-cases, Option-cases, Result-cases,
}
use ai_agent_ollama.Base.All.{All, All-append}
use ai_agent_ollama.Base.Dict.{lookup}
use ai_agent_ollama.Values.{Fields, fields, str, field, end}
use ai_agent_ollama.Errors.{Exception}
use ai_agent_ollama.Actions.{Action, Registry, needs_confirmation, get}
use ai_agent_ollama.Bridge.EventBus.{
  EventType, tool_proposed, chat_done, chat_failed, assistant_delta, Event,
}
use ai_agent_ollama.Bridge.Artifacts.{Files, Artifact, collect_artifacts}
use ai_agent_ollama.Bridge.Invoke.{
  PendingConfirmation, Bridge, ActionResult, say, request, resolve_confirmation, resolve_all,
  decide, invoke_in, invoke_with_bridge_confirmation,
}
use ai_agent_ollama.Bridge.Chat.Model.{ToolCall}
use ai_agent_ollama.Bridge.Chat.Tools.{
  Surroundings, Run, remember, tested, publish, propose, is_set, emit_deltas, answer, answered,
  result_text, run_tool,
}

-- the events that end a run
abbrev pub is_end : EventType → Bool
is_end chat_done = true
is_end chat_failed = true
is_end _ = false

abbrev pub Quiet : List Event → Type 0
Quiet es = All (λ e. is_end e.type ≡ false) es

-- One event ends the run: the last one, which is of this run.
pub record IsEnded (run_id : String) (es : List Event) : Type 0 where
  pub before : List Event
  pub last : Event
  pub whole : es ≡ before ++ last ∷ []
  pub quiet : Quiet before
  pub ends : is_end last.type ≡ true
  pub own : last.run_id ≡ run_id

module _ {W : Type 0} where
  say-Quiet :
      (e : Event) (b : Bridge W)
      → is_end e.type ≡ false
      → Quiet b.published
      → Quiet (say e b).published
  unfolding say
  say-Quiet e b t h = All-append _ b.published (e ∷ []) h (t, tt)

  resolve-Quiet :
      (k : String) (approved : Bool) (b : Bridge W)
      → Quiet b.published
      → Quiet (resolve_confirmation k approved b).1.published
  unfolding resolve_confirmation say
  resolve-Quiet k approved b h = elim (Option-cases (lookup k b.pending)) [
    | inl e ↦ rw (e, resolve_confirmation) h
    | inr (p, e) ↦ rw (e, resolve_confirmation) (All-append _ b.published (_ ∷ []) h (refl, tt))
  ]

  resolve_all-Quiet :
      (answers : List (String × Bool)) (b : Bridge W)
      → Quiet b.published
      → Quiet (resolve_all answers b).published
  unfolding resolve_all
  resolve_all-Quiet [] b h = h
  resolve_all-Quiet ((k, approved) ∷ rest) b h =
      resolve_all-Quiet rest (resolve_confirmation k approved b).1 (resolve-Quiet k approved b h)

  decide_published :
      (fs : Files) (registry : Registry W) (request_id name : String) (arguments : Fields)
      (waiting : Option PendingConfirmation) (b : Bridge W)
      → (decide fs registry request_id name arguments waiting b).1.published ≡ b.published
  unfolding decide invoke_in
  decide_published fs registry request_id name arguments none b = refl
  decide_published fs registry request_id name arguments (some p) b = elim (Bool-cases p.decided) [
    | inr n ↦ rw n refl
    | inl d ↦ elim (Bool-cases p.approved) [ inl a ↦ rw (d, a) refl | inr n ↦ rw (d, n) refl ]
  ]

  request-Quiet :
      (action : Action W) (request_id name : String) (arguments : Fields) (run_id : String)
      (b : Bridge W)
      → Quiet b.published
      → Quiet (request action request_id name arguments run_id b).published
  unfolding request say
  request-Quiet action request_id name arguments run_id b h =
      All-append _ b.published (_ ∷ []) h (refl, tt)

  pub invoke-Quiet :
      (fs : Files) (registry : Registry W) (request_id : String) (answers : List (String × Bool))
      (name : String) (arguments : Fields) (run_id : String) (b : Bridge W)
      → Quiet b.published
      → Quiet
          (invoke_with_bridge_confirmation fs registry request_id answers name arguments run_id
            b).1.published
  unfolding invoke_with_bridge_confirmation invoke_in
  invoke-Quiet fs registry request_id answers name arguments run_id b h =
      elim (Result-cases (get name registry)) [
        | inr (e, g) ↦ rw (g, invoke_with_bridge_confirmation) h
        | inl (action, g) ↦
            rw (g, invoke_with_bridge_confirmation)
              (if_ind (λ (r : Result Exception ActionResult × Bridge W). Quiet r.1.published)
                (needs_confirmation action b.context.safety (fields arguments))
                (λ _.
                  if_ind (λ (r : Result Exception ActionResult × Bridge W). Quiet r.1.published)
                    b.context.gate.auto_approve_all (λ _. h)
                    (λ _.
                      let asked =
                        resolve_all answers (request action request_id name arguments run_id b) in
                      rw
                        (decide_published fs registry request_id name arguments
                          (lookup request_id asked.pending) asked)
                        (resolve_all-Quiet answers _
                          (request-Quiet action request_id name arguments run_id b h))))
                (λ _. h))
      ]

abbrev pub QuietRun : {W : Type 0} → Run W → Type 0
QuietRun r = Quiet r.bridge.published

module _ {W : Type 0} (run_id : String) where
  pub publish-Quiet :
      (type : EventType) (payload : Fields) (r : Run W)
      → is_end type ≡ false
      → QuietRun r
      → QuietRun (publish run_id type payload r)
  unfolding publish say
  publish-Quiet type payload r t h = All-append _ r.bridge.published (_ ∷ []) h (t, tt)

  pub publish-IsEnded :
      (type : EventType) (payload : Fields) (r : Run W)
      → is_end type ≡ true
      → QuietRun r
      → IsEnded run_id (publish run_id type payload r).bridge.published
  unfolding publish say
  publish-IsEnded type payload r t h = record {
    before = r.bridge.published;
    last = _;
    whole = refl;
    quiet = h;
    ends = t;
    own = refl;
  }

  -- how a step that may return from the run leaves it
  abbrev pub Left : Result Exception Bool × Run W → Type 0
  Left (ok true, r) = IsEnded run_id r.bridge.published
  Left (ok false, r) = QuietRun r
  Left (err e, r) = QuietRun r

  propose-Quiet :
      (call : ToolCall) (call_id : String) (r : Run W)
      → QuietRun r
      → QuietRun (propose run_id call call_id r)
  unfolding propose
  propose-Quiet call call_id r h = publish-Quiet tool_proposed _ r refl h

pub tested-Quiet : {W : Type 0} (r : Run W) → QuietRun r → QuietRun (tested r)
unfolding tested
tested-Quiet r h = h

module _ {W : Type 0} (here : Surroundings) (run_id : String) where
  pub emit-Quiet :
      (pieces : List String) (streamed : Bool) (r : Run W)
      → QuietRun r
      → QuietRun (emit_deltas here run_id pieces streamed r).1
  unfolding emit_deltas
  emit-Quiet [] streamed r h = h
  emit-Quiet (piece ∷ rest) streamed r h =
      let silent = emit-Quiet rest streamed (tested r) (tested-Quiet r h) in
      if_ind (λ (d : Bool × Run W). QuietRun d.1) (is_set here r) (λ _. silent)
        (λ _.
          if_ind (λ (d : Bool × Run W). QuietRun d.1) (str_eq piece "") (λ _. silent)
            (λ _. emit-Quiet rest true _ (
              publish-Quiet run_id assistant_delta (field "text" (str piece) end) (tested r) refl
                (tested-Quiet r h))))

  answer-Quiet :
      (call : ToolCall) (call_id : String) (result : ActionResult) (found : List Artifact)
      (r : Run W)
      → QuietRun r
      → QuietRun (answer here run_id call call_id result found r)
  unfolding answer remember publish say
  answer-Quiet call call_id result found r h = All-append _ r.bridge.published (_ ∷ []) h (refl, tt)

  answered-Quiet :
      (call : ToolCall) (call_id : String) (done : ActionResult) (r : Run W)
      → QuietRun r
      → QuietRun (answered here run_id call call_id done r).1
  unfolding answered
  answered-Quiet call call_id done r h =
      elim (Result-cases (collect_artifacts here.files (result_text done))) [
        | inr (e, g) ↦ rw (g, answered) h
        | inl (found, g) ↦ rw (g, answered) (answer-Quiet call call_id done found r h)
      ]

  pub run_tool-Quiet :
      (registry : Registry W) (call : ToolCall) (call_id : String) (r : Run W)
      → QuietRun r
      → QuietRun (run_tool here run_id registry call call_id r).1
  unfolding run_tool
  run_tool-Quiet registry call call_id r h =
      let asked = propose run_id call call_id r in
      let invoked =
        invoke_with_bridge_confirmation here.files registry (here.uuid r.drawn)
          (here.answers r.drawn) call.name call.arguments run_id asked.bridge in
      let quiet =
        invoke-Quiet here.files registry (here.uuid r.drawn) (here.answers r.drawn) call.name
          call.arguments run_id asked.bridge (propose-Quiet run_id call call_id r h) in
      let after = record asked { bridge = invoked.1; drawn = suc r.drawn } in
      elim (Result-cases invoked.0) [
        | inr (e, g) ↦ rw (g, run_tool) quiet
        | inl (done, g) ↦ rw (g, run_tool) (answered-Quiet call call_id done after quiet)
      ]
