-- ===== src/Bridge/Chat/Unknown.antt =====
-- What a tool name that is not registered does to a run.
use ai_agent_ollama.Base.{
  ℕ, String, Bool, ◌≡◌, refl, ◌∙◌, ap, none, str_eq, if_ind, List, [], ◌∷◌, ◌++◌, err,
}
use ai_agent_ollama.Values.{arr}
use ai_agent_ollama.Errors.{Exception}
use ai_agent_ollama.Actions.{Registry, get}
use ai_agent_ollama.Runtime.{Runtime, Message, append, emit, persist_history}
use ai_agent_ollama.Bridge.Invoke.{invoke_with_bridge_confirmation}
use ai_agent_ollama.Bridge.Chat.Model.{ToolCall}
use ai_agent_ollama.Bridge.Chat.Tools.{
  Surroundings, Run, spoken, remember, tested, publish, propose, is_set, calling, run_tool,
  run_tools, call_items, assign_ids,
}
use ai_agent_ollama.Bridge.Chat.Loop.{use_reply, show_content}

module _ {W : Type 0} (here : Surroundings) (run_id : String) (registry : Registry W) where
  raised :
      (call : ToolCall) (call_id : String) (r : Run W) {e : Exception}
      → get call.name registry ≡ err e
      → (run_tool here run_id registry call call_id r).0 ≡ err e
  unfolding run_tool invoke_with_bridge_confirmation
  raised call call_id r g = rw (g, run_tool, invoke_with_bridge_confirmation) refl

  unanswered :
      (call : ToolCall) (call_id : String) (r : Run W) {e : Exception}
      → get call.name registry ≡ err e
      → (run_tool here run_id registry call call_id r).1.runtime ≡ r.runtime
  unfolding run_tool invoke_with_bridge_confirmation propose publish
  unanswered call call_id r g = rw (g, run_tool, invoke_with_bridge_confirmation) refl

  stops_at :
      (call : ToolCall) (call_id : String) (rest : List (ToolCall × String)) (r : Run W)
      {e : Exception}
      → here.stops ≡ none
      → get call.name registry ≡ err e
      → ((run_tools here run_id registry ((call, call_id) ∷ rest) r).0 ≡ err e)
        × ((run_tools here run_id registry ((call, call_id) ∷ rest) r).1.runtime ≡ r.runtime)
  unfolding run_tools is_set tested
  stops_at call call_id rest r free g =
      rw (free, run_tools, is_set)
        (rw (raised call call_id (tested r) g) (refl, unanswered call call_id (tested r) g))

  assigned_stops :
      (call : ToolCall) (rest : List ToolCall) (drawn : ℕ) (content : String) (r : Run W)
      {e : Exception}
      → here.stops ≡ none
      → get call.name registry ≡ err e
      → let (calls, after) = assign_ids here (call ∷ rest) drawn in
        let asked = remember (calling here content calls r) (record r { drawn = after }) in
        ((run_tools here run_id registry calls asked).0 ≡ err e)
        × ((run_tools here run_id registry calls asked).1.runtime ≡ asked.runtime)
  unfolding assign_ids
  assigned_stops call rest drawn content r free g = stops_at call _ _ _ free g

  shown_same :
      (content : String) (streamed : Bool) (r : Run W)
      → ((show_content run_id content streamed r).runtime ≡ r.runtime)
        × ((show_content run_id content streamed r).drawn ≡ r.drawn)
  unfolding show_content publish
  shown_same content streamed r =
      if_ind {A = Run W} (λ x. (x.runtime ≡ r.runtime) × (x.drawn ≡ r.drawn)) (str_eq content "")
        (λ _. (refl, refl))
        (λ _.
          if_ind {A = Run W} (λ x. (x.runtime ≡ r.runtime) × (x.drawn ≡ r.drawn)) streamed
            (λ _. (refl, refl)) (λ _. (refl, refl)))

  abbrev called : String → List (ToolCall × String) → String → Message
  called content calls now = record (spoken "assistant" content now) {
    tool_calls = arr (call_items here calls);
  }

  remembered :
      (content : String) (calls : List (ToolCall × String)) (drawn : ℕ) (shown r : Run W)
      → shown.runtime ≡ r.runtime
      → shown.drawn ≡ r.drawn
      → (remember
          (calling here content calls shown)
          (record shown { drawn = drawn })).runtime.messages
        ≡ r.runtime.messages ++ calling here content calls r ∷ []
  unfolding remember append emit persist_history calling
  remembered content calls drawn shown r same n =
      let m = calling here content calls shown in
      if_ind {A = Runtime} (λ x. x.messages ≡ shown.runtime.messages ++ m ∷ [])
        shown.runtime.writable (λ _. refl) (λ _. refl)
      ∙ ap (λ x. x.messages ++ m ∷ []) same
      ∙ ap (λ d. r.runtime.messages ++ called content calls (here.now d) ∷ []) n

  -- A reply whose first call names no registered tool raises out of the turn, unless an interrupt
  -- comes first: no tool message answers the calls of the assistant's message, which is the last
  -- message of the conversation, as the model sent it.
  pub unknown_tool_lem :
      (content : String) (call : ToolCall) (rest : List ToolCall) (streamed : Bool) (r : Run W)
      {e : Exception}
      → here.stops ≡ none
      → get call.name registry ≡ err e
      → ((use_reply here run_id registry
            (record { content = content; tool_calls = call ∷ rest })
            streamed
            r).0
          ≡ err e)
        × ((use_reply here run_id registry
              (record { content = content; tool_calls = call ∷ rest })
              streamed
              r).1.runtime.messages
            ≡ r.runtime.messages
              ++ calling here content (assign_ids here (call ∷ rest) r.drawn).0 r ∷ [])
  unfolding use_reply
  unknown_tool_lem content call rest streamed r free g =
      let shown = show_content run_id content streamed r in
      let (error, kept) = assigned_stops call rest shown.drawn content shown free g in
      let (same, drawn) = shown_same content streamed r in
      (
        error,
        ap (λ x. x.messages) kept
            ∙ remembered content (assign_ids here (call ∷ rest) shown.drawn).0
                (assign_ids here (call ∷ rest) shown.drawn).1 shown r same drawn
            ∙ ap
                (λ n.
                  r.runtime.messages
                  ++ calling here content (assign_ids here (call ∷ rest) n).0 r ∷ [])
                drawn,
      )
