-- ===== src/Bridge/Chat/Ends.antt =====
-- That a chat run ends with exactly one event that says so.
use ai_agent_ollama.Base.{
  ℕ, zero, suc, String, refl, inl, inr, Bool, true, false, List, [], ◌∷◌, str_eq, if_ind,
  if◌then◌else◌, max, Result, ok, err, Bool-cases, Result-cases,
}
use ai_agent_ollama.Values.{str, field, end}
use ai_agent_ollama.Errors.{Exception, message}
use ai_agent_ollama.Actions.{Registry}
use ai_agent_ollama.Bridge.EventBus.{
  turn_started, assistant_final, chat_started, chat_done, chat_failed, assistant_delta,
}
use ai_agent_ollama.Bridge.Chat.Model.{ToolCall, ModelReply}
use ai_agent_ollama.Bridge.Chat.Tools.{
  Surroundings, Run, interrupted, spoken, remember, tested, publish, is_set, calling, run_tool,
  run_tools, assign_ids,
}
use ai_agent_ollama.Bridge.Chat.Loop.{
  show_content, finish, use_reply, heard, after_turn, chat_turn, chat_turns, with_client, caught,
  chat_loop, chat_run,
}
use ai_agent_ollama.Bridge.Chat.Quiet.{
  IsEnded, QuietRun, Left, tested-Quiet, publish-Quiet, publish-IsEnded, emit-Quiet, run_tool-Quiet,
}

module _ {W : Type 0} (here : Surroundings) (run_id : String) where
  run_tools-Left :
      (registry : Registry W) (calls : List (ToolCall × String)) (r : Run W)
      → QuietRun r
      → Left run_id (run_tools here run_id registry calls r)
  unfolding run_tools
  run_tools-Left registry [] r h = h
  run_tools-Left registry ((call, call_id) ∷ rest) r h = elim (Bool-cases (is_set here r)) [
    | inl s ↦
        rw (s, run_tools)
          (publish-IsEnded run_id chat_failed interrupted (tested r) refl (tested-Quiet r h))
    | inr n ↦
        let done = run_tool here run_id registry call call_id (tested r) in
        let quiet =
          run_tool-Quiet here run_id registry call call_id (tested r) (tested-Quiet r h) in
        elim (Result-cases done.0) [
          | inr (e, g) ↦ rw (n, run_tools) (rw g quiet)
          | inl (u, g) ↦ rw (n, run_tools) (rw g (run_tools-Left registry rest done.1 quiet))
        ]
  ]

  show-Quiet :
      (content : String) (streamed : Bool) (r : Run W)
      → QuietRun r
      → QuietRun (show_content run_id content streamed r)
  unfolding show_content
  show-Quiet content streamed r h =
      if_ind {A = Run W} (λ x. QuietRun x) (str_eq content "") (λ _. h)
        (λ _.
          publish-Quiet run_id assistant_final (field "text" (str content) end)
            (if streamed
              then r
              else publish run_id assistant_delta (field "text" (str content) end) r)
            refl
            (if_ind {A = Run W} (λ x. QuietRun x) streamed (λ _. h)
              (λ _.
                publish-Quiet run_id assistant_delta (field "text" (str content) end) r refl h)))

  finish-IsEnded :
      (content : String) (r : Run W)
      → QuietRun r
      → IsEnded run_id (finish here run_id content r).bridge.published
  unfolding finish remember
  finish-IsEnded content r h =
      publish-IsEnded run_id chat_done end
        (if str_eq content ""
          then r
          else remember (spoken "assistant" content (here.now r.drawn)) r)
        refl (if_ind {A = Run W} (λ x. QuietRun x) (str_eq content "") (λ _. h) (λ _. h))

  assigned-Left :
      (registry : Registry W) (content : String) (r : Run W) (h : QuietRun r)
      (assigned : List (ToolCall × String) × ℕ)
      → Left run_id (
          run_tools here run_id registry assigned.0
            (remember (calling here content assigned.0 r) (record r { drawn = assigned.1 })))
  unfolding remember
  assigned-Left registry content r h assigned = run_tools-Left registry assigned.0 _ h

  use_reply-Left :
      (registry : Registry W) (content : String) (calls : List ToolCall) (streamed : Bool)
      (r : Run W)
      → QuietRun r
      → Left run_id (
          use_reply here run_id registry
            (record { content = content; tool_calls = calls })
            streamed
            r)
  unfolding use_reply
  use_reply-Left registry content [] streamed r h =
      finish-IsEnded content (show_content run_id content streamed r)
        (show-Quiet content streamed r h)
  use_reply-Left registry content (call ∷ rest) streamed r h =
      assigned-Left registry content (show_content run_id content streamed r)
        (show-Quiet content streamed r h) (assign_ids here (call ∷ rest) _)

  heard-Left :
      (registry : Registry W) (reply : Result Exception ModelReply) (streamed : Bool) (r : Run W)
      → QuietRun r
      → Left run_id (heard here run_id registry reply streamed r)
  unfolding heard
  heard-Left registry (err e) streamed r h = publish-IsEnded run_id chat_failed _ r refl h
  heard-Left registry (ok reply) streamed r h =
      use_reply-Left registry reply.content reply.tool_calls streamed r h

  chat_turn-Left :
      (registry : Registry W) (max_turns turn : ℕ) (r : Run W)
      → QuietRun r
      → Left run_id (chat_turn here run_id registry max_turns turn r)
  unfolding chat_turn
  chat_turn-Left registry max_turns turn r h = elim (Bool-cases (is_set here r)) [
    | inl s ↦
        rw (s, chat_turn)
          (publish-IsEnded run_id chat_failed interrupted (tested r) refl (tested-Quiet r h))
    | inr n ↦
        rw (n, chat_turn)
          (heard-Left registry _ _ _ (
            emit-Quiet here run_id _ false _
              (publish-Quiet run_id turn_started _ (tested r) refl (tested-Quiet r h))))
  ]

  -- how the loop over the turns leaves the run
  abbrev LoopLeft : Result Exception Unit × Run W → Type 0
  LoopLeft (ok _, r) = IsEnded run_id r.bridge.published
  LoopLeft (err e, r) = QuietRun r

  turned :
      (q : Result Exception Bool × Run W) (next : Run W → Result Exception Unit × Run W)
      → Left run_id q
      → ((r : Run W) → QuietRun r → LoopLeft (next r))
      → LoopLeft (after_turn next q)
  unfolding after_turn
  turned (err e, r) next l step = l
  turned (ok true, r) next l step = l
  turned (ok false, r) next l step = step r l

  chat_turns-Left :
      (registry : Registry W) (max_turns left turn : ℕ) (r : Run W)
      → QuietRun r
      → LoopLeft (chat_turns here run_id registry max_turns left turn r)
  unfolding chat_turns
  chat_turns-Left registry max_turns zero turn r h =
      publish-IsEnded run_id chat_failed (field "reason" (str "turn_cap") end) r refl h
  chat_turns-Left registry max_turns (suc left) turn r h =
      turned (chat_turn here run_id registry max_turns turn r) _
        (chat_turn-Left registry max_turns turn r h)
        (chat_turns-Left registry max_turns left (suc turn))

  with_client-Left :
      (registry : Registry W) (client : Result Exception Unit) (r : Run W)
      → QuietRun r
      → LoopLeft (with_client here run_id registry client r)
  unfolding with_client
  with_client-Left registry (err e) r h = h
  with_client-Left registry (ok u) r h =
      chat_turns-Left registry (max 1 here.max_agent_turns) (max 1 here.max_agent_turns) 0 r h

  caught-IsEnded :
      (q : Result Exception Unit × Run W)
      → LoopLeft q
      → IsEnded run_id (caught here run_id q).bridge.published
  unfolding caught
  caught-IsEnded (ok u, r) l = l
  caught-IsEnded (err e, r) l =
      publish-IsEnded run_id chat_failed (field "error" (str (message e)) end) r refl l

  pub chat_run-IsEnded :
      (registry : Registry W) (user_message : String) (r : Run W)
      → QuietRun r
      → IsEnded run_id (chat_run here run_id registry user_message r).bridge.published
  unfolding chat_run chat_loop remember
  chat_run-IsEnded registry user_message r h =
      let begun = publish run_id chat_started (field "user_message" (str user_message) end) r in
      caught-IsEnded (chat_loop here run_id registry user_message r) (
        with_client-Left registry here.client
          (remember (spoken "user" user_message (here.now r.drawn)) begun)
          (publish-Quiet run_id chat_started _ r refl h))
