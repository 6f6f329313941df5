-- ===== src/Bridge/Chat/Loop.antt =====
-- The turns of a chat run and its ends: `_chat_loop`, `_chat_worker`, `_start_chat_run` and
-- `_interrupt_run` of local_agent/bridge/api/handlers.py.
use ai_agent_ollama.Base.{
  ℕ, zero, suc, String, Bool, true, false, Option, none, some, [], ◌∷◌, str_eq, max, if◌then◌else◌,
  Result, ok, err, concat,
}
use ai_agent_ollama.Base.Dict.{Dict, lookup, insert, erase}
use ai_agent_ollama.Values.{int, str, pos, field, end}
use ai_agent_ollama.Errors.{Exception, assistant, message}
use ai_agent_ollama.Actions.{Context, Registry}
use ai_agent_ollama.Runtime.{Runtime}
use ai_agent_ollama.Bridge.EventBus.{
  chat_started, turn_started, assistant_delta, assistant_final, chat_done, chat_failed, Bus,
  create_run_queue, publish_all, end_run,
}
use ai_agent_ollama.Bridge.Sessions.{Sessions, runtime_for}
use ai_agent_ollama.Bridge.Invoke.{PendingConfirmation}
use ai_agent_ollama.Bridge.Chat.Model.{ModelReply, build_messages, friendly_llm_error}
use ai_agent_ollama.Bridge.Chat.Tools.{
  Surroundings, Run, interrupted, spoken, assign_ids, publish, remember, is_set, tested,
  emit_deltas, calling, run_tools,
}

module _ {W : Type 0} (run_id : String) where
  -- what a turn does with the text of the reply
  unfoldable pub show_content : String → Bool → Run W → Run W
  unfolding publish
  show_content content streamed r =
      if str_eq content ""
      then r
      else publish run_id assistant_final (field "text" (str content) end) (
          if streamed then r else publish run_id assistant_delta (field "text" (str content) end) r)

-- what follows a turn: the loop ends where the turn returned or raised
unfoldable pub after_turn :
    {W : Type 0}
    → (Run W → Result Exception Unit × Run W)
    → Result Exception Bool × Run W
    → Result Exception Unit × Run W
after_turn next (err e, r) = (err e, r)
after_turn next (ok true, r) = (ok tt, r)
after_turn next (ok false, r) = next r

module _ {W : Type 0} (here : Surroundings) (run_id : String) where
  unfoldable pub finish : String → Run W → Run W
  unfolding publish remember
  finish content r =
      publish run_id chat_done end (
        if str_eq content "" then r else remember (spoken "assistant" content (here.now r.drawn)) r)

  unfoldable pub use_reply : Registry W → ModelReply → Bool → Run W → Result Exception Bool × Run W
  unfolding show_content finish assign_ids calling remember run_tools
  use_reply registry reply streamed r =
      let shown = show_content run_id reply.content streamed r in
      elim reply.tool_calls [
        | [] ↦ (ok true, finish reply.content shown)
        | call ∷ rest ↦
            let (calls, drawn) = assign_ids here (call ∷ rest) shown.drawn in
            run_tools here run_id registry calls
              (remember (calling here reply.content calls shown) (record shown { drawn = drawn }))
      ]

  -- the reply, or what the client raised
  unfoldable pub heard :
      Registry W → Result Exception ModelReply → Bool → Run W → Result Exception Bool × Run W
  unfolding use_reply publish
  heard registry (err e) streamed r = (
    ok true,
    publish run_id chat_failed
        (field "error" (str (friendly_llm_error here.lower here.first_120 e)) end) r,
  )
  heard registry (ok reply) streamed r = use_reply registry reply streamed r

  -- one turn; true where it returned from the run
  unfoldable pub chat_turn : Registry W → ℕ → ℕ → Run W → Result Exception Bool × Run W
  unfolding publish tested is_set emit_deltas heard
  chat_turn registry max_turns turn r = elim (is_set here r) [
    | true ↦ (ok true, publish run_id chat_failed interrupted (tested r))
    | false ↦
        let begun =
          publish run_id turn_started
            (field "turn" (int (pos (suc turn))) (field "max_turns" (int (pos max_turns)) end))
            (tested r) in
        let (pieces, reply) =
          here.model turn (build_messages here.max_context_messages begun.runtime) in
        let (streamed, passed_on) = emit_deltas here run_id pieces false begun in
        heard registry reply streamed passed_on
  ]

  -- `for turn in range(max_turns)`, from `turn` on
  unfoldable pub chat_turns : Registry W → ℕ → ℕ → ℕ → Run W → Result Exception Unit × Run W
  unfolding chat_turn publish after_turn
  chat_turns registry max_turns zero turn r =
      (ok tt, publish run_id chat_failed (field "reason" (str "turn_cap") end) r)
  chat_turns registry max_turns (suc left) turn r =
      after_turn (chat_turns registry max_turns left (suc turn))
        (chat_turn registry max_turns turn r)

  -- `create_client`, then the turns
  unfoldable pub with_client :
      Registry W → Result Exception Unit → Run W → Result Exception Unit × Run W
  unfolding chat_turns
  with_client registry (err e) r = (err e, r)
  with_client registry (ok _) r =
      let max_turns = max 1 here.max_agent_turns in chat_turns registry max_turns max_turns 0 r

  unfoldable pub chat_loop : Registry W → String → Run W → Result Exception Unit × Run W
  unfolding publish remember with_client
  chat_loop registry user_message r = with_client registry here.client (
      remember (spoken "user" user_message (here.now r.drawn))
        (publish run_id chat_started (field "user_message" (str user_message) end) r))

  -- the `except` clause of `_chat_worker`
  unfoldable pub caught : Result Exception Unit × Run W → Run W
  unfolding publish
  caught (ok _, r) = r
  caught (err e, r) = publish run_id chat_failed (field "error" (str (message e)) end) r

  -- `_chat_worker` up to its `finally`
  unfoldable pub chat_run : Registry W → String → Run W → Run W
  unfolding chat_loop caught
  chat_run registry user_message r = caught (chat_loop registry user_message r)

-- What the handlers keep for all runs: `active_runs` says of each run that is under way whether its
-- stop event is set.
pub record Desk (W : Type 0) : Type 0 where
  pub context : Context W
  pub pending : Dict PendingConfirmation
  pub bus : Bus
  pub runtime : Runtime
  pub sessions : Sessions Runtime
  pub active_runs : Dict Bool
  pub run_threads : Dict String

module _ {W : Type 0} where
  -- `_start_chat_run` up to the start of the thread; `new_id` is the identifier that is drawn, and
  -- `new` the runtime of a session that is opened.
  unfoldable pub start_chat_run :
      String
      → ℕ
      → Runtime
      → String
      → Option String
      → Desk W
      → Result Exception (String × Runtime) × Desk W
  start_chat_run new_id now new user_message session_id desk =
      if str_eq user_message ""
      then (err (assistant "empty chat message"), desk)
      else let (runtime, sessions) = runtime_for session_id now desk.runtime new desk.sessions in
        (
          ok (new_id, runtime),
          record desk {
            sessions = sessions;
            bus = create_run_queue new_id desk.bus;
            active_runs = insert new_id false desk.active_runs;
            run_threads = insert new_id (concat ("bridge-chat-" ∷ new_id ∷ [])) desk.run_threads;
          },
        )

  unfoldable pub interrupt_run : String → Desk W → Desk W
  interrupt_run run_id desk = elim (lookup run_id desk.active_runs) [
    | none ↦ desk
    | some set ↦ record desk { active_runs = insert run_id true desk.active_runs }
  ]

  abbrev pub fresh_run : Runtime → Desk W → Run W
  fresh_run runtime desk = record {
    bridge = record { context = desk.context; pending = desk.pending; published = [] };
    runtime = runtime;
    tests = 0;
    drawn = 0;
  }

  -- `_chat_worker`: the run's runtime, and the desk after it
  unfoldable pub chat_worker :
      Surroundings → Registry W → String → String → Runtime → Desk W → Runtime × Desk W
  unfolding chat_run
  chat_worker here registry run_id user_message runtime desk =
      let after = chat_run here run_id registry user_message (fresh_run runtime desk) in
      (
        after.runtime,
        record desk {
          context = after.bridge.context;
          pending = after.bridge.pending;
          bus = end_run run_id (publish_all after.bridge.published desk.bus);
          active_runs = erase run_id desk.active_runs;
          run_threads = erase run_id desk.run_threads;
        },
      )
