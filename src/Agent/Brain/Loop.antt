-- ===== src/Agent/Brain/Loop.antt =====
-- `run` of agent/brain.py: an approved step, then at most `max_agent_turns` turns.
use ai_agent_ollama.Base.{
  ℕ, zero, suc, ◌+◌, ◌==◌, String, false, not, ◌&&◌, ◌||◌, Option, none, some, List, [], ◌∷◌,
  str_eq, if◌then◌else◌, text_or, concat, Result, ok, err,
}
use ai_agent_ollama.Base.Dict.{lookup}
use ai_agent_ollama.Base.Acting.{◌>>=◌, ◌>>◌, give, raise, lift, rescue}
use ai_agent_ollama.Values.{ℤ, Value, Fields, str, end, fields, get_or}
use ai_agent_ollama.Errors.{Exception, other, message}
use ai_agent_ollama.Storage.{Entry, history, preference}
use ai_agent_ollama.Agent.{result_of}
use ai_agent_ollama.Agent.Texts.{normalize_tool_args}
use ai_agent_ollama.Agent.Approval.{requires_approval}
use ai_agent_ollama.Agent.Dispatch.{invoke}
use ai_agent_ollama.Agent.Brain.{
  Agent, Work, Answer, answered, proposed, Next, done, again, Run, Pending, ModelReply, ModelClient,
  is_class, is_tool_error, is_type_error, say, on_disk, tell, note, record_tool_result, failed_text,
  pending_from_reply, outcome, after_tool,
}

abbrev pub nothing_yet : Work
nothing_yet = record { result = none; artifacts = []; terminal_outputs = [] }

-- a turn ends the run, or the loop goes on
unfoldable pub next_turn : (Work → Run Answer) → Next → Run Answer
next_turn more (done answer) = give answer
next_turn more (again work) = more work

module _ (agent : Agent) (chat_id : ℤ) where
  -- `resume[key]`
  abbrev required : String → Fields → Result Exception Value
  required key resume = elim (lookup key (fields resume)) [
    | none ↦ err (other "KeyError" key)
    | some v ↦ ok v
  ]

  abbrev text_of : Value → String
  text_of v = agent.texts.render v

  -- the step that the user approved
  unfoldable pub approved_step : Fields → Work → Run Work
  unfolding invoke after_tool
  approved_step resume work = do
    say "running the approved step…"
    tool ← lift (required "tool" resume)
    given ← lift (required "args" resume)
    args ← lift (agent.as_dict given)
    result ← on_disk (invoke agent.tools (text_of tool) args)
    record_tool_result chat_id (text_of tool) result.text
    note agent.texts chat_id "action_executed" (concat (text_of tool ∷ ": done" ∷ []))
    say "the approved step was run; checking the result…"
    give (after_tool result work)

  -- its `except (ToolError, KeyError, TypeError)`
  unfoldable pub approved_failed : Fields → Work → Exception → Run Work
  approved_failed resume work e =
      if is_tool_error e || is_class "KeyError" e || is_type_error e
      then (do
        record_tool_result chat_id (text_of (get_or resume "tool" (str "unknown"))) (failed_text e)
        note agent.texts chat_id "action_failed" (message e)
        give (record work { result = some (result_of (failed_text e) false) }))
      else raise e

  -- `if resume:`
  unfoldable pub resumed : Fields → Work → Run Work
  unfolding approved_step approved_failed
  resumed end work = give work
  resumed resume work = rescue (approved_step resume work) (approved_failed resume work)

  -- a tool that raised a `ToolError`: the model is told
  unfoldable pub tool_failed : String → Work → Exception → Run Next
  tool_failed tool work e =
      if is_tool_error e
      then (do
        record_tool_result chat_id tool (failed_text e)
        note agent.texts chat_id "tool_failed" (concat (tool ∷ ": " ∷ message e ∷ []))
        give (again work))
      else raise e

  unfoldable pub execute : Pending → Work → Run Next
  unfolding invoke after_tool tool_failed
  execute p work = do
    say (concat ("running the tool: " ∷ p.tool ∷ []))
    rescue
        (do
          result ← on_disk (invoke agent.tools p.tool p.args)
          record_tool_result chat_id p.tool result.text
          note agent.texts chat_id "tool_executed" (concat (p.tool ∷ ": done" ∷ []))
          give (again (after_tool result work)))
        (tool_failed p.tool work)

  -- what becomes of a call whose arguments are in order
  unfoldable pub propose_or_execute : Pending → Work → Run Next
  unfolding requires_approval execute
  propose_or_execute p work =
      if requires_approval agent.tools.workspace p.tool p.args && not agent.auto_approve_mutations
      then (do
        note agent.texts chat_id "action_proposed" (concat (p.tool ∷ ": waits for approval" ∷ []))
        give (done (proposed p (outcome work))))
      else execute p work

  unfoldable pub with_arguments : Pending → Work → Result Exception Fields → Run Next
  unfolding tool_failed propose_or_execute
  with_arguments p work (err e) = tool_failed p.tool work e
  with_arguments p work (ok args) = propose_or_execute (record p { args = args }) work

  abbrev no_text : String
  no_text = "the model returned neither a text nor a tool; please say it again."

  unfoldable pub decide : ModelReply → Work → Option Pending → Run Next
  unfolding with_arguments
  decide reply work none =
      let final = text_or (agent.tools.place.words.strip reply.content) no_text in
      do
        tell chat_id "assistant" final
        note agent.texts chat_id "agent_report" (agent.texts.first_1000 final)
        give (done (answered final (outcome work)))
  decide reply work (some p) =
      with_arguments p work (normalize_tool_args agent.tools.place.words p.args)

  -- `self.storage.history(chat_id)`
  unfoldable pub recall : Run (List Entry)
  unfolding history
  recall m =
      let (entries, storage) = history agent.texts chat_id 36 55000 m.storage in
      (ok entries, record m { storage = storage })

  -- the body of the loop
  unfoldable pub one_turn : ModelClient → String → ℕ → Work → Run Next
  unfolding recall pending_from_reply decide
  one_turn client system turn work = do
    entries ← recall
    say (if turn == 0 then "analysing and planning…" else "validating the next step…")
    reply ← lift (client.complete turn (record { role = "system"; content = system } ∷ entries))
    p ← lift (pending_from_reply agent reply)
    decide reply work p

  -- the end of `run`, after the last turn
  unfoldable pub stopped : Work → Run Answer
  stopped work =
      let final = concat (
        "stopped after "
        ∷ agent.tools.number agent.max_agent_turns
        ∷ " steps to avoid a loop; look at what was recorded, or ask me to go on."
        ∷ []) in
      do
        tell chat_id "assistant" final
        note agent.texts chat_id "turn_limit" final
        give (answered final (outcome work))

  -- the loop, with `left` turns to go
  unfoldable pub turns : ModelClient → String → (left turn : ℕ) → Work → Run Answer
  unfolding one_turn stopped next_turn
  turns client system zero turn work = stopped work
  turns client system (suc left) turn work =
      one_turn client system turn work >>= next_turn (turns client system left (turn + 1))

  unfoldable pub heard : String → Run Unit
  heard user_text = if str_eq user_text "" then give tt else (do
    tell chat_id "user" user_text
    note agent.texts chat_id "task_received" (agent.texts.first_1000 user_text)
    give tt)

  -- An empty `user_text` stands for `None` too.
  unfoldable pub run : (user_text : String) (resume : Fields) → Run Answer
  unfolding preference heard resumed turns
  run user_text resume m =
      let (provider, selected) = preference chat_id agent.default_provider m.storage in
      (do
        client ← lift (agent.client_for chat_id provider selected)
        heard user_text
        work ← resumed resume nothing_yet
        turns client (agent.system provider client.model) agent.max_agent_turns 0 work)
        m
