-- ===== src/Agent/Brain/Turns.antt =====
-- How the turns of a run end: with an answer that is kept, with a proposal that needs an approval, or
-- by an exception that no tool raised.
use ai_agent_ollama.Base.{
  ℕ, zero, suc, ◌+◌, String, ◌≡◌, refl, Bool, true, false, not, ◌&&◌, Option, none, some, List, [],
  ◌∷◌, ◌++◌, concat, if_ind, Result, ok, err, arith,
}
use mathlib.Core.Path.{subst}
use ai_agent_ollama.Base.Acting.{◌>>=◌, ◌>>◌, give, lift, continue, handled, rescue}
use ai_agent_ollama.Values.{ℤ, Value, Fields}
use ai_agent_ollama.Errors.{Exception, other}
use ai_agent_ollama.Storage.{Storage, Entry, Row, add, audit}
use ai_agent_ollama.Storage.History.{messages-thread}
use ai_agent_ollama.Agent.{ToolResult}
use ai_agent_ollama.Agent.Texts.{normalize_tool_args}
use ai_agent_ollama.Agent.Approval.{requires_approval}
use ai_agent_ollama.Agent.Dispatch.{invoke}
use ai_agent_ollama.Agent.Brain.{
  Agent, Memory, Work, Answer, answered, proposed, Next, done, again, Run, Pending, ModelReply,
  ModelClient, is_tool_error, on_disk, tell, note, record_tool_result, tool_call_of,
  tool_call_from_text, pending_from_reply, after_tool,
}
use ai_agent_ollama.Agent.Brain.Loop.{
  tool_failed, execute, propose_or_execute, with_arguments, decide, recall, one_turn, stopped,
  next_turn, turns,
}

-- the last message of the tables is this answer
abbrev pub IsLast : ℤ → String → Storage → Type 0
IsLast chat_id text s =
    (rows : List Row) × (n : ℕ) × (s.messages
      ≡ rows ++ record { chat_id = chat_id; thread = n; role = "assistant"; content = text } ∷ [])

abbrev pub IsOurs : Exception → Type 0
IsOurs e = is_tool_error e ≡ false

module _ (agent : Agent) (chat_id : ℤ) where
  abbrev pub Ends : Result Exception Answer × Memory → Type 0
  Ends (ok (answered text result), m) = IsLast chat_id text m.storage
  Ends (ok (proposed p result), m) =
      (requires_approval agent.tools.workspace p.tool p.args ≡ true)
      × (agent.auto_approve_mutations ≡ false)
  Ends (err e, m) = IsOurs e

  abbrev Turns : Result Exception Next × Memory → Type 0
  Turns (ok (done answer), m) = Ends (ok answer, m)
  Turns (ok (again work), m) = Unit
  Turns (err e, m) = IsOurs e

  abbrev pub Fine : {A : Type 0} → Result Exception A × Memory → Type 0
  Fine (ok value, m) = Unit
  Fine (err e, m) = IsOurs e

  audit-messages :
      (event detail : String) (s : Storage)
      → (audit agent.texts chat_id event detail s).messages ≡ s.messages
  unfolding audit
  audit-messages event detail s = messages-thread chat_id s

  -- an answer that is kept, then noted
  kept_answer :
      (text event detail : String) (result : Option ToolResult) (m : Memory)
      → Ends (
          (do
            tell chat_id "assistant" text
            note agent.texts chat_id event detail
            give (answered text result))
            m)
  unfolding ◌>>=◌ add
  kept_answer text event detail result m = (_, _, audit-messages event detail _)

  stopped-Ends : (work : Work) (m : Memory) → Ends (stopped agent chat_id work m)
  unfolding stopped
  stopped-Ends work m = kept_answer _ "turn_limit" _ _ m

  kept_report :
      (text event detail : String) (result : Option ToolResult) (m : Memory)
      → Turns (
          (do
            tell chat_id "assistant" text
            note agent.texts chat_id event detail
            give (done (answered text result)))
            m)
  unfolding ◌>>=◌ add
  kept_report text event detail result m = (_, _, audit-messages event detail _)

  tool_failed_ends :
      (tool : String) (work : Work) (e : Exception) (m : Memory)
      → Turns (tool_failed agent chat_id tool work e m)
  unfolding tool_failed ◌>>=◌ add
  tool_failed_ends tool work e m =
      if_ind {A = Run Next} (λ act. Turns (act m)) (is_tool_error e) (λ _. tt) (λ h. h)

  -- what becomes of the end of a tool
  tool_ends :
      (p : Pending) (work : Work) (r : Result Exception ToolResult × Memory)
      → Turns (
          handled
            (continue r (λ result. do
              record_tool_result chat_id p.tool result.text
              note agent.texts chat_id "tool_executed" (concat (p.tool ∷ ": done" ∷ []))
              give (again (after_tool result work))))
            (tool_failed agent chat_id p.tool work))
  unfolding ◌>>=◌ add
  tool_ends p work (ok result, m) = tt
  tool_ends p work (err e, m) = tool_failed_ends p.tool work e m

  execute_ends : (p : Pending) (work : Work) (m : Memory) → Turns (execute agent chat_id p work m)
  unfolding execute ◌>>=◌ rescue
  execute_ends p work m = tool_ends p work (
      on_disk (invoke agent.tools p.tool p.args)
        (record m { said = m.said ++ concat ("running the tool: " ∷ p.tool ∷ []) ∷ [] }))

  both : (a b : Bool) → a && not b ≡ true → (a ≡ true) × (b ≡ false)
  both true true h = absurd (cc h)
  both true false h = (refl, refl)
  both false b h = absurd (cc h)

  propose_ends :
      (p : Pending) (work : Work) (m : Memory) → Turns (propose_or_execute agent chat_id p work m)
  unfolding propose_or_execute ◌>>=◌
  propose_ends p work m =
      if_ind {A = Run Next} (λ act. Turns (act m))
        (requires_approval agent.tools.workspace p.tool p.args && not agent.auto_approve_mutations)
        (λ h. both _ _ h) (λ _. execute_ends p work m)

  arguments_end :
      (p : Pending) (work : Work) (r : Result Exception Fields) (m : Memory)
      → Turns (with_arguments agent chat_id p work r m)
  unfolding with_arguments
  arguments_end p work (ok args) m = propose_ends (record p { args = args }) work m
  arguments_end p work (err e) m = tool_failed_ends p.tool work e m

  decide_ends :
      (reply : ModelReply) (work : Work) (p : Option Pending) (m : Memory)
      → Turns (decide agent chat_id reply work p m)
  unfolding decide
  decide_ends reply work none m = kept_report _ "agent_report" _ _ m
  decide_ends reply work (some p) m =
      arguments_end p work (normalize_tool_args agent.tools.place.words p.args) m

  -- a step that only reads, if its exceptions are not a tool's
  lifted_ends :
      {A : Type 0} (r : Result Exception A) (next : A → Run Next) (m : Memory)
      → ((e : Exception) → r ≡ err e → IsOurs e)
      → ((value : A) → Turns (next value m))
      → Turns ((lift r >>= next) m)
  unfolding ◌>>=◌
  lifted_ends (ok value) next m h k = k value
  lifted_ends (err e) next m h k = h e refl

  -- the one exception of the reading of a text
  tool_call_raises :
      (v : Value) (e : Exception) → tool_call_of v ≡ err e → other "KeyError" "'args'" ≡ e
  unfolding tool_call_of
  tool_call_raises v e h = ground arith

  tool_call_fine : (v : Value) (e : Exception) → tool_call_of v ≡ err e → IsOurs e
  tool_call_fine v e h = subst IsOurs (tool_call_raises v e h) refl

  pending_fine :
      (reply : ModelReply) (e : Exception) → pending_from_reply agent reply ≡ err e → IsOurs e
  unfolding pending_from_reply tool_call_from_text
  pending_fine reply e h = grind (arith, tool_call_fine)

  module _ (client : ModelClient)
      (replies : (turn : ℕ) (messages : List Entry) (e : Exception)
        → client.complete turn messages ≡ err e
        → IsOurs e) where
    one_turn_ends :
        (system : String) (turn : ℕ) (work : Work) (m : Memory)
        → Turns (one_turn agent chat_id client system turn work m)
    unfolding one_turn ◌>>=◌ recall
    one_turn_ends system turn work m =
        lifted_ends _ _ _ (replies turn _)
          λ reply. lifted_ends _ _ _ (pending_fine reply) λ p. decide_ends reply work p _

    next-Ends :
        (r : Result Exception Next × Memory) (more : Work → Run Answer)
        → Turns r
        → ((work : Work) (m : Memory) → Ends (more work m))
        → Ends (continue r (next_turn more))
    unfolding next_turn
    next-Ends (ok (done (answered text result)), m) more h k = h
    next-Ends (ok (done (proposed p result)), m) more h k = h
    next-Ends (ok (again work), m) more h k = k work m
    next-Ends (err e, m) more h k = h

    pub turns_end :
        (system : String) (left turn : ℕ) (work : Work) (m : Memory)
        → Ends (turns agent chat_id client system left turn work m)
    unfolding turns ◌>>=◌
    turns_end system zero turn work m = stopped-Ends work m
    turns_end system (suc left) turn work m =
        next-Ends (one_turn agent chat_id client system turn work m) _
          (one_turn_ends system turn work m) (turns_end system left (turn + 1))
