-- ===== src/Agent/Brain/Ends.antt =====
-- How a run of the agent ends.
use ai_agent_ollama.Base.{
  ℕ, String, ◌≡◌, refl, Bool, true, false, ◌||◌, List, str_eq, if_ind, Result, ok, err,
}
use ai_agent_ollama.Base.Acting.{◌>>=◌, ◌>>◌, lift, continue, handled, rescue}
use ai_agent_ollama.Values.{ℤ, Fields, end, field}
use ai_agent_ollama.Errors.{Exception}
use ai_agent_ollama.Storage.{Entry, add, preference}
use ai_agent_ollama.Agent.Brain.{
  Agent, Memory, Work, Answer, Run, ModelClient, is_tool_error, is_type_error, is_class,
}
use ai_agent_ollama.Agent.Brain.Loop.{
  turns, heard, approved_step, approved_failed, resumed, run, nothing_yet,
}
use ai_agent_ollama.Agent.Brain.Turns.{Ends, IsOurs, Fine, turns_end}

module _ (agent : Agent) (chat_id : ℤ) where
  heard_fine : (text : String) (m : Memory) → (heard agent chat_id text m).0 ≡ ok tt
  unfolding heard ◌>>=◌ add
  heard_fine text m =
      if_ind {A = Run Unit} (λ act. (act m).0 ≡ ok tt) (str_eq text "") (λ _. refl) (λ _. refl)

  first_false : (a b c : Bool) → a || b || c ≡ false → a ≡ false
  first_false true b c h = h
  first_false false b c h = refl

  approved_failed-Fine :
      (resume : Fields) (work : Work) (e : Exception) (m : Memory)
      → Fine agent chat_id (approved_failed agent chat_id resume work e m)
  unfolding approved_failed ◌>>=◌ add
  approved_failed-Fine resume work e m =
      if_ind {A = Run Work} (λ act. Fine agent chat_id (act m))
        (is_tool_error e || is_class "KeyError" e || is_type_error e) (λ _. tt)
        (λ h. first_false _ _ _ h)

  handled-Fine :
      {A : Type 0} (r : Result Exception A × Memory) (handler : Exception → Run A)
      → ((e : Exception) (m : Memory) → Fine agent chat_id (handler e m))
      → Fine agent chat_id (handled r handler)
  handled-Fine (ok value, m) handler k = tt
  handled-Fine (err e, m) handler k = k e m

  resumed-Fine :
      (resume : Fields) (work : Work) (m : Memory)
      → Fine agent chat_id (resumed agent chat_id resume work m)
  unfolding resumed rescue
  resumed-Fine end work m = tt
  resumed-Fine (field k v rest) work m =
      handled-Fine (approved_step agent chat_id (field k v rest) work m) _
        (approved_failed-Fine (field k v rest) work)

  after-Fine :
      {A : Type 0} (r : Result Exception A × Memory) (next : A → Run Answer)
      → Fine agent chat_id r
      → ((value : A) (m : Memory) → Ends agent chat_id (next value m))
      → Ends agent chat_id (continue r next)
  after-Fine (ok value, m) next h k = k value m
  after-Fine (err e, m) next h k = h

  -- the rest of a run, once a provider is asked for its client
  served :
      (r : Result Exception ModelClient)
      → ((e : Exception) → r ≡ err e → IsOurs e)
      → ((client : ModelClient)
          → r ≡ ok client
          → (turn : ℕ) (messages : List Entry) (e : Exception)
          → client.complete turn messages ≡ err e
          → IsOurs e)
      → (provider user_text : String) (resume : Fields) (m : Memory)
      → Ends agent chat_id (
          (do
            client ← lift r
            heard agent chat_id user_text
            work ← resumed agent chat_id resume nothing_yet
            turns agent chat_id client
                (agent.system provider client.model)
                agent.max_agent_turns
                0
                work)
            m)
  unfolding ◌>>=◌
  served (err e) clients replies provider user_text resume m = clients e refl
  served (ok client) clients replies provider user_text resume m =
      after-Fine (heard agent chat_id user_text m) _ (rw (heard_fine user_text m) tt) λ _ known.
        after-Fine (resumed agent chat_id resume nothing_yet known) _
          (resumed-Fine resume nothing_yet known)
          (λ work ready.
            turns_end agent chat_id client (replies client refl) _ agent.max_agent_turns 0 work
              ready)

  -- With providers that raise no `ToolError`, a run that answers keeps its answer as the last message
  -- of the chat, one that stops with a proposal does so for an action that needs an approval while
  -- mutations are not approved by themselves, and no `ToolError` leaves a run.
  pub run-Ends :
      ((provider model : String) (e : Exception)
        → agent.client_for chat_id provider model ≡ err e
        → IsOurs e)
      → ((provider model : String) (client : ModelClient)
          → agent.client_for chat_id provider model ≡ ok client
          → (turn : ℕ) (messages : List Entry) (e : Exception)
          → client.complete turn messages ≡ err e
          → IsOurs e)
      → (user_text : String) (resume : Fields) (m : Memory)
      → Ends agent chat_id (run agent chat_id user_text resume m)
  unfolding run
  run-Ends clients replies user_text resume m =
      let (provider, model) = preference chat_id agent.default_provider m.storage in
      served (agent.client_for chat_id provider model) (clients provider model)
        (λ client. replies provider model client) provider user_text resume m
