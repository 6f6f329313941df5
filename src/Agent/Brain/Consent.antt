-- ===== src/Agent/Brain/Consent.antt =====
-- That a run without the user's approval does to the files only what needs none.
use ai_agent_ollama.Base.{
  ℕ, zero, suc, ◌+◌, String, ◌≡◌, refl, Bool, true, false, not, ◌&&◌, Option, none, some, str_eq,
  Result, ok, err,
}
use ai_agent_ollama.Base.Acting.{
  Act, ◌>>◌, give, raise, Keeps, bind-Keeps, rescue-Keeps, lifted-Keeps, if-Keeps,
}
use ai_agent_ollama.Values.{ℤ, Fields, end}
use ai_agent_ollama.Errors.{Exception}
use ai_agent_ollama.Storage.{Storage, Texts, add}
use ai_agent_ollama.Agent.{FilePath}
use ai_agent_ollama.Agent.Texts.{normalize_tool_args}
use ai_agent_ollama.Agent.Approval.{requires_approval}
use ai_agent_ollama.Agent.Disk.{Disk}
use ai_agent_ollama.Agent.Dispatch.{invoke}
use ai_agent_ollama.Agent.Approval.Judged.{IsWords, IsQuiet}
use ai_agent_ollama.Agent.Dispatch.Consent.{invoke-Keeps}
use ai_agent_ollama.Agent.Brain.{
  Agent, Memory, Work, Next, done, again, Run, Pending, ModelReply, ModelClient, is_tool_error, say,
  on_disk, stored, tell, note,
}
use ai_agent_ollama.Agent.Brain.Loop.{
  tool_failed, execute, propose_or_execute, with_arguments, decide, recall, one_turn, stopped,
  next_turn, turns, heard, resumed, run, nothing_yet,
}

only_approval : (b : Bool) → b && not false ≡ false → b ≡ false
only_approval true h = h
only_approval false h = refl

-- what holds of the files of a run
Kept : (Disk → Type 0) → Memory → Type 0
Kept P m = P m.disk

module _ (P : Disk → Type 0) where
  start-Kept : (m : Memory) → P m.disk → Kept P m
  unfolding Kept
  start-Kept m p = p

  on_disk-Keeps :
      {A : Type 0} (act : Act Disk Exception A) → Keeps P act → Keeps (Kept P) (on_disk act)
  unfolding Kept
  on_disk-Keeps act k m p = k m.disk p

  stored-Keeps : (r : Result Exception Storage) (m : Memory) → P m.disk → P (stored r m).1.disk
  stored-Keeps (ok s) m p = p
  stored-Keeps (err e) m p = p

  tell-Keeps : (chat_id : ℤ) (role content : String) → Keeps (Kept P) (tell chat_id role content)
  unfolding Kept
  tell-Keeps chat_id role content m p = stored-Keeps (add chat_id role content m.storage) m p

  -- a message, then something that keeps the files
  told-Keeps :
      {A : Type 0} (chat_id : ℤ) (role content : String) (next : Run A)
      → Keeps (Kept P) next
      → Keeps (Kept P) (tell chat_id role content >> next)
  told-Keeps chat_id role content next k =
      bind-Keeps (Kept P) (tell chat_id role content) (λ _. next) (tell-Keeps chat_id role content)
        (λ _. k)

  noted-Keeps :
      {A : Type 0} (texts : Texts) (chat_id : ℤ) (event detail : String) (next : Run A)
      → Keeps (Kept P) next
      → Keeps (Kept P) (note texts chat_id event detail >> next)
  unfolding Kept
  noted-Keeps texts chat_id event detail next k =
      bind-Keeps (Kept P) (note texts chat_id event detail) (λ _. next) (λ m p. p) (λ _. k)

  said-Keeps :
      {A : Type 0} (text : String) (next : Run A)
      → Keeps (Kept P) next
      → Keeps (Kept P) (say text >> next)
  unfolding Kept
  said-Keeps text next k = bind-Keeps (Kept P) (say text) (λ _. next) (λ m p. p) (λ _. k)

  ended-Keeps : {A : Type 0} (value : A) → Keeps (Kept P) (give {S = Memory} {E = Exception} value)
  ended-Keeps value m p = p

  raised-Keeps :
      (A : Type 0) (e : Exception) → Keeps (Kept P) (raise {S = Memory} {E = Exception} {A = A} e)
  raised-Keeps A e m p = p

module _ (agent : Agent) (chat_id : ℤ) (P : Disk → Type 0)
    (laws : IsWords agent.tools.workspace.words) (careful : agent.auto_approve_mutations ≡ false)
    (quiet : (command : String) (directory : FilePath) (disk : Disk)
      → IsQuiet agent.tools.workspace command
      → P disk
      → P (agent.tools.shell command directory disk).1) where
  tool_failed-Keeps :
      (tool : String) (work : Work) (e : Exception)
      → Keeps (Kept P) (tool_failed agent chat_id tool work e)
  unfolding tool_failed
  tool_failed-Keeps tool work e =
      if-Keeps (Kept P) (is_tool_error e) _ _
        (λ _. told-Keeps P chat_id _ _ _ (noted-Keeps P _ _ _ _ _ (λ m q. q)))
        (λ _. raised-Keeps P Next e)

  execute-Keeps :
      (p : Pending) (work : Work)
      → requires_approval agent.tools.workspace p.tool p.args ≡ false
      → Keeps (Kept P) (execute agent chat_id p work)
  unfolding execute
  execute-Keeps p work h = said-Keeps P _ _ (
      rescue-Keeps (Kept P) _ _
        (bind-Keeps (Kept P) _ _
          (on_disk-Keeps P (invoke agent.tools p.tool p.args)
            (invoke-Keeps agent.tools P quiet p.tool p.args laws h))
          (λ result. told-Keeps P chat_id _ _ _ (noted-Keeps P _ _ _ _ _ (λ m q. q))))
        (tool_failed-Keeps p.tool work))

  propose-Keeps :
      (p : Pending) (work : Work) → Keeps (Kept P) (propose_or_execute agent chat_id p work)
  unfolding propose_or_execute
  propose-Keeps p work =
      if-Keeps (Kept P)
        (requires_approval agent.tools.workspace p.tool p.args && not agent.auto_approve_mutations)
        _ _ (λ _. noted-Keeps P _ _ _ _ _ (λ m q. q))
        (λ h. execute-Keeps p work (only_approval _ (rw careful at h)))

  arguments-Keeps :
      (p : Pending) (work : Work) (r : Result Exception Fields)
      → Keeps (Kept P) (with_arguments agent chat_id p work r)
  unfolding with_arguments
  arguments-Keeps p work (ok args) = propose-Keeps (record p { args = args }) work
  arguments-Keeps p work (err e) = tool_failed-Keeps p.tool work e

  decide-Keeps :
      (reply : ModelReply) (work : Work) (p : Option Pending)
      → Keeps (Kept P) (decide agent chat_id reply work p)
  unfolding decide
  decide-Keeps reply work none = told-Keeps P chat_id _ _ _ (noted-Keeps P _ _ _ _ _ (λ m q. q))
  decide-Keeps reply work (some p) =
      arguments-Keeps p work (normalize_tool_args agent.tools.place.words p.args)

  recall-Keeps : Keeps (Kept P) (recall agent chat_id)
  unfolding recall Kept
  recall-Keeps m p = p

  one_turn-Keeps :
      (client : ModelClient) (system : String) (turn : ℕ) (work : Work)
      → Keeps (Kept P) (one_turn agent chat_id client system turn work)
  unfolding one_turn
  one_turn-Keeps client system turn work = bind-Keeps (Kept P) _ _ recall-Keeps λ entries.
      said-Keeps P _ _ (
        lifted-Keeps (Kept P) _ _ λ reply. lifted-Keeps (Kept P) _ _ λ p. decide-Keeps reply work p)

  stopped-Keeps : (work : Work) → Keeps (Kept P) (stopped agent chat_id work)
  unfolding stopped
  stopped-Keeps work = told-Keeps P chat_id _ _ _ (noted-Keeps P _ _ _ _ _ (λ m q. q))

  next-Keeps :
      (client : ModelClient) (system : String) (left turn : ℕ)
      → ((more : Work) → Keeps (Kept P) (turns agent chat_id client system left turn more))
      → (next : Next)
      → Keeps (Kept P) (next_turn (turns agent chat_id client system left turn) next)
  unfolding next_turn
  next-Keeps client system left turn k (done answer) m p = p
  next-Keeps client system left turn k (again more) m p = k more m p

  turns-Keeps :
      (client : ModelClient) (system : String) (left turn : ℕ) (work : Work)
      → Keeps (Kept P) (turns agent chat_id client system left turn work)
  unfolding turns
  turns-Keeps client system zero turn work = stopped-Keeps work
  turns-Keeps client system (suc left) turn work =
      bind-Keeps (Kept P) _ _ (one_turn-Keeps client system turn work)
        (next-Keeps client system left (turn + 1) (turns-Keeps client system left (turn + 1)))

  heard-Keeps : (text : String) → Keeps (Kept P) (heard agent chat_id text)
  unfolding heard
  heard-Keeps text =
      if-Keeps (Kept P) (str_eq text "") _ _ (λ _. ended-Keeps P tt)
        (λ _. told-Keeps P chat_id _ _ _ (noted-Keeps P _ _ _ _ _ (λ m q. q)))

  resumed-Keeps : (work : Work) → Keeps (Kept P) (resumed agent chat_id end work)
  unfolding resumed
  resumed-Keeps work m p = p

  -- Without an approved step and without automatic approval, a run keeps every property of the files
  -- that the shell keeps on the commands that `is_read_only` accepts and that no guard stops.
  pub run_unapproved :
      (user_text : String) (m : Memory) → P m.disk → P (run agent chat_id user_text end m).1.disk
  unfolding run Kept
  run_unapproved user_text m p =
      lifted-Keeps (Kept P) _ _
        (λ client. bind-Keeps (Kept P) _ _ (heard-Keeps user_text) λ _.
          bind-Keeps (Kept P) _ _ (resumed-Keeps nothing_yet) λ work. turns-Keeps client _ _ _ work)
        m p
