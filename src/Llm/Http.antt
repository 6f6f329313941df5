-- ===== src/Llm/Http.antt =====
-- The requests of local_agent/llm/client.py and the rules by which they are repeated.
pub mod Retry
use ai_agent_ollama.Base.{
  ℕ, zero, suc, ◌==◌, leb, String, Bool, true, false, ◌||◌, ◌&&◌, Option, none, some, or_else, List,
  [], ◌∷◌, any, if◌then◌else◌, Result, ok, err,
}
use ai_agent_ollama.Values.{Value}
use ai_agent_ollama.Errors.{Exception}

-- What a request comes to: it times out, it fails with another exception of `requests`, or there is
-- a response, whose body is none where it is no JSON.
pub data Sent : Type 0 where
  timed_out : Sent
  broken : Exception → Sent
  response : (status : ℕ) → (body : Option Value) → Sent

-- What leaves a client: `LLMTimeout`, `LLMRateLimit` with the status, `HTTPError` with the status,
-- the exception of `requests`, that of `response.json()`, and the `RuntimeError` for want of one.
pub data LlmError : Type 0 where
  timeout : LlmError
  rate_limit : ℕ → LlmError
  http_error : ℕ → LlmError
  request_error : Exception → LlmError
  not_json : LlmError
  no_exception : LlmError

-- `_TRANSIENT_STATUS`
abbrev pub transient_status : List ℕ
transient_status = 408 ∷ 425 ∷ 429 ∷ 500 ∷ 502 ∷ 503 ∷ 504 ∷ []

unfoldable pub is_transient_status : ℕ → Bool
is_transient_status status = any (λ s. status == s) transient_status

-- `status in {400, 422}`
unfoldable pub rejects_tools : ℕ → Bool
rejects_tools status = status == 400 || status == 422

-- What a round of a loop over the attempts does: it returns or raises, or it goes on.
pub data Round : Type 0 where
  returns : Value → Round
  raises : LlmError → Round
  again : Option LlmError → Round

-- `if attempt >= retries: raise`
abbrev pub unless_last : Bool → LlmError → Option LlmError → Round
unless_last true e last_exc = raises e
unless_last false e last_exc = again last_exc

-- a round of `_post_with_retry`; `last` says that `attempt >= retries`, and `last_exc` is the
-- variable of that name
unfoldable pub post_round : Bool → Option LlmError → Sent → Round
post_round last last_exc timed_out = unless_last last timeout (some timeout)
post_round last last_exc (broken e) = unless_last last (request_error e) (some (request_error e))
post_round last last_exc (response status body) =
    if is_transient_status status
    then unless_last last (rate_limit status) last_exc
    else if leb 400 status
    then raises (http_error status)
    else elim body [ some data_ ↦ returns data_ | none ↦ unless_last last not_json (some not_json) ]

-- what the loop does with a round: the result, and the number of requests
unfoldable pub after_round :
    (Option LlmError → Result LlmError Value × ℕ) → Round → Result LlmError Value × ℕ
after_round next (returns data_) = (ok data_, 1)
after_round next (raises e) = (err e, 1)
after_round next (again last_exc) = let (result, n) = next last_exc in (result, suc n)

-- the loop of `_post_with_retry`, with `left` attempts to go: `sent attempt` is what the request of
-- that number comes to
unfoldable pub post_from :
    (sent : ℕ → Sent) (retries left attempt : ℕ) → Option LlmError → Result LlmError Value × ℕ
post_from sent retries zero attempt last_exc = (err (or_else last_exc no_exception), 0)
post_from sent retries (suc left) attempt last_exc =
    after_round (post_from sent retries left (suc attempt))
      (post_round (leb retries attempt) last_exc (sent attempt))

-- `_post_with_retry`
unfoldable pub post_with_retry : (ℕ → Sent) → ℕ → Result LlmError Value × ℕ
unfolding post_from
post_with_retry sent retries = post_from sent retries (suc retries) 0 none

-- the `except` clause of `OpenAICompatibleClient.complete`
unfoldable pub wants_fallback : Bool → Result LlmError Value → Bool
wants_fallback tools (err (http_error status)) = rejects_tools status && tools
wants_fallback tools r = false

-- the requests of `OpenAICompatibleClient.complete`: `sent tools attempt` is what the request comes
-- to with or without the tools field
unfoldable pub complete_data : (Bool → ℕ → Sent) → (tools : Bool) → ℕ → Result LlmError Value
unfolding post_with_retry wants_fallback
complete_data sent tools retries =
    let first = (post_with_retry (sent tools) retries).0 in
    if wants_fallback tools first then (post_with_retry (sent false) retries).0 else first

-- a round of `OllamaClient.complete`: `tools` says that tools were given, and the answer also
-- whether the next request still carries them
unfoldable pub ollama_round : Bool → Bool → Option LlmError → Sent → Round
ollama_round tools last last_exc timed_out = unless_last last timeout (some timeout)
ollama_round tools last last_exc (broken e) =
    unless_last last (request_error e) (some (request_error e))
ollama_round tools last last_exc (response status body) =
    if rejects_tools status && tools
    then again last_exc
    else if is_transient_status status
    then unless_last last (rate_limit status) last_exc
    else elim body [ some data_ ↦ returns data_ | none ↦ unless_last last not_json (some not_json) ]

-- whether the tools field is still in the payload after a request
unfoldable pub keeps_tools : Bool → Sent → Bool
keeps_tools tools (response status body) = if rejects_tools status then false else tools
keeps_tools tools s = tools

-- the loop of `OllamaClient.complete`; `field` says whether the payload has the tools field
unfoldable pub ollama_from :
    (sent : Bool → ℕ → Sent) (tools : Bool) (retries left attempt : ℕ)
    → Bool
    → Option LlmError
    → Result LlmError Value × ℕ
ollama_from sent tools retries zero attempt field last_exc =
    (err (or_else last_exc no_exception), 0)
ollama_from sent tools retries (suc left) attempt field last_exc =
    after_round
      (ollama_from sent tools retries left (suc attempt) (keeps_tools field (sent field attempt)))
      (ollama_round tools (leb retries attempt) last_exc (sent field attempt))

unfoldable pub ollama_data : (Bool → ℕ → Sent) → (tools : Bool) → ℕ → Result LlmError Value × ℕ
unfolding ollama_from
ollama_data sent tools retries = ollama_from sent tools retries (suc retries) 0 tools none
