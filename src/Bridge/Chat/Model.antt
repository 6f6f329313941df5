-- ===== src/Bridge/Chat/Model.antt =====
-- What a chat run sends to the model and gets from it: `_build_messages` and
-- `_friendly_llm_error` of local_agent/bridge/api/handlers.py, and the replies of
-- local_agent/llm/client.py.
use ai_agent_ollama.Base.{
  ℕ, zero, suc, ◌-◌, String, Bool, ◌||◌, ◌&&◌, Option, List, [], ◌∷◌, ◌++◌, map, drop, length, ltb,
  str_eq, is_some, if◌then◌else◌, concat,
}
use text.Mathlib.Text.{find?}
use ai_agent_ollama.Values.{Value, Fields, str, obj, field, end}
use ai_agent_ollama.Errors.{
  Exception, assistant, config, refused, dependency_missing, type_error, value_error,
  not_implemented, other, message,
}
use ai_agent_ollama.Runtime.{Runtime, to_openai, system_prompt, snapshot}

pub record ToolCall : Type 0 where
  pub name : String
  pub arguments : Fields
  pub id : Option String

pub record ModelReply : Type 0 where
  pub content : String
  pub tool_calls : List ToolCall

-- `out[-n + 1:]`
unfoldable pub tail_slice {ℓ} : {A : Type ℓ} → ℕ → List A → List A
tail_slice zero out = drop 1 out
tail_slice (suc zero) out = out
tail_slice (suc (suc k)) out = drop (length out - suc k) out

-- `[out[0]] + out[-n + 1:]` where there are more than `n`
unfoldable pub clipped {ℓ} : {A : Type ℓ} → ℕ → List A → List A
unfolding tail_slice
clipped n [] = []
clipped n (first ∷ rest) =
    if ltb n (length (first ∷ rest)) then first ∷ tail_slice n (first ∷ rest) else first ∷ rest

abbrev pub system_message : String → List Value
system_message prompt =
    if str_eq prompt ""
    then []
    else obj (field "role" (str "system") (field "content" (str prompt) end)) ∷ []

-- `_build_messages`
unfoldable pub build_messages : ℕ → Runtime → List Value
unfolding clipped
build_messages max_context_messages r =
    clipped max_context_messages (system_message (system_prompt r) ++ map to_openai (snapshot r))

-- `type(exc).__name__`
unfoldable pub class_name : Exception → String
class_name (assistant m) = "AssistantError"
class_name (config m) = "ConfigError"
class_name (refused m) = "ActionRefused"
class_name (dependency_missing m hint) = "DependencyMissing"
class_name (type_error m) = "TypeError"
class_name (value_error m) = "ValueError"
class_name (not_implemented m) = "NotImplementedError"
class_name (other c m) = c

-- `needle in text`
abbrev pub within : String → String → Bool
within needle text = is_some (find? text needle)

-- `_friendly_llm_error`, its messages in English. `lower` is `str.lower`, and `first_120` the slice
-- of the first 120 characters.
unfoldable pub friendly_llm_error : (String → String) → (String → String) → Exception → String
unfolding class_name
friendly_llm_error lower first_120 exc =
    let name = class_name exc in
    let text = message exc in
    if within "NameResolutionError" name
      || within "CannotConnectError" name
      || within "ConnectionError" name
      || within "resolve" (lower text)
      || within "dns" (lower text)
      || within "connection" (lower text)
    then "the provider is not available"
    else if str_eq name "LLMTimeout" || within "timed out" (lower text)
    then "the answer of the model timed out"
    else if str_eq name "LLMRateLimit"
    then "the rate limit of the provider was reached"
    else if within "HTTP 400" text || (within "400" text && within "stream" (lower text))
    then "the request was incomplete"
    else if within "401" text || within "403" text
    then "the key or the access is not valid"
    else concat ("the answer of the model failed (" ∷ first_120 text ∷ ")" ∷ [])
