-- ===== src/Llm/Replies/Calls.antt =====
-- `_extract_tool_calls`, `_content_to_text` and `_delta_to_text` of local_agent/llm/client.py, and
-- the end of `OpenAICompatibleClient.complete`.
use ai_agent_ollama.Base.{
  String, Option, none, some, List, [], ◌∷◌, ◌++◌, str_eq, if◌then◌else◌, concat,
}
use ai_agent_ollama.Values.{
  Value, Items, Fields, null, str, arr, obj, nil, cons, end, truthy, get_or,
}
use ai_agent_ollama.Bridge.Chat.Model.{ToolCall, ModelReply}

-- What of `json` and `str` the functions use: `loads` is none where it raises, and `render` is
-- `str` of a value.
pub record Texts : Type 0 where
  pub loads : String → Option Value
  pub strip : String → String
  pub single_to_double : String → String
  pub render : Value → String

abbrev pub join : String → List String → String
join sep [] = ""
join sep (s ∷ []) = s
join sep (s ∷ t ∷ rest) = concat (s ∷ sep ∷ join sep (t ∷ rest) ∷ [])

module _ (texts : Texts) where
  -- `arguments` of a raw call, as a dict; none where the call is skipped
  unfoldable pub as_dict : Value → Option Fields
  as_dict (obj fs) = some fs
  as_dict v = none

  unfoldable pub loaded : String → Option Value
  loaded s = elim (texts.loads s) [
    | some v ↦ some v
    | none ↦ texts.loads (texts.single_to_double s)
  ]

  unfoldable pub call_arguments : Value → Option Fields
  unfolding as_dict loaded
  call_arguments null = some end
  call_arguments (str text) =
      let s = texts.strip text in
      if str_eq s "" then some end else elim (loaded s) [ none ↦ none | some v ↦ as_dict v ]
  call_arguments v = as_dict v

  -- `id`: none for `None` and for a blank text
  unfoldable pub call_id : Value → Option String
  call_id null = none
  call_id v = let s = texts.strip (texts.render v) in if str_eq s "" then none else some s

  -- a call with a name that is a text and not blank
  unfoldable pub named_call : Value → Fields → Option String → Option ToolCall
  named_call (str name) arguments id =
      let s = texts.strip name in
      if str_eq s "" then none else some (record { name = s; arguments = arguments; id = id })
  named_call v arguments id = none

  -- the rest of a round, once name and arguments are taken out of `function`
  unfoldable pub read_with : Value → Value → Option String → Option ToolCall
  unfolding call_arguments named_call
  read_with arguments name id = elim (call_arguments arguments) [
    | none ↦ none
    | some fs ↦ named_call name fs id
  ]

  -- one raw call: none where the loop goes on without it
  unfoldable pub read_function : Value → Value → Option ToolCall
  unfolding read_with call_id get_or
  read_function (obj function) id =
      read_with (get_or function "arguments" (obj end)) (get_or function "name" null) (call_id id)
  read_function v id = none

  unfoldable pub read_call : Value → Option ToolCall
  unfolding read_function get_or
  read_call (obj raw) = read_function (get_or raw "function" (obj raw)) (get_or raw "id" null)
  read_call v = none

  unfoldable pub read_calls : Items → List ToolCall
  unfolding read_call
  read_calls nil = []
  read_calls (cons raw rest) =
      let later = read_calls rest in
      elim (read_call raw) [ none ↦ later | some call ↦ call ∷ later ]

  unfoldable pub extract_tool_calls : Value → List ToolCall
  unfolding read_calls
  extract_tool_calls (arr raw_calls) = read_calls raw_calls
  extract_tool_calls v = []

  -- the text of an item of a content list
  unfoldable pub dict_text : Fields → List String
  unfolding get_or truthy
  dict_text item =
      let text = get_or item "text" (str "") in if truthy text then texts.render text ∷ [] else []

  unfoldable pub content_parts : Items → List String
  unfolding dict_text
  content_parts nil = []
  content_parts (cons (obj item) rest) = dict_text item ++ content_parts rest
  content_parts (cons item rest) = texts.render item ∷ content_parts rest

  unfoldable pub content_to_text : Value → String
  unfolding content_parts
  content_to_text (str s) = texts.strip s
  content_to_text (arr content) = texts.strip (join "\n" (content_parts content))
  content_to_text v = ""

  -- pieces of a stream are not stripped, and `None` in a list is left out
  unfoldable pub delta_parts : Items → List String
  unfolding dict_text
  delta_parts nil = []
  delta_parts (cons (obj item) rest) = dict_text item ++ delta_parts rest
  delta_parts (cons null rest) = delta_parts rest
  delta_parts (cons item rest) = texts.render item ∷ delta_parts rest

  unfoldable pub delta_to_text : Value → String
  unfolding delta_parts
  delta_to_text (str s) = s
  delta_to_text (arr content) = concat (delta_parts content)
  delta_to_text v = ""

  -- `value or {}`, which must then have a `get`: none where that raises
  unfoldable pub dict_or_empty : Value → Option Fields
  unfolding truthy
  dict_or_empty (obj fs) = some fs
  dict_or_empty v = if truthy v then none else some end

  -- the reply that a message of a response holds, by the text that is read out of its content
  unfoldable pub message_reply : (Value → String) → Option Fields → Option ModelReply
  unfolding extract_tool_calls get_or
  message_reply text_of none = none
  message_reply text_of (some message) = some (record {
    content = text_of (get_or message "content" null);
    tool_calls = extract_tool_calls (get_or message "tool_calls" null);
  })

  -- `choices[0].get("message") or {}` of choices that are true
  unfoldable pub first_message : Value → Option Fields
  unfolding dict_or_empty get_or
  first_message (arr (cons (obj choice) rest)) = dict_or_empty (get_or choice "message" null)
  first_message v = none

  -- the end of `OpenAICompatibleClient.complete`: none where it raises on the shape of the data
  unfoldable pub openai_reply : Value → Option ModelReply
  unfolding truthy get_or message_reply first_message content_to_text
  openai_reply (obj data_) =
      let choices = get_or data_ "choices" null in
      if truthy choices
      then message_reply content_to_text (first_message choices)
      else some (record { content = ""; tool_calls = [] })
  openai_reply v = none

  -- `str(message.get("content") or "").strip()`
  unfoldable pub stripped_text : Value → String
  unfolding truthy
  stripped_text v = texts.strip (if truthy v then texts.render v else "")

  -- the end of `OllamaClient.complete`: none where it raises on the shape of the data
  unfoldable pub ollama_reply : Value → Option ModelReply
  unfolding message_reply dict_or_empty stripped_text get_or
  ollama_reply (obj data_) =
      message_reply stripped_text (dict_or_empty (get_or data_ "message" null))
  ollama_reply v = none
