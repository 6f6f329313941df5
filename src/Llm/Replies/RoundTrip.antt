-- ===== src/Llm/Replies/RoundTrip.antt =====
-- That the client reads back the tool calls which a chat run writes into the conversation.
use ai_agent_ollama.Base.{
  String, ◌≡◌, refl, ◌∙◌, ap, false, Option, some, List, [], ◌∷◌, map, str_eq,
}
use ai_agent_ollama.Base.All.{All}
use ai_agent_ollama.Base.Dict.{lookup}
use ai_agent_ollama.Values.{Value, Items, Fields, str, arr, obj, cons, get_or}
use ai_agent_ollama.Bridge.Chat.Model.{ToolCall}
use ai_agent_ollama.Bridge.Chat.Tools.{Surroundings, call_item, call_items}
use ai_agent_ollama.Llm.Replies.Calls.{
  Texts, as_dict, loaded, read_with, call_arguments, call_id, named_call, read_function, read_call,
  read_calls, extract_tool_calls,
}

module _ (texts : Texts) (here : Surroundings) where
  -- A call and the identifier it was given: both texts are not blank and have no blanks around them,
  -- and JSON reads back what it wrote.
  pub record IsPlain (entry : ToolCall × String) : Type 0 where
    pub name_kept : texts.strip entry.0.name ≡ entry.0.name
    pub named : str_eq entry.0.name "" ≡ false
    pub id_kept : texts.strip (texts.render (str entry.1)) ≡ entry.1
    pub identified : str_eq entry.1 "" ≡ false
    pub dumped_kept : texts.strip (here.dumps entry.0.arguments) ≡ here.dumps entry.0.arguments
    pub dumped : str_eq (here.dumps entry.0.arguments) "" ≡ false
    pub loads_back : texts.loads (here.dumps entry.0.arguments) ≡ some (obj entry.0.arguments)

  -- the call with its identifier
  abbrev pub identified : ToolCall × String → ToolCall
  identified (call, id) = record call { id = some id }

  arguments_back :
      (entry : ToolCall × String)
      → IsPlain entry
      → call_arguments texts (str (here.dumps entry.0.arguments)) ≡ some entry.0.arguments
  unfolding call_arguments loaded as_dict
  arguments_back entry p =
      rw (p.dumped_kept, p.dumped, call_arguments) (rw (p.loads_back, loaded) refl)

  id_back : (entry : ToolCall × String) → IsPlain entry → call_id texts (str entry.1) ≡ some entry.1
  unfolding call_id
  id_back entry p = rw (p.id_kept, p.identified, call_id) refl

  name_back :
      (entry : ToolCall × String)
      → IsPlain entry
      → (arguments : Fields) (id : Option String)
      → named_call texts (str entry.0.name) arguments id
        ≡ some (record { name = entry.0.name; arguments = arguments; id = id })
  unfolding named_call
  name_back entry p arguments id = rw (p.name_kept, p.named, named_call) refl

  read_step :
      (arguments name : Value) (id : Option String) (fs : Fields)
      → call_arguments texts arguments ≡ some fs
      → read_with texts arguments name id ≡ named_call texts name fs id
  unfolding read_with
  read_step arguments name id fs h = rw (h, read_with) refl

  read_back :
      (entry : ToolCall × String)
      → IsPlain entry
      → read_call texts (call_item here entry) ≡ some (identified entry)
  unfolding read_call read_function get_or lookup
  read_back entry p =
      ap (read_with texts (str (here.dumps entry.0.arguments)) (str entry.0.name)) (id_back entry p)
      ∙ read_step (str (here.dumps entry.0.arguments)) (str entry.0.name) (some entry.1)
          entry.0.arguments (arguments_back entry p)
      ∙ name_back entry p entry.0.arguments (some entry.1)

  keep_call :
      (raw : Value) (rest : Items) (call : ToolCall)
      → read_call texts raw ≡ some call
      → read_calls texts (cons raw rest) ≡ call ∷ read_calls texts rest
  unfolding read_calls
  keep_call raw rest call h = rw (h, read_calls) refl

  calls_back :
      (calls : List (ToolCall × String))
      → All IsPlain calls
      → read_calls texts (call_items here calls) ≡ map identified calls
  unfolding read_calls
  calls_back [] p = refl
  calls_back ((call, id) ∷ rest) p =
      keep_call (call_item here (call, id)) (call_items here rest) (identified (call, id))
        (read_back (call, id) p.0)
      ∙ ap (λ l. identified (call, id) ∷ l) (calls_back rest p.1)

  -- The calls that a chat run writes into an assistant message are read back by
  -- `_extract_tool_calls` as they were, in order and with the identifiers they were given, if their
  -- names and identifiers are texts without blanks around them and JSON reads back what it wrote.
  pub extract_tool_calls_lem :
      (calls : List (ToolCall × String))
      → All IsPlain calls
      → extract_tool_calls texts (arr (call_items here calls)) ≡ map identified calls
  unfolding extract_tool_calls
  extract_tool_calls_lem calls p = calls_back calls p
