-- ===== src/Llm/Replies/Stream.antt =====
-- `OpenAICompatibleClient.complete_streaming` of local_agent/llm/client.py: the lines of a stream
-- are read up to its end, and the fragments of the tool calls are put together by their index.
use Prim.Native.String
use ai_agent_ollama.Base.{
  ℕ, ◌==◌, leb, String, Option, none, some, List, [], ◌∷◌, ◌++◌, str_eq, if◌then◌else◌, concat,
  text_or,
}
use ai_agent_ollama.Values.{
  Value, Items, Fields, null, arr, obj, nil, cons, int, pos, end, truthy, get_or,
}
use ai_agent_ollama.Bridge.Chat.Model.{ToolCall, ModelReply}
use ai_agent_ollama.Llm.Replies.Calls.{Texts, delta_to_text}

-- A line of the stream: one that is skipped, the end, or a chunk with what its JSON holds.
pub data Line : Type 0 where
  skipped finished : Line
  chunk : Value → Line

pub record Slot : Type 0 where
  pub id : Option String
  pub name : String
  pub arguments : String

abbrev pub empty_slot : Slot
empty_slot = record { id = none; name = ""; arguments = "" }

pub record Fragment : Type 0 where
  pub index : ℕ
  pub id : String
  pub name : String
  pub arguments : String

abbrev pub Partial : Type 0
Partial = List (ℕ × Slot)

-- `partial.setdefault(index, {...})`
unfoldable pub slot_at : ℕ → Partial → Slot
slot_at i [] = empty_slot
slot_at i ((j, s) ∷ rest) = let later = slot_at i rest in if j == i then s else later

unfoldable pub put_slot : ℕ → Slot → Partial → Partial
put_slot i new [] = (i, new) ∷ []
put_slot i new ((j, s) ∷ rest) =
    let later = put_slot i new rest in if j == i then (j, new) ∷ rest else (j, s) ∷ later

-- a fragment changes what it carries: the identifier and the name are replaced, the arguments grow
unfoldable pub grown : Fragment → Slot → Slot
grown f s = record {
  id = if str_eq f.id "" then s.id else some f.id;
  name = text_or f.name s.name;
  arguments = String.◌++◌ s.arguments f.arguments;
}

unfoldable pub merge : Fragment → Partial → Partial
unfolding grown
merge f partial = put_slot f.index (grown f (slot_at f.index partial)) partial

unfoldable pub merge_all : List Fragment → Partial → Partial
merge_all [] partial = partial
merge_all (f ∷ rest) partial = merge_all rest (merge f partial)

-- `str(x)` of a value that is true, and nothing of one that is not
unfoldable pub shown : Texts → Value → String
unfolding truthy
shown texts v = if truthy v then texts.render v else ""

-- the fields of `raw.get("function") or {}`; a value that is true and no dict, at which the source
-- raises, is read as an empty one here and in `delta_of`
unfoldable pub function_of : Value → Fields
function_of (obj fs) = fs
function_of v = end

-- `as_index` is `int` of the index
unfoldable pub fragments : Texts → (as_index : Value → ℕ) → Items → List Fragment
unfolding shown function_of get_or
fragments texts as_index nil = []
fragments texts as_index (cons (obj raw) rest) =
    let function = function_of (get_or raw "function" null) in
    record {
      index = as_index (get_or raw "index" (int (pos 0)));
      id = shown texts (get_or raw "id" null);
      name = shown texts (get_or function "name" null);
      arguments = shown texts (get_or function "arguments" null);
    }
    ∷ fragments texts as_index rest
fragments texts as_index (cons raw rest) = fragments texts as_index rest

abbrev pub items_of : Value → Items
items_of (arr raws) = raws
items_of v = nil

-- `(choices[0].get("delta") or {})`, none where there are no choices
unfoldable pub delta_of : Value → Option Fields
unfolding get_or function_of
delta_of (obj data_) = elim (items_of (get_or data_ "choices" null)) [
  | nil ↦ none
  | cons choice rest ↦ some (function_of (get_or (function_of choice) "delta" null))
]
delta_of v = none

-- the pieces of text that were passed on, and the calls so far
unfoldable pub read_lines :
    Texts → (Value → ℕ) → List Line → List String → Partial → List String × Partial
unfolding delta_of fragments merge_all get_or
read_lines texts as_index [] pieces partial = (pieces, partial)
read_lines texts as_index (finished ∷ rest) pieces partial = (pieces, partial)
read_lines texts as_index (skipped ∷ rest) pieces partial =
    read_lines texts as_index rest pieces partial
read_lines texts as_index (chunk data_ ∷ rest) pieces partial = elim (delta_of data_) [
  | none ↦ read_lines texts as_index rest pieces partial
  | some delta ↦
      let piece = delta_to_text texts (get_or delta "content" null) in
      read_lines texts as_index rest (if str_eq piece "" then pieces else pieces ++ piece ∷ [])
        (merge_all (fragments texts as_index (items_of (get_or delta "tool_calls" null))) partial)
]

-- `sorted(partial)`
unfoldable pub insert_sorted : ℕ × Slot → Partial → Partial
insert_sorted e [] = e ∷ []
insert_sorted e (d ∷ rest) =
    let later = insert_sorted e rest in if leb e.0 d.0 then e ∷ d ∷ rest else d ∷ later

unfoldable pub sorted : Partial → Partial
unfolding insert_sorted
sorted [] = []
sorted (e ∷ rest) = insert_sorted e (sorted rest)

-- a slot without a name, or whose arguments are no JSON object, is left out
unfoldable pub finish_slot : Texts → Slot → Option ToolCall
finish_slot texts s =
    if str_eq s.name "" then none else elim (texts.loads (text_or s.arguments "{}")) [
      | some (obj fs) ↦ some (record { name = s.name; arguments = fs; id = s.id })
      | _ ↦ none
    ]

unfoldable pub finish_calls : Texts → Partial → List ToolCall
unfolding finish_slot
finish_calls texts [] = []
finish_calls texts ((i, s) ∷ rest) =
    let later = finish_calls texts rest in
    elim (finish_slot texts s) [ none ↦ later | some call ↦ call ∷ later ]

-- the reply that a stream is put together to; none where the client asks again without a stream
unfoldable pub assembled : Texts → List String → List ToolCall → Option ModelReply
assembled texts [] [] = none
assembled texts pieces calls =
    some (record { content = texts.strip (concat pieces); tool_calls = calls })

unfoldable pub stream_reply : Texts → (Value → ℕ) → List Line → Option ModelReply
unfolding read_lines sorted finish_calls assembled
stream_reply texts as_index lines =
    let (pieces, partial) = read_lines texts as_index lines [] [] in
    assembled texts pieces (finish_calls texts (sorted partial))
