-- ===== src/Runtime.antt =====
-- local_agent/core/context.py: the conversation that every component shares, its events, and the
-- history file. Each method is a function to the new state. The proofs are in the modules below.
pub mod Compact
pub mod Replace
pub mod History
mod Examples
use Prim.Native.String.{count}
use ai_agent_ollama.Base.{
  ℕ, ◌+◌, ◌-◌, String, Bool, true, false, ◌&&◌, Option, none, some, List, [], ◌∷◌, ◌++◌, map,
  str_eq, ltb, length, if◌then◌else◌, or_else, Result, ok, err, ◌>>=◌,
}
use ai_agent_ollama.Values.{
  Value, Fields, null, int, str, float, obj, end, field, pos, truthy, get_or, Conversions, text_of,
}
use ai_agent_ollama.Errors.{Exception, value_error, other}

-- `name`, `tool_call_id` and `tool_calls` come from the payload unconverted, so they may be any
-- value; `null` is `None`. A timestamp is kept by its decimal text.
pub record Message : Type 0 where
  pub role : String
  pub content : String
  pub name : Value
  pub tool_call_id : Value
  pub tool_calls : Value
  pub timestamp : String

unfoldable pub to_dict : Message → Value
to_dict m = obj (
    field "role" (str m.role) (
      field "content" (str m.content) (
        field "name" m.name (
          field "tool_call_id" m.tool_call_id
            (field "tool_calls" m.tool_calls (field "timestamp" (float m.timestamp) end))))))

-- `x or None`
abbrev pub or_none : Value → Value
or_none v = if truthy v then v else null

-- `now` is what `time.time()` returns. A payload that is no dict has no `get`.
unfoldable pub from_dict : Conversions → String → Value → Result Exception Message
unfolding get_or text_of truthy
from_dict conv now (obj fs) = elim (conv.as_float (get_or fs "timestamp" (float now))) [
  | none ↦ err (value_error "could not convert to float")
  | some timestamp ↦ ok (record {
    role = text_of conv (get_or fs "role" (str "user"));
    content = text_of conv (get_or fs "content" (str ""));
    name = get_or fs "name" null;
    tool_call_id = get_or fs "tool_call_id" null;
    tool_calls = or_none (get_or fs "tool_calls" null);
    timestamp = timestamp;
  })
]
from_dict conv now _ = err (other "AttributeError" "object has no attribute 'get'")

-- The shape of the chat-completions interface.
unfoldable pub to_openai : Message → Value
unfolding truthy
to_openai m =
    if str_eq m.role "tool"
    then obj (
        field "role" (str "tool") (
          field "content" (str m.content)
            (field "tool_call_id" (if truthy m.tool_call_id then m.tool_call_id else str "") end)))
    else if str_eq m.role "assistant" && truthy m.tool_calls
    then obj (
        field "role" (str "assistant") (
          field "content" (str m.content) (
            field "tool_calls" m.tool_calls
              (if truthy m.name then field "name" m.name end else end))))
    else if str_eq m.role "assistant" && truthy m.name
    then obj
        (field "role" (str "assistant") (field "content" (str m.content) (field "name" m.name end)))
    else obj (field "role" (str m.role) (field "content" (str m.content) end))

-- A line of the history file: an empty one, one that is no JSON, or the value that it holds.
pub data Line : Type 0 where
  blank garbage : Line
  json : Value → Line

-- `listeners` are told apart by numbers; `delivered` logs each call of one. `writable` says
-- whether the file system accepts a write. `file` is none while there is no history file.
pub record Runtime : Type 0 where
  pub messages : List Message
  pub system_prompt : Option String
  pub listeners : List ℕ
  pub delivered : List (ℕ × String × Value)
  pub settings_path : String
  pub own_path : Option String
  pub writable : Bool
  pub file : Option (List Line)

-- `history_path`
unfoldable pub history_path : Runtime → String
history_path r = or_else r.own_path r.settings_path

unfoldable pub system_prompt : Runtime → String
system_prompt r = or_else r.system_prompt ""

unfoldable pub set_system_prompt : String → Runtime → Runtime
set_system_prompt prompt r = record r { system_prompt = some prompt }

-- what `_persist_history_locked` writes
abbrev pub lines : List Message → List Line
lines messages = map (λ m. json (to_dict m)) messages

-- `_persist_history_locked`: the rename makes the write whole or absent
unfoldable pub persist_history : Runtime → Runtime
persist_history r = if r.writable then record r { file = some (lines r.messages) } else r

abbrev notify_all : String → Value → List ℕ → List (ℕ × String × Value)
notify_all event payload listeners = map (λ l. (l, event, payload)) listeners

-- `_emit`: what a listener raises is dropped
unfoldable pub emit : String → Value → Runtime → Runtime
emit event payload r = record r { delivered = r.delivered ++ notify_all event payload r.listeners }

unfoldable pub on : ℕ → Runtime → Runtime
on listener r = record r { listeners = r.listeners ++ listener ∷ [] }

unfoldable pub append : Message → Runtime → Runtime
unfolding emit persist_history
append m r =
    emit "message" (to_dict m) (persist_history (record r { messages = r.messages ++ m ∷ [] }))

-- the loop of `replace_last_assistant`, from the end
unfoldable pub replace_last : Message → List Message → Option (List Message)
replace_last new [] = none
replace_last new (m ∷ ms) = elim (replace_last new ms) [
  | some rest ↦ some (m ∷ rest)
  | none ↦ if str_eq m.role "assistant" then some (new ∷ ms) else none
]

abbrev pub streamed : String → String → Message
streamed content now = record {
  role = "assistant";
  content = content;
  name = null;
  tool_call_id = null;
  tool_calls = null;
  timestamp = now;
}

unfoldable pub replace_last_assistant : String → String → Runtime → Runtime
unfolding replace_last persist_history
replace_last_assistant content now r = elim (replace_last (streamed content now) r.messages) [
  | none ↦ r
  | some messages ↦ persist_history (record r { messages = messages })
]

unfoldable pub clear : Runtime → Runtime
unfolding emit persist_history
clear r = emit "cleared" (obj end) (persist_history (record r { messages = [] }))

unfoldable pub snapshot : Runtime → List Message
snapshot r = r.messages

-- `sum(len(m.content) for m in messages)`
unfoldable pub total_chars : List Message → ℕ
total_chars [] = 0
total_chars (m ∷ ms) = count m.content + total_chars ms

-- `while len(messages) > max_messages: popleft()`
unfoldable pub drop_over : ℕ → List Message → List Message
drop_over max_messages [] = []
drop_over max_messages (m ∷ ms) =
    let rest = drop_over max_messages ms in
    if ltb max_messages (length (m ∷ ms)) then rest else m ∷ ms

-- the second loop of `compact`, which keeps `total` up to date
unfoldable pub shrink : ℕ → ℕ → List Message → List Message
shrink max_chars total [] = []
shrink max_chars total (m ∷ ms) =
    let rest = shrink max_chars (total - count m.content) ms in
    if ltb max_chars total && ltb 1 (length (m ∷ ms)) then rest else m ∷ ms

unfoldable pub compacted : ℕ → ℕ → List Message → List Message
compacted max_messages max_chars messages =
    let recent = drop_over max_messages messages in shrink max_chars (total_chars recent) recent

unfoldable pub compact : ℕ → ℕ → Runtime → Runtime
unfolding persist_history
compact max_messages max_chars r =
    persist_history (record r { messages = compacted max_messages max_chars r.messages })

-- the loop of `_load_history`: blank lines and lines that are no JSON are skipped
unfoldable pub load_lines : Conversions → String → List Line → Result Exception (List Message)
load_lines conv now [] = ok []
load_lines conv now (blank ∷ rest) = load_lines conv now rest
load_lines conv now (garbage ∷ rest) = load_lines conv now rest
load_lines conv now (json payload ∷ rest) = do
  m ← from_dict conv now payload
  ms ← load_lines conv now rest
  ok (m ∷ ms)

-- `RuntimeContext(settings, history_path)` over the file that is there
unfoldable pub start :
    Conversions
    → String
    → String
    → Option String
    → Bool
    → Option (List Line)
    → Result Exception Runtime
start conv now settings_path own_path writable file = do
  messages ← load_lines conv now (or_else file [])
  ok (record {
    messages = messages;
    system_prompt = none;
    listeners = [];
    delivered = [];
    settings_path = settings_path;
    own_path = own_path;
    writable = writable;
    file = file;
  })

pub record Stats : Type 0 where
  pub messages : ℕ
  pub total_chars : ℕ
  pub history_path : String

unfoldable pub stats : Runtime → Stats
stats r = record {
  messages = length r.messages;
  total_chars = total_chars r.messages;
  history_path = r.settings_path;
}
