-- ===== src/Llm/Examples.antt =====
-- Requests that are repeated, and tool calls that are read back.
use Prim.Native.String
use ai_agent_ollama.Base.{
  ℕ, zero, suc, ◌<◌, String, ◌≡◌, refl, false, none, some, List, [], ◌∷◌, map, str_eq,
  if◌then◌else◌, ok, arith,
}
use ai_agent_ollama.Values.{Value, null, str, arr, obj, field, end}
use ai_agent_ollama.Bridge.Chat.Model.{ToolCall}
use ai_agent_ollama.Bridge.Chat.Tools.{Surroundings, call_items}
use ai_agent_ollama.Llm.Http.{Sent, response, is_transient_status, post_with_retry}
use ai_agent_ollama.Llm.Http.Retry.{IsPassing, busy, answered, at_once, post_with_retry_lem}
use ai_agent_ollama.Llm.Replies.Calls.{Texts, extract_tool_calls}
use ai_agent_ollama.Llm.Replies.RoundTrip.{IsPlain, identified, extract_tool_calls_lem}
use ai_agent_ollama.Llm.Replies.Stream.{Fragment, slot_at, merge_all}
use ai_agent_ollama.Llm.Replies.Fragments.{written, merge_all_lem}

abbrev reply : Value
reply = obj (field "choices" null end)

-- busy twice, then a reply
abbrev sent : ℕ → Sent
sent zero = response 503 none
sent (suc zero) = response 429 none
sent (suc (suc n)) = response 200 (some reply)

busy_before : (j : ℕ) → j < 2 → (e : _) × IsPassing (sent j) e
unfolding is_transient_status
busy_before zero h = (_, busy 503 none refl)
busy_before (suc zero) h = (_, busy 429 none refl)
busy_before (suc (suc n)) h = absurd (omega (arith, h))

post_with_retry_lem_example : post_with_retry sent 3 ≡ (ok reply, 3)
unfolding is_transient_status
post_with_retry_lem_example =
    post_with_retry_lem sent 3 2 (ok reply) (omega arith) busy_before
      (at_once (answered 200 reply refl (omega arith)))

abbrev rendered : Value → String
rendered (str s) = s
rendered v = ""

-- `json` on one text
abbrev texts : Texts
texts = record {
  loads = λ s. if str_eq s "{}" then some (obj end) else none;
  strip = λ s. s;
  single_to_double = λ s. s;
  render = rendered;
}

abbrev around : Surroundings
around = record {
  stops = none;
  uuid = λ n. "u";
  now = λ n. "0.0";
  answers = λ n. [];
  dumps = λ fs. "{}";
  lower = λ s. s;
  first_120 = λ s. s;
  files = record {
    tokens = λ text. [];
    lower = λ s. s;
    is_absolute = λ p. false;
    join = λ d p. p;
    base_name = λ p. p;
    suffix = λ p. "";
    resolve = λ p. ok p;
    is_file = λ p. ok false;
    relative = λ p d. none;
    work_dir = "/w";
    data_dir = "/d";
  };
  client = ok tt;
  model = λ turn messages. ([], ok (record { content = ""; tool_calls = [] }));
  max_agent_turns = 1;
  max_context_messages = 40;
}

abbrev screenshot : ToolCall
screenshot = record { name = "screen_capture"; arguments = end; id = none }

abbrev calls : List (ToolCall × String)
calls = (screenshot, "call_1") ∷ (screenshot, "call_2") ∷ []

plain : (id : String) → str_eq id "" ≡ false → IsPlain texts around (screenshot, id)
plain id h = record {
  name_kept = refl;
  named = refl;
  id_kept = refl;
  identified = h;
  dumped_kept = refl;
  dumped = refl;
  loads_back = refl;
}

extract_tool_calls_lem_example :
    extract_tool_calls texts (arr (call_items around calls)) ≡ map (identified texts around) calls
extract_tool_calls_lem_example =
    extract_tool_calls_lem texts around calls (plain "call_1" refl, (plain "call_2" refl, tt))

abbrev piece : ℕ → String → Fragment
piece i text = record { index = i; id = ""; name = ""; arguments = text }

abbrev pieces : List Fragment
pieces = piece 0 "{\"a\"" ∷ piece 1 "{}" ∷ piece 0 ": 1}" ∷ []

merge_all_lem_example :
    (slot_at 0 (merge_all pieces [])).arguments
    ≡ String.◌++◌ (slot_at 0 []).arguments (written 0 pieces)
merge_all_lem_example = merge_all_lem 0 pieces []
