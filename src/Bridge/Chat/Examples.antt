-- ===== src/Bridge/Chat/Examples.antt =====
-- A run in which the model calls a tool that is not registered.
use ai_agent_ollama.Base.{
  ℕ, ◌≤◌, List, String, ◌≡◌, refl, true, false, none, some, [], ◌∷◌, ◌++◌, map, drop, length, ok,
  err,
}
use ai_agent_ollama.Base.Dict.{lookup}
use ai_agent_ollama.Values.{Value, null, str, obj, field, end}
use ai_agent_ollama.Errors.{value_error, assistant}
use ai_agent_ollama.Actions.{safe, Action, Context, Registry, get}
use ai_agent_ollama.Runtime.{Message, Runtime, system_prompt, snapshot, to_openai}
use ai_agent_ollama.Bridge.Artifacts.{Files}
use ai_agent_ollama.Bridge.Chat.Model.{ToolCall, build_messages}
use ai_agent_ollama.Bridge.Chat.Tools.{Surroundings, Run, calling, assign_ids, run_tools}
use ai_agent_ollama.Bridge.Chat.Loop.{Desk, fresh_run, use_reply, chat_worker}
use ai_agent_ollama.Bridge.Chat.Worker.{IsOver, chat_worker_lem}
use ai_agent_ollama.Bridge.Chat.Window.{build_messages_lem}
use ai_agent_ollama.Bridge.Chat.Unknown.{unknown_tool_lem}
use ai_agent_ollama.Bridge.Chat.Answers.{IsAnswered, run_tools_lem}

abbrev no_files : Files
no_files = record {
  tokens = λ text. [];
  lower = λ s. s;
  is_absolute = λ p. false;
  join = λ d p. p;
  base_name = λ p. p;
  suffix = λ p. "";
  resolve = λ p. err (value_error "");
  is_file = λ p. ok false;
  relative = λ p d. none;
  work_dir = "/w";
  data_dir = "/d";
}

abbrev guess : ToolCall
guess = record { name = "open_moon"; arguments = end; id = some "c1" }

abbrev around : Surroundings
around = record {
  stops = none;
  uuid = λ n. "u";
  now = λ n. "0.0";
  answers = λ n. [];
  dumps = λ fs. "{}";
  lower = λ s. s;
  first_120 = λ s. s;
  files = no_files;
  client = ok tt;
  model = λ turn messages.
      ("Let me " ∷ "see." ∷ [], ok (record { content = "Let me see."; tool_calls = guess ∷ [] }));
  max_agent_turns = 8;
  max_context_messages = 40;
}

abbrev said : String → Message
said text = record {
  role = "user";
  content = text;
  name = null;
  tool_call_id = null;
  tool_calls = null;
  timestamp = "0.0";
}

abbrev talk : Runtime
talk = record {
  messages = said "hello" ∷ said "are you there?" ∷ [];
  system_prompt = some "You are an assistant.";
  listeners = [];
  delivered = [];
  settings_path = "history.jsonl";
  own_path = none;
  writable = true;
  file = none;
}

abbrev plain : Context ℕ
plain = record {
  safety = record { require_confirm_for_destructive = true; confirm_mode = "destructive" };
  gate = record { auto_approve_all = false; auto_deny_all = false; prompt = none };
  world = 0;
}

abbrev no_tools : Registry ℕ
no_tools = []

abbrev desk : Desk ℕ
desk = record {
  context = plain;
  pending = [];
  bus = record { listeners = []; queues = ("run", []) ∷ []; delivered = [] };
  runtime = talk;
  sessions = [];
  active_runs = ("run", false) ∷ [];
  run_threads = ("run", "bridge-chat-run") ∷ [];
}

chat_worker_lem_example :
    IsOver "run" [] (chat_worker around no_tools "run" "go on" talk desk).1.bus
    × (lookup "run" (chat_worker around no_tools "run" "go on" talk desk).1.active_runs ≡ none)
unfolding lookup
chat_worker_lem_example = chat_worker_lem around no_tools "run" "go on" talk desk [] refl

abbrev prompt : Value
prompt = obj (field "role" (str "system") (field "content" (str "You are an assistant.") end))

build_messages_lem_example :
    (build_messages 2 talk ≡ prompt ∷ drop 1 (map to_openai (snapshot talk)))
    × (length (build_messages 2 talk) ≤ 2)
unfolding system_prompt snapshot
build_messages_lem_example = build_messages_lem 0 talk refl

abbrev run : Run ℕ
run = fresh_run talk desk

unknown_tool_lem_example :
    ((use_reply around "run" no_tools
        (record { content = "Let me see."; tool_calls = guess ∷ [] })
        false
        run).0
      ≡ err (assistant "unknown action: open_moon"))
    × ((use_reply around "run" no_tools
          (record { content = "Let me see."; tool_calls = guess ∷ [] })
          false
          run).1.runtime.messages
        ≡ talk.messages
          ++ calling around "Let me see." (assign_ids around (guess ∷ []) 0).0 run ∷ [])
unfolding get lookup
unknown_tool_lem_example =
    unknown_tool_lem around "run" no_tools "Let me see." guess [] false run refl refl

-- a tool that needs no confirmation
abbrev clock : Action ℕ
clock = record {
  name = "clock";
  description = "";
  function = record {
    takes_context = true;
    declared_risk = none;
    call = λ arguments context. (ok "noon", context);
  };
  parameters = [];
  required = [];
  risk_level = safe;
  unavailable = false;
  unavailable_reason = "";
  confirm_override = none;
  confirm_skip = none;
}

abbrev one_tool : Registry ℕ
one_tool = ("clock", clock) ∷ []

abbrev clock_calls : List (ToolCall × String)
clock_calls =
    (record { name = "clock"; arguments = end; id = none }, "c1")
    ∷ (record { name = "clock"; arguments = end; id = none }, "c2")
    ∷ []

run_tools_lem_example :
    IsAnswered clock_calls talk.messages
      (run_tools around "run" one_tool clock_calls run).1.runtime.messages
      (run_tools around "run" one_tool clock_calls run).0
run_tools_lem_example = run_tools_lem around "run" one_tool clock_calls run
