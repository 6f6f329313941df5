-- ===== src/Runtime/Examples.antt =====
-- A short conversation, and the theorems about the runtime at it.
use ai_agent_ollama.Base.{
  ◌≤◌, String, ◌≡◌, refl, ◌⊎◌, inl, true, Option, none, some, List, [], ◌∷◌, ◌++◌, length, ok,
}
use ai_agent_ollama.Values.{Value, null, float, Conversions}
use ai_agent_ollama.Runtime.{
  Message, Runtime, total_chars, drop_over, shrink, compacted, replace_last, streamed, start,
}
use ai_agent_ollama.Runtime.Compact.{compacted_lem}
use ai_agent_ollama.Runtime.Replace.{Replacement, replace_last_lem}
use ai_agent_ollama.Runtime.History.{append_message, compact_to, edit_all, restart_lem}

abbrev reads : Value → Option String
reads (float x) = some x
reads _ = none

abbrev conv : Conversions
conv = record { render = λ v. ""; as_float = reads; as_float_float = λ x. refl }

abbrev say : String → String → Message
say role content = record {
  role = role;
  content = content;
  name = null;
  tool_call_id = null;
  tool_calls = null;
  timestamp = "1.0";
}

abbrev talk : List Message
talk = say "user" "hello" ∷ say "assistant" "hi" ∷ say "user" "bye" ∷ []

abbrev empty : Runtime
empty = record {
  messages = [];
  system_prompt = none;
  listeners = [];
  delivered = [];
  settings_path = "history.jsonl";
  own_path = none;
  writable = true;
  file = some [];
}

two_left : compacted 2 5 talk ≡ say "assistant" "hi" ∷ say "user" "bye" ∷ []
unfolding compacted drop_over shrink total_chars
two_left = refl

one_left : compacted 9 2 talk ≡ say "user" "bye" ∷ []
unfolding compacted drop_over shrink total_chars
one_left = refl

compacted_lem_example :
    (dropped : List Message) × (dropped ++ compacted 2 5 talk ≡ talk)
    × (length (compacted 2 5 talk) ≤ 2)
    × ((total_chars (compacted 2 5 talk) ≤ 5) ⊎ (length (compacted 2 5 talk) ≤ 1))
    × ((pre suf : List Message)
        → pre ++ suf ≡ talk
        → length suf ≤ 2
        → total_chars suf ≤ 5
        → length suf ≤ length (compacted 2 5 talk))
compacted_lem_example = compacted_lem 2 5 talk

replace_last_lem_example :
    Replacement (streamed "hi!" "2.0") talk (replace_last (streamed "hi!" "2.0") talk)
replace_last_lem_example = replace_last_lem (streamed "hi!" "2.0") talk

restart_lem_example :
    start conv "9.0" "history.jsonl" none true
      (edit_all empty (append_message (say "user" "hello") ∷ compact_to 5 100 ∷ [])).file
    ≡ ok (record {
      messages =
          (edit_all empty (append_message (say "user" "hello") ∷ compact_to 5 100 ∷ [])).messages;
      system_prompt = none;
      listeners = [];
      delivered = [];
      settings_path = "history.jsonl";
      own_path = none;
      writable = true;
      file = (edit_all empty (append_message (say "user" "hello") ∷ compact_to 5 100 ∷ [])).file;
    })
restart_lem_example =
    restart_lem conv "9.0" "history.jsonl" none empty
      (append_message (say "user" "hello") ∷ compact_to 5 100 ∷ [])
      (record { can_write = refl; saved = refl; stored = tt }) (inl refl, (tt, tt))
