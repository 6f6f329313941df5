-- ===== src/Storage/Examples.antt =====
-- Two chats with messages, and an action that waits.
use ai_agent_ollama.Base.{String, ◌≡◌, refl, false, none, some, [], ◌∷◌, ok}
use ai_agent_ollama.Values.{ℤ, pos, negsuc, Fields, str, obj, end, field, get_or}
use ai_agent_ollama.Storage.{Storage, Texts, Row, same, thread, find_chat, audit, add, history}
use ai_agent_ollama.Storage.Approvals.{put_pending, pop_pending, safe_detail, pop_pending_lem}
use ai_agent_ollama.Storage.Isolation.{add_elsewhere}

abbrev wanted : Fields
wanted = field "tool" (str "run_command") end

abbrev texts : Texts
texts = record {
  first_1000 = λ s. s;
  first_4000 = λ s. s;
  first_14000 = λ s. s;
  dumps = λ fs. "{\"tool\": \"run_command\"}";
  loads = λ s. some (obj wanted);
  render = λ v. "run_command";
}

abbrev said : ℤ → String → Row
said chat text = record { chat_id = chat; thread = 1; role = "user"; content = text }

-- a group has a negative number
abbrev stored : Storage
stored = record {
  messages = said (pos 7) "hello" ∷ said (negsuc 41) "hi all" ∷ said (pos 7) "again" ∷ [];
  chat_state = (pos 7, 1) ∷ (negsuc 41, 1) ∷ [];
  pending_actions = [];
  chat_preferences = [];
  audit_events = [];
}

abbrev grown : Storage
grown = record stored {
  messages =
      said (pos 7) "hello"
      ∷ said (negsuc 41) "hi all"
      ∷ said (pos 7) "again"
      ∷ said (negsuc 41) "bye"
      ∷ [];
}

add_elsewhere_example :
    (history texts (pos 7) 36 55000 grown).0 ≡ (history texts (pos 7) 36 55000 stored).0
unfolding add thread find_chat
add_elsewhere_example =
    add_elsewhere texts (negsuc 41) (pos 7) "user" "bye" 36 55000 stored grown refl refl

abbrev waiting : Storage
waiting = record stored {
  pending_actions =
      record { id = "a1"; chat_id = pos 7; payload = "{\"tool\": \"run_command\"}" } ∷ [];
  audit_events =
      record {
        chat_id = pos 7;
        thread = 1;
        event_type = "approval_requested";
        detail = "run_command: run_command";
      }
      ∷ [];
}

put_waiting : put_pending texts "a1" (pos 7) wanted stored ≡ ok waiting
unfolding put_pending audit thread find_chat safe_detail get_or
put_waiting = refl

pop_pending_lem_example :
    ((pop_pending texts "a1" (pos 7) waiting).0 ≡ ok (some (obj wanted)))
    × ((pop_pending texts "a1" (pos 7) (pop_pending texts "a1" (pos 7) waiting).1).0 ≡ ok none)
    × ((foreign : ℤ)
        → same (pos 7) foreign ≡ false
        → pop_pending texts "a1" foreign waiting ≡ (ok none, waiting))
pop_pending_lem_example = pop_pending_lem texts "a1" (pos 7) wanted stored waiting put_waiting refl
