-- ===== src/Bridge/EventBus/Examples.antt =====
-- Two runs on one bus.
use ai_agent_ollama.Base.{String, ◌≡◌, refl, some, List, [], ◌∷◌, ◌++◌, map, keep}
use ai_agent_ollama.Base.Dict.{lookup}
use ai_agent_ollama.Values.{null}
use ai_agent_ollama.Bridge.EventBus.{
  Event, EventType, chat_started, chat_done, log, event, finished, new_bus, create_run_queue,
  publish_all, end_run,
}
use ai_agent_ollama.Bridge.EventBus.Delivery.{queue, of_run, run_queue_lem}

abbrev from_run : String → EventType → Event
from_run run_id type = record { type = type; payload = null; run_id = run_id }

abbrev early : List Event
early = from_run "a" chat_started ∷ from_run "b" chat_started ∷ []

abbrev late : List Event
late = from_run "" log ∷ from_run "a" chat_done ∷ []

run_queue_lem_example :
    queue "a" (
      end_run "a" (
        publish_all late (create_run_queue "a" (publish_all early (create_run_queue "a" new_bus)))))
    ≡ some (map event (keep (of_run "a") (early ++ late)) ++ finished ∷ [])
unfolding lookup
run_queue_lem_example = run_queue_lem "a" early late new_bus refl
