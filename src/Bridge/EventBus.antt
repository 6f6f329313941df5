-- ===== src/Bridge/EventBus.antt =====
-- `EventBus` of local_agent/bridge/api/handlers.py.
pub mod Delivery
mod Examples
use ai_agent_ollama.Base.{
  ℕ, String, Bool, true, false, Option, none, some, List, [], ◌∷◌, ◌++◌, map, if◌then◌else◌, ◌==◌,
}
use ai_agent_ollama.Base.Dict.{Dict, lookup, insert, erase}
use ai_agent_ollama.Values.{Value}

-- `EventType` of local_agent/bridge/protocol.py
pub data EventType : Type 0 where
  chat_started turn_started assistant_delta assistant_final tool_proposed : EventType
  tool_confirm_requested tool_confirm_resolved tool_result chat_done chat_failed : EventType
  log telegram_state scheduled_fired : EventType

-- `Event`; `seq` and `ts` keep their defaults wherever the handlers make one
pub record Event : Type 0 where
  pub type : EventType
  pub payload : Value
  pub run_id : String

-- An item of a run's queue: an event, or the `None` that ends the run.
pub data Item : Type 0 where
  event : Event → Item
  finished : Item

-- Listeners are told apart by numbers; `delivered` logs each call of one.
pub record Bus : Type 0 where
  pub listeners : List ℕ
  pub queues : Dict (List Item)
  pub delivered : List (ℕ × Event)

abbrev pub new_bus : Bus
new_bus = record { listeners = []; queues = []; delivered = [] }

-- `list.remove`: the first one alone
unfoldable pub remove : ℕ → List ℕ → List ℕ
remove l [] = []
remove l (x ∷ xs) = if x == l then xs else x ∷ remove l xs

unfoldable pub subscribe : ℕ → Bus → Bus
subscribe l bus = record bus { listeners = bus.listeners ++ l ∷ [] }

unfoldable pub unsubscribe : ℕ → Bus → Bus
unfolding remove
unsubscribe l bus = record bus { listeners = remove l bus.listeners }

-- An existing queue is returned as it is.
unfoldable pub create_run_queue : String → Bus → Bus
create_run_queue run_id bus = elim (lookup run_id bus.queues) [
  | some q ↦ bus
  | none ↦ record bus { queues = insert run_id [] bus.queues }
]

unfoldable pub destroy_run_queue : String → Bus → Bus
destroy_run_queue run_id bus = record bus { queues = erase run_id bus.queues }

-- `q.put(item)` on the run's queue, if it has one
unfoldable pub put : String → Item → Bus → Bus
put run_id item bus = elim (lookup run_id bus.queues) [
  | none ↦ bus
  | some q ↦ record bus { queues = insert run_id (q ++ item ∷ []) bus.queues }
]

-- every listener is called, whatever another raises; then the run's queue gets the event
unfoldable pub publish : Event → Bus → Bus
unfolding put
publish e bus =
    put e.run_id (event e)
      (record bus { delivered = bus.delivered ++ map (λ l. (l, e)) bus.listeners })

unfoldable pub publish_all : List Event → Bus → Bus
publish_all [] bus = bus
publish_all (e ∷ es) bus = publish_all es (publish e bus)

unfoldable pub end_run : String → Bus → Bus
unfolding put
end_run run_id bus = put run_id finished bus
