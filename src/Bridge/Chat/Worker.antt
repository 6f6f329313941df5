-- ===== src/Bridge/Chat/Worker.antt =====
-- What a front end that reads the queue of a run sees of it.
use ai_agent_ollama.Base.{
  String, ◌≡◌, refl, ◌∙◌, sym, ap, true, false, none, some, List, [], ◌∷◌, ◌++◌, map, eq_iff,
  eq_refl, keep, keep-append, keep_pass,
}
use mathlib.Core.List.{append_assoc, map-append}
use ai_agent_ollama.Base.All.{All, All-keep}
use ai_agent_ollama.Base.Dict.{lookup, lookup-erase}
use ai_agent_ollama.Actions.{Registry}
use ai_agent_ollama.Runtime.{Runtime}
use ai_agent_ollama.Bridge.EventBus.{Event, Item, event, finished, Bus, publish_all, end_run}
use ai_agent_ollama.Bridge.EventBus.Delivery.{queue, of_run, queue-put_self, publish_all-queue}
use ai_agent_ollama.Bridge.Chat.Tools.{Surroundings}
use ai_agent_ollama.Bridge.Chat.Quiet.{is_end, IsEnded}
use ai_agent_ollama.Bridge.Chat.Ends.{chat_run-IsEnded}
use ai_agent_ollama.Bridge.Chat.Loop.{Desk, fresh_run, chat_worker}

-- A run is over for its reader: after what was in the queue come events that do not end it, then
-- one event that does, then the end of the queue.
pub record IsOver (run_id : String) (old : List Item) (bus : Bus) : Type 0 where
  pub before : List Event
  pub last : Event
  pub queued : queue run_id bus ≡ some (old ++ map event before ++ event last ∷ finished ∷ [])
  pub quiet : All (λ e. is_end e.type ≡ false) before
  pub ends : is_end last.type ≡ true

keep_last :
    (run_id : String) (before : List Event) (last : Event)
    → last.run_id ≡ run_id
    → keep (of_run run_id) (before ++ last ∷ []) ≡ keep (of_run run_id) before ++ last ∷ []
keep_last run_id before last own =
    keep-append (of_run run_id) before (last ∷ [])
    ∙ ap (λ l. keep (of_run run_id) before ++ l)
        (keep_pass (of_run run_id) last [] ((eq_iff last.run_id run_id).1 own))

layout :
    (q : List Item) (before : List Event) (last : Event)
    → (q ++ map event (before ++ last ∷ [])) ++ finished ∷ []
      ≡ q ++ map event before ++ event last ∷ finished ∷ []
layout q before last = rw (map-append) (
    ap (λ l. l ++ finished ∷ []) (sym (append_assoc q (map event before) (event last ∷ [])))
    ∙ append_assoc (q ++ map event before) (event last ∷ []) (finished ∷ []))

over :
    (run_id : String) (es : List Event) (q : List Item) (bus : Bus)
    → queue run_id bus ≡ some q
    → IsEnded run_id es
    → IsOver run_id q (end_run run_id (publish_all es bus))
unfolding end_run
over run_id es q bus h e = record {
  before = keep (of_run run_id) e.before;
  last = e.last;
  queued =
      queue-put_self run_id finished (publish_all es bus) _ (publish_all-queue run_id es bus q h)
      ∙ ap some (
          ap (λ l. (q ++ map event (keep (of_run run_id) l)) ++ finished ∷ []) e.whole
          ∙ ap (λ l. (q ++ map event l) ++ finished ∷ []) (keep_last run_id e.before e.last e.own)
          ∙ layout q (keep (of_run run_id) e.before) e.last);
  quiet = All-keep _ (of_run run_id) e.before e.quiet;
  ends = e.ends;
}

module _ {W : Type 0} where
  -- Whatever the model answers or raises, whatever the tools do and whenever it is interrupted, a
  -- run whose queue exists leaves in it, after what was there, events that do not end a run, then
  -- exactly one `chat_done` or `chat_failed`, then the end of the queue; and the run is no longer
  -- among the active ones.
  pub chat_worker_lem :
      (here : Surroundings) (registry : Registry W) (run_id user_message : String)
      (runtime : Runtime) (desk : Desk W) (old : List Item)
      → queue run_id desk.bus ≡ some old
      → IsOver run_id old (chat_worker here registry run_id user_message runtime desk).1.bus
        × (lookup run_id (chat_worker here registry run_id user_message runtime desk).1.active_runs
            ≡ none)
  unfolding chat_worker
  chat_worker_lem here registry run_id user_message runtime desk old h = (
    over run_id _ old desk.bus h
        (chat_run-IsEnded here run_id registry user_message (fresh_run runtime desk) tt),
    lookup-erase run_id run_id desk.active_runs ∙ rw (eq_refl run_id) refl,
  )
