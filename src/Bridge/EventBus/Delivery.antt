-- ===== src/Bridge/EventBus/Delivery.antt =====
-- What the queue of a run holds after any events of any runs.
use ai_agent_ollama.Base.{
  String, ◌≡◌, Bool, true, false, Option, none, some, List, [], ◌∷◌, ◌++◌, map, str_eq, eq_iff,
  eq_refl, Bool-cases, inl, inr, Option-cases, keep, sym, ap, ◌∙◌, append-nil, keep_pass, keep_drop,
  keep-append,
}
use mathlib.Core.List.{append_assoc, map-append}
use ai_agent_ollama.Base.Dict.{lookup, lookup-insert}
use ai_agent_ollama.Bridge.EventBus.{
  Event, Item, event, finished, Bus, create_run_queue, put, publish, publish_all, end_run,
}

abbrev pub queue : String → Bus → Option (List Item)
queue run_id bus = lookup run_id bus.queues

-- a write to one run's queue appends there and changes no other queue
pub queue-put_self :
    (run_id : String) (item : Item) (bus : Bus) (q : List Item)
    → queue run_id bus ≡ some q
    → queue run_id (put run_id item bus) ≡ some (q ++ item ∷ [])
unfolding put
queue-put_self run_id item bus q h = rw (h, put) (rw (lookup-insert, eq_refl))

queue-put_eq :
    (run_id other : String) (item : Item) (bus : Bus) (q : List Item)
    → other ≡ run_id
    → queue run_id bus ≡ some q
    → queue run_id (put other item bus) ≡ some (q ++ item ∷ [])
queue-put_eq run_id other item bus q same h = rw same (queue-put_self run_id item bus q h)

queue-put_ne :
    (run_id other : String) (item : Item) (bus : Bus)
    → str_eq other run_id ≡ false
    → queue run_id (put other item bus) ≡ queue run_id bus
unfolding put
queue-put_ne run_id other item bus n = elim (Option-cases (lookup other bus.queues)) [
  | inl e ↦ rw (e, put)
  | inr (q, e) ↦ rw (e, put) (rw (lookup-insert, n))
]

abbrev pub of_run : String → Event → Bool
of_run run_id e = str_eq e.run_id run_id

queue-publish_self :
    (run_id : String) (e : Event) (bus : Bus) (q : List Item)
    → of_run run_id e ≡ true
    → queue run_id bus ≡ some q
    → queue run_id (publish e bus) ≡ some (q ++ event e ∷ [])
unfolding publish
queue-publish_self run_id e bus q mine h =
    queue-put_eq run_id e.run_id (event e) _ q ((eq_iff e.run_id run_id).0 mine) h

queue-publish_ne :
    (run_id : String) (e : Event) (bus : Bus)
    → of_run run_id e ≡ false
    → queue run_id (publish e bus) ≡ queue run_id bus
unfolding publish
queue-publish_ne run_id e bus n = queue-put_ne run_id e.run_id (event e) _ n

pub publish_all-queue :
    (run_id : String) (es : List Event) (bus : Bus) (q : List Item)
    → queue run_id bus ≡ some q
    → queue run_id (publish_all es bus) ≡ some (q ++ map event (keep (of_run run_id) es))
unfolding publish_all
publish_all-queue run_id [] bus q h = rw (append-nil q) h
publish_all-queue run_id (e ∷ es) bus q h = elim (Bool-cases (of_run run_id e)) [
  | inl mine ↦
      publish_all-queue run_id es (publish e bus) (q ++ event e ∷ [])
        (queue-publish_self run_id e bus q mine h)
      ∙ ap some (
          append_assoc q (event e ∷ []) _
          ∙ ap (λ l. q ++ map event l) (sym (keep_pass (of_run run_id) e es mine)))
  | inr other ↦
      publish_all-queue run_id es (publish e bus) q (queue-publish_ne run_id e bus other ∙ h)
      ∙ ap some (ap (λ l. q ++ map event l) (sym (keep_drop (of_run run_id) e es other)))
]

pub queue-create_fresh :
    (run_id : String) (bus : Bus)
    → queue run_id bus ≡ none
    → queue run_id (create_run_queue run_id bus) ≡ some []
unfolding create_run_queue
queue-create_fresh run_id bus h = rw (h, create_run_queue) (rw (lookup-insert, eq_refl))

create_existing :
    (run_id : String) (bus : Bus) (q : List Item)
    → queue run_id bus ≡ some q
    → create_run_queue run_id bus ≡ bus
unfolding create_run_queue
create_existing run_id bus q h = rw (h, create_run_queue)

-- While a run has a queue, its queue receives every event of that run, in the order of their
-- publication, none twice and none of another run; asking for the queue again in between loses none
-- of them; and the end of the run is the last item.
pub run_queue_lem :
    (run_id : String) (before after : List Event) (bus : Bus)
    → queue run_id bus ≡ none
    → queue run_id (
        end_run run_id (
          publish_all after
            (create_run_queue run_id (publish_all before (create_run_queue run_id bus)))))
      ≡ some (map event (keep (of_run run_id) (before ++ after)) ++ finished ∷ [])
unfolding end_run
run_queue_lem run_id before after bus fresh =
    let mine = of_run run_id in
    let early =
      publish_all-queue run_id before (create_run_queue run_id bus) []
        (queue-create_fresh run_id bus fresh) in
    let again = create_existing run_id (publish_all before (create_run_queue run_id bus)) _ early in
    rw again (
      queue-put_self run_id finished _ _ (
        rw (keep-append mine before after, map-append)
          (publish_all-queue run_id after (publish_all before (create_run_queue run_id bus)) _
            early)))
