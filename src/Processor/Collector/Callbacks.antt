-- ===== src/Processor/Collector/Callbacks.antt =====
-- The callback contract of `ProcessBlocks`.
use shinzo_generator_client.Prelude.{
  ℕ, String, List, [], ◌∷◌, false, ◌||◌, not, Option, none, some, Bool-cases, inl, inr,
}
use shinzo_generator_client.Prelude.Heights.{Heights, find}
use shinzo_generator_client.Processor.Types.{BlockResult, ReorgSignal}
use shinzo_generator_client.Processor.Run.{Run, is_some, start_run, pop_pending, pop_found}
use shinzo_generator_client.Processor.Check.{
  GapQuery, checked_for_dispatch, after_continuity, after_gap, popped_gap_signal,
}
use shinzo_generator_client.Processor.Apply.Ordered.{IsOrdered, Below, apply_completion-IsOrdered}
use shinzo_generator_client.Processor.Episode.{EpisodeEnv}
use shinzo_generator_client.Processor.Episode.Quiet.{
  open_stale_episode-Quiet, resolve_episode_item-IsOrdered,
}
use shinzo_generator_client.Processor.Collector.{
  Event, result_arrived, pop, store_completed, context_cancelled, take_popped, collect_event,
  collect_events,
}

after_gap-IsOrdered :
    (s : Option ReorgSignal) (next : BlockResult) (r : Run)
    → IsOrdered r
    → IsOrdered (after_gap s next r)
unfolding after_gap
after_gap-IsOrdered none next r h = record { callbacks = h.callbacks; keyed = h.keyed }
after_gap-IsOrdered (some s) next r h = record { callbacks = h.callbacks; keyed = h.keyed }

after_continuity-IsOrdered :
    (s : Option ReorgSignal) (q : GapQuery) (next : BlockResult) (r : Run)
    → IsOrdered r
    → IsOrdered (after_continuity s q next r)
unfolding after_continuity
after_continuity-IsOrdered (some s) q next r h = after_gap-IsOrdered (some s) next r h
after_continuity-IsOrdered none q next r h =
    after_gap-IsOrdered (popped_gap_signal q r next) next r h

checked_for_dispatch-IsOrdered :
    (q : GapQuery) (next : BlockResult) (r : Run)
    → IsOrdered r
    → IsOrdered (checked_for_dispatch q next r)
unfolding checked_for_dispatch
checked_for_dispatch-IsOrdered q next r h = elim (Bool-cases (not next.success)) [
  | inl failed ↦ rw failed (record { callbacks = h.callbacks; keyed = h.keyed })
  | inr fine ↦ rw fine (after_continuity-IsOrdered _ q next r h)
]

take_popped-IsOrdered :
    (q : GapQuery) (env : EpisodeEnv) (p : Run × Option (Option BlockResult))
    → IsOrdered p.0
    → IsOrdered (take_popped q env p)
unfolding take_popped
take_popped-IsOrdered q env (r, none) h = h
take_popped-IsOrdered q env (r, some none) h = h
take_popped-IsOrdered q env (r, some (some next)) h = elim (Bool-cases (is_some r.episode)) [
  | inl waits ↦ rw waits (resolve_episode_item-IsOrdered env next r h)
  | inr runs ↦ rw runs (checked_for_dispatch-IsOrdered q next r h)
]

pop_pending-IsOrdered : (r : Run) → IsOrdered r → IsOrdered (pop_pending r).0
unfolding pop_pending
pop_pending-IsOrdered r h = found (find r.next_to_commit r.pending)
  where
    found : (o : Option BlockResult) → IsOrdered (pop_found o r).0
    found none = h
    found (some next) = elim (Bool-cases (is_some r.rollback_point || r.cancelled)) [
      | inl over ↦ rw over (record { callbacks = h.callbacks; keyed = h.keyed })
      | inr on ↦ rw on (record { callbacks = h.callbacks; keyed = h.keyed })
    ]

collect_event-IsOrdered : (e : Event) (r : Run) → IsOrdered r → IsOrdered (collect_event e r)
unfolding collect_event
collect_event-IsOrdered (result_arrived result) r h = record {
  callbacks = h.callbacks;
  keyed = h.keyed;
}
collect_event-IsOrdered (pop q env) r h =
    take_popped-IsOrdered q env (pop_pending r) (pop_pending-IsOrdered r h)
collect_event-IsOrdered (store_completed c env) r h =
    apply_completion-IsOrdered _ (open_stale_episode-Quiet env) c false r h
collect_event-IsOrdered context_cancelled r h = record { callbacks = h.callbacks; keyed = h.keyed }

collect_events-IsOrdered :
    (es : List Event) (r : Run) → IsOrdered r → IsOrdered (collect_events es r)
unfolding collect_events
collect_events-IsOrdered [] r h = h
collect_events-IsOrdered (e ∷ es) r h =
    collect_events-IsOrdered es _ (collect_event-IsOrdered e r h)

-- Whatever arrives and in whatever order, with reorgs, failed stores and cancellations among it:
-- the callbacks of a run are for strictly ascending heights, each height at most once, and below
-- the apply cursor.
pub callbacks_ascend :
    (events : List Event) (start : ℕ) (seed : String) (rollbacks : ℕ) (heights : Heights ℕ)
    → let r = collect_events events (start_run start seed rollbacks heights) in
      Below r.apply_cursor r.processed
callbacks_ascend events start seed rollbacks heights =
    (collect_events-IsOrdered events (start_run start seed rollbacks heights)
      (unfold start_run in record { callbacks = tt; keyed = tt })).callbacks
