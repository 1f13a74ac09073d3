-- ===== src/Processor/Collector/Counter.antt =====
-- The counter of rollbacks over a whole run.
use shinzo_generator_client.Prelude.{
  ℕ, ◌≡◌, refl, inl, inr, false, String, List, [], ◌∷◌, Bool-cases, Option, none, some, not, ◌||◌,
}
use shinzo_generator_client.Prelude.Heights.{Heights, find}
use shinzo_generator_client.Processor.Types.{BlockResult, ReorgSignal}
use shinzo_generator_client.Processor.Run.{
  Run, is_some, start_run, pop_found, pop_pending, receive_result,
}
use shinzo_generator_client.Processor.Check.{
  GapQuery, checked_for_dispatch, after_continuity, after_gap, popped_gap_signal,
  start_reorg_episode,
}
use shinzo_generator_client.Processor.Apply.Counter.{Guards, Counted, apply_completion-Counted}
use shinzo_generator_client.Processor.Episode.{EpisodeEnv, open_stale_episode}
use shinzo_generator_client.Processor.Episode.Counter.{
  open_stale_episode-Counted, resolve_episode_item-Counted,
}
use shinzo_generator_client.Processor.Collector.{
  Event, result_arrived, pop, store_completed, context_cancelled, take_popped, collect_event,
  collect_events,
}

module _ (n : Guards) where
  after_gap-Counted :
      (s : Option ReorgSignal) (next : BlockResult) (r : Run)
      → Counted n r
      → Counted n (after_gap s next r)
  unfolding after_gap Counted
  after_gap-Counted none next r h = h
  after_gap-Counted (some s) next r h = h

  after_continuity-Counted :
      (s : Option ReorgSignal) (q : GapQuery) (next : BlockResult) (r : Run)
      → Counted n r
      → Counted n (after_continuity s q next r)
  unfolding after_continuity start_reorg_episode Counted
  after_continuity-Counted none q next r h = after_gap-Counted (popped_gap_signal q r next) next r h
  after_continuity-Counted (some s) q next r h = h

  checked_for_dispatch-Counted :
      (q : GapQuery) (next : BlockResult) (r : Run)
      → Counted n r
      → Counted n (checked_for_dispatch q next r)
  unfolding checked_for_dispatch Counted
  checked_for_dispatch-Counted q next r h = elim (Bool-cases (not next.success)) [
    | inl failed ↦ rw failed h
    | inr fine ↦ rw fine (after_continuity-Counted _ q next r h)
  ]

  take_popped-Counted :
      (q : GapQuery) (env : EpisodeEnv) (p : Run × Option (Option BlockResult))
      → Counted n p.0
      → Counted n (take_popped q env p)
  unfolding take_popped
  take_popped-Counted q env (r, none) h = h
  take_popped-Counted q env (r, some none) h = h
  take_popped-Counted q env (r, some (some next)) h = elim (Bool-cases (is_some r.episode)) [
    | inl waits ↦ rw waits (resolve_episode_item-Counted n env next r h)
    | inr runs ↦ rw runs (checked_for_dispatch-Counted q next r h)
  ]

  pop_found-Counted : (o : Option BlockResult) (r : Run) → Counted n r → Counted n (pop_found o r).0
  unfolding pop_found Counted
  pop_found-Counted none r h = h
  pop_found-Counted (some next) r h = elim (Bool-cases (is_some r.rollback_point || r.cancelled)) [
    | inl over ↦ rw over h
    | inr on ↦ rw on h
  ]

  collect_event-Counted : (e : Event) (r : Run) → Counted n r → Counted n (collect_event e r)
  unfolding collect_event pop_pending receive_result Counted
  collect_event-Counted (result_arrived result) r h = h
  collect_event-Counted (pop q env) r h =
      take_popped-Counted q env (pop_found (find r.next_to_commit r.pending) r)
        (pop_found-Counted (find r.next_to_commit r.pending) r h)
  collect_event-Counted (store_completed c env) r h =
      apply_completion-Counted n (open_stale_episode env) (open_stale_episode-Counted n env) c false
        r h
  collect_event-Counted context_cancelled r h = h

  collect_events-Counted :
      (es : List Event) (r : Run) → Counted n r → Counted n (collect_events es r)
  unfolding collect_events
  collect_events-Counted [] r h = h
  collect_events-Counted (e ∷ es) r h =
      collect_events-Counted es (collect_event e r) (collect_event-Counted e r h)

unmoved :
    (n : Guards) (r : Run)
    → Counted n r
    → r.processed ≡ []
    → (r.episode_rollbacks ≡ n.0) × (r.height_rollbacks ≡ n.1)
unfolding Counted
unmoved n r (inl called) idle = absurd (called idle)
unmoved n r (inr same) idle = same

-- a run that makes no callback ends with the counters that it started with
pub collect_events_idle :
    (es : List Event) (start : ℕ) (seed : String) (rollbacks : ℕ) (heights : Heights ℕ)
    → let r = collect_events es (start_run start seed rollbacks heights) in
      r.processed ≡ [] → (r.episode_rollbacks ≡ rollbacks) × (r.height_rollbacks ≡ heights)
collect_events_idle es start seed rollbacks heights idle =
    unmoved (rollbacks, heights) (collect_events es (start_run start seed rollbacks heights))
      (collect_events-Counted (rollbacks, heights) es (start_run start seed rollbacks heights)
        (unfold start_run Counted in inr (refl, refl)))
      idle
