-- ===== src/Processor/Collector.antt =====
-- The collector loop of `collectResults`, as a step over the events that its `select` receives. An
-- item that passed the check may still be abandoned before the pool takes it.
pub mod Callbacks
pub mod Chained
pub mod Counter
use shinzo_generator_client.Prelude.{
  ℕ, String, List, [], ◌∷◌, Bool, true, false, Option, none, some, if◌then◌else◌,
}
use shinzo_generator_client.Processor.Types.{BlockResult}
use shinzo_generator_client.Processor.Run.{
  Run, StoreCompletion, is_some, receive_result, pop_pending,
}
use shinzo_generator_client.Processor.Check.{GapQuery, checked_for_dispatch}
use shinzo_generator_client.Processor.Apply.{apply_completion}
use shinzo_generator_client.Processor.Episode.{EpisodeEnv, open_stale_episode, resolve_episode_item}

-- A turn of the loop: a result arrives, the next pending result is popped, a store completes, or
-- the context is cancelled. With each comes what the environment answers during the turn.
pub data Event : Type 0 where
  result_arrived : BlockResult → Event
  pop : GapQuery → EpisodeEnv → Event
  store_completed : StoreCompletion → EpisodeEnv → Event
  context_cancelled : Event

-- a popped item is held back during an episode, and checked otherwise
take_popped : GapQuery → EpisodeEnv → Run × Option (Option BlockResult) → Run
unfolding resolve_episode_item checked_for_dispatch
take_popped q env (r, none) = r
take_popped q env (r, some none) = r
take_popped q env (r, some (some next)) =
    if is_some r.episode then resolve_episode_item env next r else checked_for_dispatch q next r

unfoldable pub collect_event : Event → Run → Run
unfolding take_popped pop_pending receive_result apply_completion open_stale_episode
collect_event (result_arrived result) r = receive_result result r
collect_event (pop q env) r = take_popped q env (pop_pending r)
collect_event (store_completed c env) r = apply_completion (open_stale_episode env) c false r
collect_event context_cancelled r = record r { cancelled = true }

unfoldable pub collect_events : List Event → Run → Run
unfolding collect_event
collect_events [] r = r
collect_events (e ∷ events) r = collect_events events (collect_event e r)
