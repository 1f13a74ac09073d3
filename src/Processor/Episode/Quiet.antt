-- ===== src/Processor/Episode/Quiet.antt =====
-- Waiting in an episode, and the callbacks.
use shinzo_generator_client.Prelude.{
  refl, List, [], ◌∷◌, Bool, true, false, ◌||◌, ◌&&◌, Option, none, some, Result, ok, err,
  Bool-cases, inl, inr, arith, leb, str_eq,
}
use shinzo_generator_client.Processor.Types.{BlockResult, RollbackPoint}
use shinzo_generator_client.Processor.WalkBack.{WalkError}
use shinzo_generator_client.Processor.Run.{Run, ReorgEpisode, StoreCompletion, is_some}
use shinzo_generator_client.Processor.Apply.Ordered.{
  IsOrdered, Quiet, Quiet-refl, Quiet-trans, Below-le, apply_completion-IsOrdered,
  apply_completion-Quiet,
}
use shinzo_generator_client.Processor.Episode.{
  EpisodeEnv, Refetch, refetched, refetch_failed, drain_in_flight_stores, current, walk_back,
  finish, finalize_episode, open_stale_episode, reanchor_episode, refill_failed, usable,
  episode_round, resolve_with, resolve_episode_item, with_refill, max_gap_refills_per_wait,
  max_rewalks_per_episode,
}

drain-Quiet :
    (in_flight : List StoreCompletion) (r : Run) → Quiet r (drain_in_flight_stores true in_flight r)
unfolding drain_in_flight_stores
drain-Quiet [] r = Quiet-refl r
drain-Quiet (c ∷ in_flight) r =
    Quiet-trans (apply_completion-Quiet (λ _ s. s) (λ _ s. Quiet-refl s) c r)
      (drain-Quiet in_flight _)

drain-IsOrdered :
    (suppress : Bool) (in_flight : List StoreCompletion) (r : Run)
    → IsOrdered r
    → IsOrdered (drain_in_flight_stores suppress in_flight r)
unfolding drain_in_flight_stores
drain-IsOrdered suppress [] r h = h
drain-IsOrdered suppress (c ∷ in_flight) r h =
    drain-IsOrdered suppress in_flight _
      (apply_completion-IsOrdered (λ _ s. s) (λ _ s. Quiet-refl s) c suppress r h)

finish-Quiet :
    (ep : ReorgEpisode) (confirmed : Option BlockResult) (cancelled : Bool)
    (w : Result WalkError RollbackPoint) (r : Run)
    → Quiet r (finish ep confirmed cancelled w r)
unfolding finish
finish-Quiet ep confirmed cancelled (ok p) r = record {
  same_callbacks = refl;
  onward = λ k. (omega arith, k);
}
finish-Quiet ep confirmed true (err e) r = record {
  same_callbacks = refl;
  onward = λ k. (omega arith, k);
}
finish-Quiet ep confirmed false (err e) r = record {
  same_callbacks = refl;
  onward = λ k. (omega arith, k);
}

-- what follows the drain is quiet
finalize_episode-after_drain :
    (env : EpisodeEnv) (ep : ReorgEpisode) (confirmed : Option BlockResult) (r : Run)
    → Quiet
        (drain_in_flight_stores ep.stale_pinned env.in_flight r)
        (finalize_episode env ep confirmed r)
unfolding finalize_episode
finalize_episode-after_drain env ep confirmed r =
    let drained = drain_in_flight_stores ep.stale_pinned env.in_flight r in
    let now = current ep drained.episode in
    elim (Bool-cases (drained.cancelled || env.cancelled_in_drain)) [
      | inl over ↦ rw over (record { same_callbacks = refl; onward = λ k. (omega arith, k) })
      | inr on ↦
          rw on
            (finish-Quiet now confirmed env.cancelled_in_walk (walk_back env.walk_env now) drained)
    ]

pub open_stale_episode-Quiet :
    (env : EpisodeEnv) (item : BlockResult) (r : Run) → Quiet r (open_stale_episode env item r)
unfolding open_stale_episode
open_stale_episode-Quiet env item r =
    Quiet-trans (record { same_callbacks = refl; onward = λ k. (omega arith, k) })
      (Quiet-trans (drain-Quiet env.in_flight _) (finalize_episode-after_drain env _ none _))

Quiet-IsOrdered : {r r' : Run} → Quiet r r' → IsOrdered r → IsOrdered r'
Quiet-IsOrdered {r} {r'} q h =
    let (le, k) = q.onward h.keyed in
    record {
      callbacks =
          Below-le r.apply_cursor r'.apply_cursor r'.processed le (rw q.same_callbacks h.callbacks);
      keyed = k;
    }

finalize_episode-IsOrdered :
    (env : EpisodeEnv) (ep : ReorgEpisode) (confirmed : Option BlockResult) (r : Run)
    → IsOrdered r
    → IsOrdered (finalize_episode env ep confirmed r)
finalize_episode-IsOrdered env ep confirmed r h =
    Quiet-IsOrdered (finalize_episode-after_drain env ep confirmed r)
      (drain-IsOrdered ep.stale_pinned env.in_flight r h)

reanchor_episode-Quiet :
    (ep : ReorgEpisode) (item : BlockResult) (r : Run) → Quiet r (reanchor_episode ep item r)
unfolding reanchor_episode
reanchor_episode-Quiet ep item r = elim (Bool-cases (leb max_rewalks_per_episode ep.rewalks)) [
  | inl over ↦ rw over (record { same_callbacks = refl; onward = λ k. (omega arith, k) })
  | inr on ↦ rw on (record { same_callbacks = refl; onward = λ k. (omega arith, k) })
]

refill_failed-Quiet :
    (ep : ReorgEpisode) (item : BlockResult) (cancelled : Bool) (r : Run)
    → Quiet r (refill_failed ep item cancelled (with_refill ep r))
unfolding refill_failed
refill_failed-Quiet ep item true r = record {
  same_callbacks = refl;
  onward = λ k. (omega arith, k);
}
refill_failed-Quiet ep item false r = record {
  same_callbacks = refl;
  onward = λ k. (omega arith, k);
}

episode_round-IsOrdered :
    (env : EpisodeEnv) (o : Option ReorgEpisode) (item : BlockResult) (r : Run)
    (again : ReorgEpisode → Run)
    → IsOrdered r
    → ((ep : ReorgEpisode) → IsOrdered (again ep))
    → IsOrdered (episode_round env o item r again)
unfolding episode_round
episode_round-IsOrdered env none item r again h rest = h
episode_round-IsOrdered env (some ep) item r again h rest =
    elim (Bool-cases (is_some r.rollback_point || r.cancelled)) [
      | inl over ↦ rw over h
      | inr on ↦ elim (Bool-cases (usable item && str_eq item.parent_hash ep.last_parked_hash)) [
        | inl chained ↦ rw (on, chained) (finalize_episode-IsOrdered env ep (some item) r h)
        | inr not_chained ↦ elim (Bool-cases (usable item)) [
          | inl can_use ↦
              rw (on, not_chained, can_use) (Quiet-IsOrdered (reanchor_episode-Quiet ep item r) h)
          | inr useless ↦ elim (Bool-cases (leb max_gap_refills_per_wait ep.gap_refills)) [
            | inl full ↦
                rw (on, not_chained, useless, full)
                  (record { callbacks = h.callbacks; keyed = h.keyed })
            | inr room ↦ rw (on, not_chained, useless, room) (rest ep)
          ]
        ]
      ]
    ]

resolve_with-IsOrdered :
    (env : EpisodeEnv) (refetches : List Refetch) (item : BlockResult) (r : Run)
    → IsOrdered r
    → IsOrdered (resolve_with env refetches item r)
unfolding resolve_with
resolve_with-IsOrdered env [] item r h =
    episode_round-IsOrdered env r.episode item r _ h
      (λ ep. record { callbacks = h.callbacks; keyed = h.keyed })
resolve_with-IsOrdered env (refetch_failed cancelled ∷ more) item r h =
    episode_round-IsOrdered env r.episode item r _ h
      (λ ep. Quiet-IsOrdered (refill_failed-Quiet ep item cancelled r) h)
resolve_with-IsOrdered env (refetched fresh ∷ more) item r h =
    episode_round-IsOrdered env r.episode item r _ h (λ ep.
      resolve_with-IsOrdered env more fresh (with_refill ep r)
        (record { callbacks = h.callbacks; keyed = h.keyed }))

pub resolve_episode_item-IsOrdered :
    (env : EpisodeEnv) (item : BlockResult) (r : Run)
    → IsOrdered r
    → IsOrdered (resolve_episode_item env item r)
unfolding resolve_episode_item
resolve_episode_item-IsOrdered env item r h = resolve_with-IsOrdered env env.refetches item r h
