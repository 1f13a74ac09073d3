-- ===== src/Processor/Episode/Counter.antt =====
-- Waiting in an episode, and the counter of rollbacks.
use shinzo_generator_client.Prelude.{
  List, [], ◌∷◌, Bool, true, ◌||◌, ◌&&◌, Bool-cases, inl, inr, leb, str_eq, Option, none, some,
  Result, ok, err,
}
use shinzo_generator_client.Processor.Types.{BlockResult, RollbackPoint}
use shinzo_generator_client.Processor.WalkBack.{WalkError}
use shinzo_generator_client.Processor.Run.{Run, ReorgEpisode, StoreCompletion, is_some}
use shinzo_generator_client.Processor.Apply.{apply_completion}
use shinzo_generator_client.Processor.Apply.Counter.{
  Guards, Counted, either, apply_completion-Counted,
}
use shinzo_generator_client.Processor.Episode.{
  EpisodeEnv, Refetch, refetched, refetch_failed, drain_in_flight_stores, current, walk_back,
  usable, max_gap_refills_per_wait, finish, finalize_episode, open_stale_episode, reanchor_episode,
  refill_failed, episode_round, resolve_with, resolve_episode_item, with_refill,
}

module _ (n : Guards) where
  drain-Counted :
      (suppress : Bool) (in_flight : List StoreCompletion) (r : Run)
      → Counted n r
      → Counted n (drain_in_flight_stores suppress in_flight r)
  unfolding drain_in_flight_stores Counted
  drain-Counted suppress [] r = (λ h. h)
  drain-Counted suppress (c ∷ in_flight) r = λ h.
      drain-Counted suppress in_flight (apply_completion (λ _ s. s) c suppress r)
        (apply_completion-Counted n (λ _ s. s) (λ _ s. λ k. k) c suppress r h)

  finish-Counted :
      (ep : ReorgEpisode) (confirmed : Option BlockResult) (cancelled : Bool)
      (w : Result WalkError RollbackPoint) (r : Run)
      → Counted n r
      → Counted n (finish ep confirmed cancelled w r)
  unfolding finish Counted
  finish-Counted ep confirmed cancelled (ok p) r = (λ h. h)
  finish-Counted ep confirmed cancelled (err e) r = either n cancelled r _ _ (λ h. h) (λ h. h)

  finalize_episode-Counted :
      (env : EpisodeEnv) (ep : ReorgEpisode) (confirmed : Option BlockResult) (r : Run)
      → Counted n r
      → Counted n (finalize_episode env ep confirmed r)
  unfolding finalize_episode Counted
  finalize_episode-Counted env ep confirmed r =
      let drained = drain_in_flight_stores ep.stale_pinned env.in_flight r in
      let now = current ep drained.episode in
      λ h.
        either n (drained.cancelled || env.cancelled_in_drain) drained _ _ (λ k. k)
          (finish-Counted now confirmed env.cancelled_in_walk (walk_back env.walk_env now) drained)
          (drain-Counted ep.stale_pinned env.in_flight r h)

  pub open_stale_episode-Counted :
      (env : EpisodeEnv) (item : BlockResult) (r : Run)
      → Counted n r
      → Counted n (open_stale_episode env item r)
  unfolding open_stale_episode Counted
  open_stale_episode-Counted env item r =
      let ep : ReorgEpisode = record {
        base_height = item.block_num;
        base_parent_hash = "";
        last_parked_hash = "";
        rewalks = 0;
        gap_refills = 0;
        stale_pinned = true;
        stale_top_height = item.block_num;
        stale_top_hash = item.hash;
      } in
      finalize_episode-Counted env ep none (record r { episode = some ep })

  reanchor_episode-Counted :
      (ep : ReorgEpisode) (item : BlockResult) (r : Run)
      → Counted n r
      → Counted n (reanchor_episode ep item r)
  unfolding reanchor_episode Counted
  reanchor_episode-Counted ep item r = either n _ r _ _ (λ h. h) (λ h. h)

  refill_failed-Counted :
      (ep : ReorgEpisode) (item : BlockResult) (cancelled : Bool) (r : Run)
      → Counted n r
      → Counted n (refill_failed ep item cancelled (with_refill ep r))
  unfolding refill_failed Counted
  refill_failed-Counted ep item cancelled r = either n cancelled r _ _ (λ h. h) (λ h. h)

  episode_round-Counted :
      (env : EpisodeEnv) (o : Option ReorgEpisode) (item : BlockResult) (r : Run)
      (again : ReorgEpisode → Run)
      → ((ep : ReorgEpisode) → Counted n r → Counted n (again ep))
      → Counted n r
      → Counted n (episode_round env o item r again)
  unfolding episode_round Counted
  episode_round-Counted env none item r again rest = (λ h. h)
  episode_round-Counted env (some ep) item r again rest =
      elim (Bool-cases (is_some r.rollback_point || r.cancelled)) [
        | inl over ↦ rw over (λ h. h)
        | inr on ↦ elim (Bool-cases (usable item && str_eq item.parent_hash ep.last_parked_hash)) [
          | inl chained ↦ rw (on, chained) (finalize_episode-Counted env ep (some item) r)
          | inr not_chained ↦ elim (Bool-cases (usable item)) [
            | inl can_use ↦ rw (on, not_chained, can_use) (reanchor_episode-Counted ep item r)
            | inr useless ↦ elim (Bool-cases (leb max_gap_refills_per_wait ep.gap_refills)) [
              | inl full ↦ rw (on, not_chained, useless, full) (λ h. h)
              | inr room ↦ rw (on, not_chained, useless, room) (rest ep)
            ]
          ]
        ]
      ]

  resolve_with-Counted :
      (env : EpisodeEnv) (refetches : List Refetch) (item : BlockResult) (r : Run)
      → Counted n r
      → Counted n (resolve_with env refetches item r)
  unfolding resolve_with Counted
  resolve_with-Counted env [] item r = episode_round-Counted env r.episode item r _ (λ ep. (λ h. h))
  resolve_with-Counted env (refetch_failed cancelled ∷ more) item r =
      episode_round-Counted env r.episode item r _ (λ ep. refill_failed-Counted ep item cancelled r)
  resolve_with-Counted env (refetched fresh ∷ more) item r =
      episode_round-Counted env r.episode item r _
        (λ ep. resolve_with-Counted env more fresh (with_refill ep r))

  pub resolve_episode_item-Counted :
      (env : EpisodeEnv) (item : BlockResult) (r : Run)
      → Counted n r
      → Counted n (resolve_episode_item env item r)
  unfolding resolve_episode_item Counted
  resolve_episode_item-Counted env item r = resolve_with-Counted env env.refetches item r
