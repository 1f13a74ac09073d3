-- ===== src/Processor/Episode/Frame.antt =====
-- Waiting in an episode, and the fields of the ordered check.
use shinzo_generator_client.Prelude.{
  ◌≡◌, refl, ◌∙◌, List, [], ◌∷◌, Bool, true, ◌||◌, ◌&&◌, Bool-cases, inl, inr, leb, str_eq, Option,
  none, some, Result, ok, err,
}
use shinzo_generator_client.Processor.Types.{BlockResult, RollbackPoint}
use shinzo_generator_client.Processor.WalkBack.{WalkError}
use shinzo_generator_client.Processor.Run.{Run, ReorgEpisode, StoreCompletion, is_some}
use shinzo_generator_client.Processor.Apply.{apply_completion}
use shinzo_generator_client.Processor.Apply.Frame.{check_of, either, apply_completion-check}
use shinzo_generator_client.Processor.Episode.{
  EpisodeEnv, Refetch, refetched, refetch_failed, drain_in_flight_stores, current, walk_back,
  usable, max_gap_refills_per_wait, finish, finalize_episode, open_stale_episode, reanchor_episode,
  refill_failed, episode_round, resolve_with, resolve_episode_item, with_refill,
}

drain-check :
    (suppress : Bool) (in_flight : List StoreCompletion) (r : Run)
    → check_of (drain_in_flight_stores suppress in_flight r) ≡ check_of r
unfolding drain_in_flight_stores check_of
drain-check suppress [] r = refl
drain-check suppress (c ∷ in_flight) r =
    drain-check suppress in_flight (apply_completion (λ _ s. s) c suppress r)
    ∙ apply_completion-check (λ _ s. s) (λ _ s. refl) c suppress r

finish-check :
    (ep : ReorgEpisode) (confirmed : Option BlockResult) (cancelled : Bool)
    (w : Result WalkError RollbackPoint) (r : Run)
    → check_of (finish ep confirmed cancelled w r) ≡ check_of r
unfolding finish check_of
finish-check ep confirmed cancelled (ok p) r = refl
finish-check ep confirmed cancelled (err e) r = either cancelled _ _ refl refl

finalize_episode-check :
    (env : EpisodeEnv) (ep : ReorgEpisode) (confirmed : Option BlockResult) (r : Run)
    → check_of (finalize_episode env ep confirmed r) ≡ check_of r
unfolding finalize_episode check_of
finalize_episode-check env ep confirmed r =
    let drained = drain_in_flight_stores ep.stale_pinned env.in_flight r in
    let now = current ep drained.episode in
    either (drained.cancelled || env.cancelled_in_drain) _ _ refl
      (finish-check now confirmed env.cancelled_in_walk (walk_back env.walk_env now) drained)
    ∙ drain-check ep.stale_pinned env.in_flight r

pub open_stale_episode-check :
    (env : EpisodeEnv) (item : BlockResult) (r : Run)
    → check_of (open_stale_episode env item r) ≡ check_of r
unfolding open_stale_episode check_of
open_stale_episode-check env item r =
    let ep : ReorgEpisode = record {
      base_height = item.block_num;
      base_parent_hash = "";
      last_parked_hash = "";
      rewalks = 0;
      gap_refills = 0;
      stale_pinned = true;
      stale_top_height = item.block_num;
      stale_top_hash = item.hash;
    } in
    finalize_episode-check env ep none (record r { episode = some ep })

reanchor_episode-check :
    (ep : ReorgEpisode) (item : BlockResult) (r : Run)
    → check_of (reanchor_episode ep item r) ≡ check_of r
unfolding reanchor_episode check_of
reanchor_episode-check ep item r = either _ _ _ refl refl

refill_failed-check :
    (ep : ReorgEpisode) (item : BlockResult) (cancelled : Bool) (r : Run)
    → check_of (refill_failed ep item cancelled (with_refill ep r)) ≡ check_of r
unfolding refill_failed check_of
refill_failed-check ep item cancelled r = either cancelled _ _ refl refl

episode_round-check :
    (env : EpisodeEnv) (o : Option ReorgEpisode) (item : BlockResult) (r : Run)
    (again : ReorgEpisode → Run)
    → ((ep : ReorgEpisode) → check_of (again ep) ≡ check_of r)
    → check_of (episode_round env o item r again) ≡ check_of r
unfolding episode_round check_of
episode_round-check env none item r again rest = refl
episode_round-check env (some ep) item r again rest =
    elim (Bool-cases (is_some r.rollback_point || r.cancelled)) [
      | inl over ↦ rw over refl
      | inr on ↦ elim (Bool-cases (usable item && str_eq item.parent_hash ep.last_parked_hash)) [
        | inl chained ↦ rw (on, chained) (finalize_episode-check env ep (some item) r)
        | inr not_chained ↦ elim (Bool-cases (usable item)) [
          | inl can_use ↦ rw (on, not_chained, can_use) (reanchor_episode-check ep item r)
          | inr useless ↦ elim (Bool-cases (leb max_gap_refills_per_wait ep.gap_refills)) [
            | inl full ↦ rw (on, not_chained, useless, full) refl
            | inr room ↦ rw (on, not_chained, useless, room) (rest ep)
          ]
        ]
      ]
    ]

resolve_with-check :
    (env : EpisodeEnv) (refetches : List Refetch) (item : BlockResult) (r : Run)
    → check_of (resolve_with env refetches item r) ≡ check_of r
unfolding resolve_with check_of
resolve_with-check env [] item r = episode_round-check env r.episode item r _ (λ ep. refl)
resolve_with-check env (refetch_failed cancelled ∷ more) item r =
    episode_round-check env r.episode item r _ (λ ep. refill_failed-check ep item cancelled r)
resolve_with-check env (refetched fresh ∷ more) item r =
    episode_round-check env r.episode item r _
      (λ ep. resolve_with-check env more fresh (with_refill ep r))

pub resolve_episode_item-check :
    (env : EpisodeEnv) (item : BlockResult) (r : Run)
    → check_of (resolve_episode_item env item r) ≡ check_of r
unfolding resolve_episode_item check_of
resolve_episode_item-check env item r = resolve_with-check env env.refetches item r
