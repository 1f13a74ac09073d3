-- ===== src/Processor/Apply/Counter.antt =====
-- Applying completions, and the counter of rollbacks.
use shinzo_generator_client.Prelude.{
  cons-ne-nil, ℕ, ◌≡◌, ◌≢◌, ◌⊎◌, inl, List, [], ◌∷◌, Bool, true, false, ◌||◌, Option, none, some,
  if◌then◌else◌,
}
use shinzo_generator_client.Prelude.Heights.{Heights, store}
use shinzo_generator_client.Processor.Types.{BlockResult, ReorgSignal}
use shinzo_generator_client.Processor.Run.{
  Run, ReorgEpisode, StoreCompletion, ErrorText, fail_run, apply_commit,
}
use shinzo_generator_client.Processor.Apply.{
  buffer_of, with_buffer, collect_ready_completions, ended, apply_failure, apply_outcome,
  apply_one_completion, apply_batch, apply_completion, raise_stale_top, stale_failure,
}

-- the counters of the rollback guards: of consecutive rollbacks, and of those to each height
abbrev pub Guards : Type 0
Guards = ℕ × Heights ℕ

-- a callback was made, or the counters of rollbacks are still `n`
unfoldable pub Counted : Guards → Run → Type 0
Counted n r = (r.processed ≢ []) ⊎ ((r.episode_rollbacks ≡ n.0) × (r.height_rollbacks ≡ n.1))

pub either :
    (n : Guards) (b : Bool) (t : Run) (r s : Run)
    → (Counted n t → Counted n r)
    → (Counted n t → Counted n s)
    → Counted n t
    → Counted n (if b then r else s)
either n true t r s p q = p
either n false t r s p q = q

module _ (n : Guards) (open_stale : BlockResult → Run → Run)
    (frame : (item : BlockResult) (r : Run) → Counted n r → Counted n (open_stale item r)) where
  stale_failure-Counted :
      (item : BlockResult) (o : Option ReorgEpisode) (r : Run)
      → Counted n r
      → Counted n (stale_failure open_stale item o r)
  unfolding stale_failure raise_stale_top Counted
  stale_failure-Counted item none r = frame item r
  stale_failure-Counted item (some ep) r = either n _ r _ _ (λ h. h) (λ h. h)

  apply_failure-Counted :
      (item : BlockResult) (e : ErrorText) (stale : Option ReorgSignal) (r : Run)
      → Counted n r
      → Counted n (apply_failure open_stale item e stale r)
  unfolding apply_failure fail_run Counted
  apply_failure-Counted item e none r = either n e.document_deleted r _ _ (λ h. h) (λ h. h)
  apply_failure-Counted item e (some s) r =
      either n e.document_deleted r _ _ (λ h. h)
        (either n (ended r) r _ _ (λ h. h) (stale_failure-Counted item r.episode r))

  apply_outcome-Counted :
      (o : Option ErrorText) (c : StoreCompletion) (suppress : Bool) (r : Run)
      → Counted n r
      → Counted n (apply_outcome open_stale o c suppress r)
  unfolding apply_outcome apply_commit Counted
  apply_outcome-Counted (some e) c suppress r = apply_failure-Counted c.item e c.stale r
  apply_outcome-Counted none c suppress r = either n suppress r _ _ (λ h. h) (λ h. inl cons-ne-nil)

  apply_batch-Counted :
      (batch : List StoreCompletion) (suppress : Bool) (r : Run)
      → Counted n r
      → Counted n (apply_batch open_stale batch suppress r)
  unfolding apply_batch apply_one_completion Counted
  apply_batch-Counted [] suppress r = (λ h. h)
  apply_batch-Counted (c ∷ batch) suppress r = λ h.
      apply_batch-Counted batch suppress (apply_one_completion open_stale c (suppress || ended r) r)
        (apply_outcome-Counted c.store_error c (suppress || ended r) r h)

  pub apply_completion-Counted :
      (c : StoreCompletion) (suppress : Bool) (r : Run)
      → Counted n r
      → Counted n (apply_completion open_stale c suppress r)
  unfolding apply_completion Counted
  apply_completion-Counted c suppress r =
      let parked = record r {
        reorder_completions = store c.item.block_num c r.reorder_completions;
      } in
      let (b, batch) = collect_ready_completions (buffer_of parked) in
      apply_batch-Counted batch suppress (with_buffer b parked)
