-- ===== src/Processor/Apply/Frame.antt =====
-- Applying completions, and the fields of the ordered check.
use shinzo_generator_client.Prelude.{
  ℕ, ◌≡◌, refl, ◌∙◌, String, List, [], ◌∷◌, Bool, true, false, ◌||◌, Option, none, some,
  if◌then◌else◌,
}
use shinzo_generator_client.Prelude.Heights.{Heights, store}
use shinzo_generator_client.Processor.Types.{BlockResult, ReorgSignal}
use shinzo_generator_client.Processor.Run.{
  Run, ReorgEpisode, StoreCompletion, ErrorText, fail_run, apply_commit,
}
use shinzo_generator_client.Processor.Apply.{
  buffer_of, with_buffer, collect_ready_completions, ended, apply_failure, apply_outcome,
  apply_one_completion, apply_batch, apply_completion, raise_stale_top, stale_failure,
}

-- the fields of a run that the ordered check reads and writes
pub record Checking : Type 0 where
  pub last_checked_end : ℕ
  pub last_checked_hash : String
  pub next_to_commit : ℕ
  pub pending : Heights BlockResult
  pub dispatched : List BlockResult

unfoldable pub check_of : Run → Checking
check_of r = record {
  last_checked_end = r.last_checked_end;
  last_checked_hash = r.last_checked_hash;
  next_to_commit = r.next_to_commit;
  pending = r.pending;
  dispatched = r.dispatched;
}

pub either :
    (b : Bool) (r s : Run) {c : Checking}
    → check_of r ≡ c
    → check_of s ≡ c
    → check_of (if b then r else s) ≡ c
either true r s p q = p
either false r s p q = q

module _ (open_stale : BlockResult → Run → Run)
    (frame : (item : BlockResult) (r : Run) → check_of (open_stale item r) ≡ check_of r) where
  stale_failure-check :
      (item : BlockResult) (o : Option ReorgEpisode) (r : Run)
      → check_of (stale_failure open_stale item o r) ≡ check_of r
  unfolding stale_failure raise_stale_top check_of
  stale_failure-check item none r = frame item r
  stale_failure-check item (some ep) r = either _ _ _ refl refl

  apply_failure-check :
      (item : BlockResult) (e : ErrorText) (stale : Option ReorgSignal) (r : Run)
      → check_of (apply_failure open_stale item e stale r) ≡ check_of r
  unfolding apply_failure fail_run check_of
  apply_failure-check item e none r = either e.document_deleted _ _ refl refl
  apply_failure-check item e (some s) r =
      either e.document_deleted _ _ refl
        (either (ended r) _ _ refl (stale_failure-check item r.episode r))

  apply_outcome-check :
      (o : Option ErrorText) (c : StoreCompletion) (suppress : Bool) (r : Run)
      → check_of (apply_outcome open_stale o c suppress r) ≡ check_of r
  unfolding apply_outcome apply_commit check_of
  apply_outcome-check (some e) c suppress r = apply_failure-check c.item e c.stale r
  apply_outcome-check none c suppress r = either suppress _ _ refl refl

  apply_batch-check :
      (batch : List StoreCompletion) (suppress : Bool) (r : Run)
      → check_of (apply_batch open_stale batch suppress r) ≡ check_of r
  unfolding apply_batch apply_one_completion check_of
  apply_batch-check [] suppress r = refl
  apply_batch-check (c ∷ batch) suppress r =
      apply_batch-check batch suppress (apply_one_completion open_stale c (suppress || ended r) r)
      ∙ apply_outcome-check c.store_error c (suppress || ended r) r

  pub apply_completion-check :
      (c : StoreCompletion) (suppress : Bool) (r : Run)
      → check_of (apply_completion open_stale c suppress r) ≡ check_of r
  unfolding apply_completion check_of
  apply_completion-check c suppress r =
      let parked = record r {
        reorder_completions = store c.item.block_num c r.reorder_completions;
      } in
      let (b, batch) = collect_ready_completions (buffer_of parked) in
      apply_batch-check batch suppress (with_buffer b parked)
