-- ===== src/Processor/Apply/Ordered.antt =====
-- The apply of completions and the order of the callbacks.
use shinzo_generator_client.Prelude.{
  ℕ, suc, ◌≤◌, ◌<◌, ◌≡◌, refl, sym, ◌∙◌, ◌⊎◌, List, [], ◌∷◌, Bool, true, false, ◌||◌, ◌&&◌, ltb,
  Option, none, some, Option-cases, Bool-cases, inl, inr, arith, if◌then◌else◌, subst,
}
use shinzo_generator_client.Prelude.Heights.{store, remove-KeyedBy}
use shinzo_generator_client.Processor.Types.{BlockResult, ReorgSignal}
use shinzo_generator_client.Processor.Run.{
  Run, ReorgEpisode, StoreCompletion, ErrorText, fail_run, apply_commit,
}
use shinzo_generator_client.Processor.Apply.{
  buffer_of, with_buffer, ended, collect_ready_completions, apply_failure, apply_one_completion,
  apply_batch, apply_completion, stale_failure,
}
use shinzo_generator_client.Processor.Apply.Ready.{IsKeyed, InOrder, collect_ready_completions-Pass}

-- heights below `n`, the latest first, strictly descending
abbrev pub Below : ℕ → List ℕ → Type 0
Below n [] = Unit
Below n (h ∷ hs) = (h < n) × Below h hs

-- Every callback was for a height below the cursor, each above those before it.
pub record IsOrdered (r : Run) : Type 0 where
  pub callbacks : Below r.apply_cursor r.processed
  pub keyed : IsKeyed r.reorder_completions

-- `r'` has made no callback since `r`; with keyed completions its cursor is not behind.
pub record Quiet (r r' : Run) : Type 0 where
  pub same_callbacks : r'.processed ≡ r.processed
  pub onward :
      IsKeyed r.reorder_completions
      → (r.apply_cursor ≤ r'.apply_cursor) × IsKeyed r'.reorder_completions

pub Quiet-refl : (r : Run) → Quiet r r
Quiet-refl r = record { same_callbacks = refl; onward = λ k. (omega arith, k) }

pub Quiet-trans : {r s t : Run} → Quiet r s → Quiet s t → Quiet r t
Quiet-trans p q = record {
  same_callbacks = q.same_callbacks ∙ p.same_callbacks;
  onward = λ k. let (le, k') = p.onward k in let (le', k'') = q.onward k' in (omega arith, k'');
}

pub Below-le : (m n : ℕ) (hs : List ℕ) → m ≤ n → Below m hs → Below n hs
Below-le m n [] le b = tt
Below-le m n (h ∷ hs) le b = (omega (arith, b.0), b.1)

module _ (open_stale_episode : BlockResult → Run → Run)
    (quiet : (item : BlockResult) (r : Run) → Quiet r (open_stale_episode item r)) where
  apply_failure-Quiet :
      (item : BlockResult) (e : ErrorText) (stale : Option ReorgSignal) (r : Run)
      → Quiet r (apply_failure open_stale_episode item e stale r)
  unfolding apply_failure fail_run
  apply_failure-Quiet item e stale r = elim (Bool-cases e.document_deleted) [
    | inl deleted ↦ rw deleted (record { same_callbacks = refl; onward = λ k. (omega arith, k) })
    | inr other ↦ rw other (not_deleted stale)
  ]
    where
      pinned : (ep : Option ReorgEpisode) → Quiet r (stale_failure open_stale_episode item ep r)
      pinned none = quiet item r
      pinned (some ep) =
          elim (Bool-cases (ep.stale_pinned && ltb ep.stale_top_height item.block_num)) [
            | inl up ↦ rw up (record { same_callbacks = refl; onward = λ k. (omega arith, k) })
            | inr keep ↦ rw keep (Quiet-refl r)
          ]

      not_deleted :
          (st : Option ReorgSignal)
          → Quiet r (elim st [
            | none ↦ r
            | some _ ↦ if ended r then r else stale_failure open_stale_episode item r.episode r
          ])
      not_deleted none = Quiet-refl r
      not_deleted (some signal) = elim (Bool-cases (ended r)) [
        | inl over ↦ rw over (Quiet-refl r)
        | inr open_run ↦ rw open_run (pinned r.episode)
      ]

  -- one completion: no callback, or the commit of its height
  apply_one_completion-cases :
      (c : StoreCompletion) (suppress : Bool) (r : Run)
      → Quiet r (apply_one_completion open_stale_episode c suppress r)
        ⊎ ((suppress ≡ false)
            × (apply_one_completion open_stale_episode c suppress r ≡ apply_commit c.item r))
  unfolding apply_one_completion
  apply_one_completion-cases c suppress r = elim (Option-cases c.store_error) [
    | inr (e, failed) ↦ rw failed (inl (apply_failure-Quiet c.item e c.stale r))
    | inl fine ↦ elim (Bool-cases suppress) [
      | inl held ↦ rw (fine, held) (inl (Quiet-refl r))
      | inr applies ↦ rw (fine, applies) (inr (refl, refl))
    ]
  ]

  apply_one_completion-Below :
      (c : StoreCompletion) (suppress : Bool) (r : Run)
      → Below c.item.block_num r.processed
      → IsKeyed r.reorder_completions
      → let r' = apply_one_completion open_stale_episode c suppress r in
        Below (suc c.item.block_num) r'.processed
        × (r.apply_cursor ≤ r'.apply_cursor)
        × IsKeyed r'.reorder_completions
  apply_one_completion-Below c suppress r below keyed =
      elim (apply_one_completion-cases c suppress r) [
        | inl q ↦ (
          subst (Below (suc c.item.block_num)) (sym q.same_callbacks)
              (Below-le c.item.block_num (suc c.item.block_num) r.processed (omega arith) below),
          (q.onward keyed).0,
          (q.onward keyed).1,
        )
        | inr (_, committed) ↦
            rw committed (unfold apply_commit in ((omega arith, below), omega arith, keyed))
      ]

  apply_batch-IsOrdered :
      (batch : List StoreCompletion) (suppress : Bool) (lo hi : ℕ) (r : Run)
      → InOrder lo batch hi
      → hi ≤ r.apply_cursor
      → Below lo r.processed
      → IsKeyed r.reorder_completions
      → IsOrdered (apply_batch open_stale_episode batch suppress r)
  unfolding apply_batch
  apply_batch-IsOrdered [] suppress lo hi r order le below keyed = record {
    callbacks = Below-le lo r.apply_cursor r.processed (omega arith) below;
    keyed = keyed;
  }
  apply_batch-IsOrdered (c ∷ batch) suppress lo hi r order le below keyed =
      let n = c.item.block_num in
      let (below', forward, keyed') =
        apply_one_completion-Below c (suppress || ended r) r
          (Below-le lo n r.processed order.0 below) keyed in
      apply_batch-IsOrdered batch suppress (suc n) hi _ order.1 (omega arith) below' keyed'

  pub apply_completion-IsOrdered :
      (c : StoreCompletion) (suppress : Bool) (r : Run)
      → IsOrdered r
      → IsOrdered (apply_completion open_stale_episode c suppress r)
  unfolding apply_completion
  apply_completion-IsOrdered c suppress r h =
      let parked = store c.item.block_num c r.reorder_completions in
      let parked_keyed : IsKeyed parked =
        (refl, remove-KeyedBy _ c.item.block_num r.reorder_completions h.keyed) in
      let r1 = record r { reorder_completions = parked } in
      let pass = collect_ready_completions-Pass (buffer_of r1) parked_keyed in
      apply_batch-IsOrdered _ suppress r.apply_cursor _
        (with_buffer (collect_ready_completions (buffer_of r1)).0 r1) pass.in_order (omega arith)
        h.callbacks pass.keyed

  -- A suppressed apply makes no callback.
  apply_batch-Quiet :
      (batch : List StoreCompletion) (r : Run)
      → Quiet r (apply_batch open_stale_episode batch true r)
  unfolding apply_batch
  apply_batch-Quiet [] r = Quiet-refl r
  apply_batch-Quiet (c ∷ batch) r = elim (apply_one_completion-cases c (true || ended r) r) [
    | inl q ↦ Quiet-trans q (apply_batch-Quiet batch _)
    | inr (applies, _) ↦ absurd (cc applies)
  ]

  pub apply_completion-Quiet :
      (c : StoreCompletion) (r : Run) → Quiet r (apply_completion open_stale_episode c true r)
  unfolding apply_completion
  apply_completion-Quiet c r =
      let parked = store c.item.block_num c r.reorder_completions in
      let r1 = record r { reorder_completions = parked } in
      let (b, batch) = collect_ready_completions (buffer_of r1) in
      let ready : Quiet r (with_buffer b r1) = record {
        same_callbacks = refl;
        onward = λ k.
            let pass =
              collect_ready_completions-Pass (buffer_of r1)
                (refl, remove-KeyedBy _ c.item.block_num r.reorder_completions k) in
            (pass.forward, pass.keyed);
      } in
      Quiet-trans ready (apply_batch-Quiet batch (with_buffer b r1))
