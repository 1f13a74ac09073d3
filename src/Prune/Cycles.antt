-- ===== src/Prune/Cycles.antt =====
-- What a cycle of the pruner does to the queue, and where the cycles lead.
use shinzo_generator_client.Prelude.{
  ℕ, ◌+◌, ◌-◌, ◌*◌, ◌≤◌, ◌<◌, ◌≡◌, refl, sym, ◌∙◌, ◌⊎◌, inl, inr, String, List, [], ◌∷◌, ◌++◌,
  Bool-cases, Option, none, some, Result, ok, err, ltb, leb, leb→le, ltb-false→le, ltb→lt, lt→ltb,
  arith, length, subst, Bool, true, false, ◌&&◌, not, str_eq, eq_of_test, ne_of_test, ◌≢◌,
  if◌then◌else◌,
}
use Prim.Native.Nat.{min}
use native.Mathlib.Nat.{zero-mul, suc-mul}
use shinzo_generator_client.Uuid.{Bytes}
use shinzo_generator_client.Dict.{Dict}
use shinzo_generator_client.Queue.{BlockEntry, IndexerQueue, drain, len, build_drain_result}
use shinzo_generator_client.Queue.Sorted.{IsSort}
use shinzo_generator_client.Queue.Draining.{Splits, drain_lem}
use shinzo_generator_client.Prune.{
  StoreEnv, Pruner, Purge, PruneError, no_blocks, no_valid_blocks, block_range_query, doc_ids_query,
  collection_purges, range_purged, saved_queue, checkpointed, keep_of, prune_block_range,
  prune_range, filter_based_prune, purge_by_doc_ids_by_collection, purge_from_drain_result,
  purge_drained, run_indexer_queue_prune, prune_queue, run_prune, prune_loop, get_block_range,
}

-- the queue, its file and the limits stay
record Keeps (p p' : Pruner) : Type 0 where
  queue : p'.queue ≡ p.queue
  max : p'.max_blocks ≡ p.max_blocks
  per_cycle : p'.max_blocks_per_cycle ≡ p.max_blocks_per_cycle
  checkpoint : p'.checkpoint ≡ p.checkpoint

module _ (sort_strings : List String → List String) (sort : List BlockEntry → List BlockEntry) where
  prune_block_range-Keeps :
      (env : StoreEnv) (n : ℕ) (o : Option (Dict (List Bytes))) (p : Pruner)
      → Keeps p (prune_block_range sort_strings sort env n o p).0
  unfolding prune_block_range
  prune_block_range-Keeps env n none p = record {
    queue = refl;
    max = refl;
    per_cycle = refl;
    checkpoint = refl;
  }
  prune_block_range-Keeps env n (some ids) p =
      purged (purge_by_doc_ids_by_collection sort_strings sort env ids) _
    where
      purged : (purge : Purge) (e : Option PruneError) → Keeps p (range_purged n purge p e).0
      purged purge none =
          unfold range_purged in
          (record { queue = refl; max = refl; per_cycle = refl; checkpoint = refl })
      purged purge (some e) =
          unfold range_purged in
          (record { queue = refl; max = refl; per_cycle = refl; checkpoint = refl })

  prune_range-Keeps :
      (env : StoreEnv) (range : Result PruneError (ℕ × ℕ)) (p : Pruner)
      → Keeps p (prune_range sort_strings sort env range p).0
  unfolding prune_range
  prune_range-Keeps env (err no_blocks) p = record {
    queue = refl;
    max = refl;
    per_cycle = refl;
    checkpoint = refl;
  }
  prune_range-Keeps env (err no_valid_blocks) p = record {
    queue = refl;
    max = refl;
    per_cycle = refl;
    checkpoint = refl;
  }
  prune_range-Keeps env (err block_range_query) p = record {
    queue = refl;
    max = refl;
    per_cycle = refl;
    checkpoint = refl;
  }
  prune_range-Keeps env (err doc_ids_query) p = record {
    queue = refl;
    max = refl;
    per_cycle = refl;
    checkpoint = refl;
  }
  prune_range-Keeps env (err (collection_purges es)) p = record {
    queue = refl;
    max = refl;
    per_cycle = refl;
    checkpoint = refl;
  }
  prune_range-Keeps env (ok (lowest, highest)) p =
      elim (Bool-cases (leb (highest + 1 - lowest) p.max_blocks)) [
        | inl few ↦
            rw few (record { queue = refl; max = refl; per_cycle = refl; checkpoint = refl })
        | inr many ↦ rw many (prune_block_range-Keeps env _ _ p)
      ]

  filter_based_prune-Keeps :
      (env : StoreEnv) (p : Pruner) → Keeps p (filter_based_prune sort_strings sort env p).0
  unfolding filter_based_prune
  filter_based_prune-Keeps env p = prune_range-Keeps env (get_block_range env p) p

-- The queue in the file after a cycle that leaves `q'`: it is written, or it is the one from before,
-- when the `Save` failed or the queue has no path.
pub data IsSaved (env : StoreEnv) (q' : IndexerQueue) (old : Option IndexerQueue)
    : Option IndexerQueue → Type 0 where
  written : env.save_succeeds ≡ true → q'.file_path ≢ "" → IsSaved env q' old (some q')
  kept_before : (env.save_succeeds ≡ false) ⊎ (q'.file_path ≡ "") → IsSaved env q' old old

tests-IsSaved :
    (env : StoreEnv) (q' : IndexerQueue) (old : Option IndexerQueue) (works nowhere : Bool)
    → env.save_succeeds ≡ works
    → str_eq q'.file_path "" ≡ nowhere
    → IsSaved env q' old (if works && not nowhere then some q' else old)
tests-IsSaved env q' old false nowhere fails path = kept_before (inl fails)
tests-IsSaved env q' old true true works path = kept_before (inr (eq_of_test q'.file_path "" path))
tests-IsSaved env q' old true false works path = written works (ne_of_test q'.file_path "" path)

saved_queue-IsSaved :
    (env : StoreEnv) (q' : IndexerQueue) (o old old' : Option IndexerQueue)
    → o ≡ some q'
    → old' ≡ old
    → IsSaved env q' old (saved_queue env.save_succeeds o old')
unfolding saved_queue
saved_queue-IsSaved env q' o old old' has same =
    subst (λ x. IsSaved env q' old (saved_queue env.save_succeeds x old')) (sym has)
      (subst (λ x. IsSaved env q' old (saved_queue env.save_succeeds (some q') x)) (sym same)
        (tests-IsSaved env q' old env.save_succeeds (str_eq q'.file_path "") refl refl))

-- A cycle over the queue `q`: it is short and stays, or the oldest blocks leave it down to the
-- number to keep and all that they hold is purged; the queue that is left is saved if it can be.
pub record IsCycle (sort_strings : List String → List String)
    (sort : List BlockEntry → List BlockEntry) (env : StoreEnv) (q q' : IndexerQueue)
    (p p' : Pruner) : Type 0 where
  pub left : p'.queue ≡ some q'
  pub saved : IsSaved env q' p.checkpoint p'.checkpoint
  pub same_max : p'.max_blocks ≡ p.max_blocks
  pub same_per_cycle : p'.max_blocks_per_cycle ≡ p.max_blocks_per_cycle
  pub drains :
      ((length q.entries ≤ p.max_blocks) × (q' ≡ q))
      ⊎ ((p.max_blocks < length q.entries)
          × (length q'.entries ≡ keep_of (length q.entries) p)
          × ((drained : List BlockEntry) × Splits q q' drained
              × (p'.total_blocks_pruned ≡ p.total_blocks_pruned + length drained)
              × (p'.purged
                  ≡ p.purged
                    ++ (purge_by_doc_ids_by_collection sort_strings sort env
                        (build_drain_result drained
                          (length drained)
                          p.block_collection
                          p.block_sig_collection).doc_ids_by_collection).purged)))

keep_of-lt : (n : ℕ) (p : Pruner) → p.max_blocks < n → keep_of n p < n
unfolding keep_of
keep_of-lt n p lt = elim (Bool-cases (ltb 0 p.max_blocks_per_cycle)) [
  | inl bounded ↦ elim (Bool-cases (ltb p.max_blocks_per_cycle (n - p.max_blocks))) [
    | inl much ↦ rw (bounded, much) (omega (arith, ltb→lt 0 p.max_blocks_per_cycle bounded))
    | inr little ↦ rw (bounded, little) lt
  ]
  | inr unbounded ↦ rw unbounded lt
]

keep_of-min :
    (n : ℕ) (p : Pruner)
    → 0 < p.max_blocks_per_cycle
    → p.max_blocks < n
    → keep_of n p ≡ n - min (n - p.max_blocks) p.max_blocks_per_cycle
unfolding keep_of
keep_of-min n p pos lt =
    rw (lt→ltb 0 p.max_blocks_per_cycle pos)
      (elim (Bool-cases (ltb p.max_blocks_per_cycle (n - p.max_blocks))) [
        | inl much ↦ rw much (omega (arith, ltb→lt p.max_blocks_per_cycle (n - p.max_blocks) much))
        | inr little ↦
            rw little (omega (arith, ltb-false→le p.max_blocks_per_cycle (n - p.max_blocks) little))
      ])

module _ (sort_strings : List String → List String) (sort : List BlockEntry → List BlockEntry)
    (s : IsSort sort) where
  run_indexer_queue_prune-IsCycle :
      (env : StoreEnv) (p : Pruner) (q : IndexerQueue)
      → p.queue ≡ some q
      → (q' : IndexerQueue) × IsCycle sort_strings sort env q q' p
          (run_indexer_queue_prune sort_strings sort env q p).0
  unfolding run_indexer_queue_prune checkpointed purge_drained purge_from_drain_result len
      build_drain_result
  run_indexer_queue_prune-IsCycle env p q has = elim (Bool-cases (leb (len q) p.max_blocks)) [
    | inl few ↦
        let keeps = filter_based_prune-Keeps sort_strings sort env p in
        (
          q,
          rw few (record {
            left = keeps.queue ∙ has;
            saved = saved_queue-IsSaved env q _ _ _ (keeps.queue ∙ has) keeps.checkpoint;
            same_max = keeps.max;
            same_per_cycle = keeps.per_cycle;
            drains = inl (leb→le (length q.entries) p.max_blocks few, refl);
          }),
        )
    | inr many ↦
        let lt : p.max_blocks < length q.entries = ground arith in
        elim (drain_lem sort s (keep_of (length q.entries) p) p.block_collection
          p.block_sig_collection q) [
            | inl (le, _, _) ↦ absurd (omega (arith, keep_of-lt (length q.entries) p lt))
            | inr (drained, result, splits, kept, sum) ↦ (
              (drain sort (keep_of (length q.entries) p) p.block_collection p.block_sig_collection
                  q).0,
              rw (many, result)
                  (record {
                    left = refl;
                    saved = saved_queue-IsSaved env _ _ p.checkpoint p.checkpoint refl refl;
                    same_max = refl;
                    same_per_cycle = refl;
                    drains = inr (lt, kept, (drained, splits, refl, refl));
                  }),
            )
          ]
  ]

  -- A cycle with a queue, whatever the store answers: a queue of at most the maximum stays; from a
  -- longer one the oldest blocks leave until the number to keep remains, they are counted, and the
  -- purges are those of exactly their documents. In both cases the queue that is left is the one in
  -- its file, unless its `Save` fails or it has no path; then the file is as it was.
  pub run_prune-IsCycle :
      (env : StoreEnv) (p : Pruner) (q : IndexerQueue)
      → p.queue ≡ some q
      → (q' : IndexerQueue) × IsCycle sort_strings sort env q q' p
          (run_prune sort_strings sort env p).0
  unfolding run_prune prune_queue
  run_prune-IsCycle env p q has =
      subst
        (λ o.
          (q' : IndexerQueue) × IsCycle sort_strings sort env q q' p
            (prune_queue sort_strings sort env o p).0)
        (sym has) (run_indexer_queue_prune-IsCycle env p q has)

  cycle_length :
      {env : StoreEnv} {q q' : IndexerQueue} {p p' : Pruner}
      → IsCycle sort_strings sort env q q' p p'
      → 0 < p.max_blocks_per_cycle
      → length q'.entries
        ≡ length q.entries - min (length q.entries - p.max_blocks) p.max_blocks_per_cycle
  cycle_length {q} {q'} {p} cycle pos = elim cycle.drains [
    | inl (few, same) ↦ rw same (omega arith)
    | inr (many, kept, _) ↦ kept ∙ keep_of-min (length q.entries) p pos many
  ]

  -- Whatever the store answers in them, cycles that are bounded by a positive number of blocks leave
  -- the queue shorter by that number each, until exactly the maximum remains.
  pub prune_loop_converges :
      (envs : List StoreEnv) (p : Pruner) (q : IndexerQueue)
      → p.queue ≡ some q
      → 0 < p.max_blocks_per_cycle
      → (q' : IndexerQueue) × ((prune_loop sort_strings sort envs p).queue ≡ some q')
        × (length q'.entries
            ≡ length q.entries
              - min (length q.entries - p.max_blocks) (length envs * p.max_blocks_per_cycle))
  unfolding prune_loop
  prune_loop_converges [] p q has pos = (q, has, omega (arith, zero-mul p.max_blocks_per_cycle))
  prune_loop_converges (env ∷ envs) p q has pos =
      let (q1, cycle) = run_prune-IsCycle env p q has in
      let p1 = (run_prune sort_strings sort env p).0 in
      let pos1 : 0 < p1.max_blocks_per_cycle = rw cycle.same_per_cycle pos in
      let (q', left, amount) = prune_loop_converges envs p1 q1 cycle.left pos1 in
      let amount' = rw (cycle.same_max, cycle.same_per_cycle) at amount in
      (
        q',
        left,
        omega
            (arith, amount', cycle_length cycle pos, suc-mul (length envs) p.max_blocks_per_cycle),
      )
