-- ===== src/Processor/Collector/Chained.antt =====
-- What reaches the store pool: the heights and the parent hashes of its blocks.
use shinzo_generator_client.Prelude.{
  ℕ, suc, ◌≤◌, ◌<◌, ◌≡◌, ◌≢◌, refl, sym, ◌∙◌, ◌⊎◌, inl, inr, String, List, [], ◌∷◌, false, ◌||◌,
  not, Bool-cases, Option, none, some, arith, ◌==◌, ==_iff, str_eq, eq_of_test, subst,
}
use shinzo_generator_client.Prelude.Heights.{Heights, find, KeyedBy, remove-KeyedBy, find-KeyedBy}
use shinzo_generator_client.Processor.Types.{BlockResult, ReorgSignal}
use shinzo_generator_client.Processor.Run.{
  Run, is_some, start_run, pop_found, pop_pending, receive_result,
}
use shinzo_generator_client.Processor.Check.{
  GapQuery, checked_for_dispatch, after_continuity, after_gap, continuity_signal,
  start_reorg_episode, popped_gap_signal,
}
use shinzo_generator_client.Processor.Apply.Frame.{Checking, check_of, apply_completion-check}
use shinzo_generator_client.Processor.Episode.{EpisodeEnv, open_stale_episode}
use shinzo_generator_client.Processor.Episode.Frame.{
  open_stale_episode-check, resolve_episode_item-check,
}
use shinzo_generator_client.Processor.Collector.{
  Event, result_arrived, pop, store_completed, context_cancelled, take_popped, collect_event,
  collect_events,
}

-- `x` is above `y`, and directly above it only as its child, as far as both hashes are known
pub record Follows (y x : BlockResult) : Type 0 where
  pub above : y.block_num < x.block_num
  pub child :
      (x.block_num ≢ suc y.block_num)
      ⊎ (y.hash ≡ "")
      ⊎ (x.parent_hash ≡ "")
      ⊎ (x.parent_hash ≡ y.hash)

-- the latest first, each behind the one that it follows
abbrev pub Linked : List BlockResult → Type 0
Linked [] = Unit
Linked (x ∷ []) = Unit
Linked (x ∷ y ∷ xs) = Follows y x × Linked (y ∷ xs)

-- the last block that was sent to the pool is below the check, which knows its hash if it was the
-- last block to be checked
record Latest (checked_end : ℕ) (checked_hash : String) (y : BlockResult) : Type 0 where
  below : y.block_num < checked_end
  known : (checked_end ≢ suc y.block_num) ⊎ (checked_hash ≡ y.hash)

abbrev LatestOf : ℕ → String → List BlockResult → Type 0
LatestOf checked_end checked_hash [] = Unit
LatestOf checked_end checked_hash (y ∷ ys) = Latest checked_end checked_hash y

record IsChained (c : Checking) : Type 0 where
  linked : Linked c.dispatched
  latest : LatestOf c.last_checked_end c.last_checked_hash c.dispatched
  reached : c.last_checked_end ≤ c.next_to_commit
  keyed : KeyedBy (λ (b : BlockResult). b.block_num) c.pending

-- an item was popped: it is the one that the check is to see next
record IsPopped (c : Checking) (next : BlockResult) : Type 0 where
  chained : IsChained c
  unseen : c.last_checked_end ≤ next.block_num
  passed : suc next.block_num ≤ c.next_to_commit

-- no disagreement with the hash below, as far as both are known
abbrev Agrees : String → BlockResult → Type 0
Agrees hash next = (hash ≡ "") ⊎ (next.parent_hash ≡ "") ⊎ (next.parent_hash ≡ hash)

continuity_signal-none :
    (run_start_block : ℕ) (seed_hash : String) (n : ℕ) (hash : String) (next : BlockResult)
    → continuity_signal run_start_block seed_hash n hash next ≡ none
    → n ≡ next.block_num
    → Agrees hash next
unfolding continuity_signal
continuity_signal-none run_start_block seed_hash n hash next quiet same =
    elim (Bool-cases (str_eq hash "")) [
      | inl unknown ↦ inl (eq_of_test hash "" unknown)
      | inr known ↦ elim (Bool-cases (str_eq next.parent_hash "")) [
        | inl unknown ↦ inr (inl (eq_of_test next.parent_hash "" unknown))
        | inr known_parent ↦ elim (Bool-cases (str_eq next.parent_hash hash)) [
          | inl child ↦ inr (inr (eq_of_test next.parent_hash hash child))
          | inr stranger ↦ absurd (ground arith)
        ]
      ]
    ]

Linked-cons :
    (c : Checking) (next : BlockResult) (ds : List BlockResult)
    → LatestOf c.last_checked_end c.last_checked_hash ds
    → Linked ds
    → c.last_checked_end ≤ next.block_num
    → (c.last_checked_end ≡ next.block_num → Agrees c.last_checked_hash next)
    → Linked (next ∷ ds)
Linked-cons c next [] latest linked le agrees = tt
Linked-cons c next (y ∷ ys) latest linked le agrees = (
  record {
    above = omega (arith, latest.below);
    child = elim (Bool-cases (next.block_num == suc y.block_num)) [
      | inr apart ↦ inl (λ e. cc (apart, (==_iff next.block_num (suc y.block_num)).1 e))
      | inl adjacent ↦
          let num = (==_iff next.block_num (suc y.block_num)).0 adjacent in
          elim latest.known [
            | inl not_last ↦ absurd (not_last (omega (arith, latest.below)))
            | inr same ↦ elim (agrees (omega (arith, latest.below))) [
              | inl unknown ↦ inr (inl (sym same ∙ unknown))
              | inr (inl unknown) ↦ inr (inr (inl unknown))
              | inr (inr child) ↦ inr (inr (inr (child ∙ same)))
            ]
          ]
    ];
  },
  linked,
)

Latest-hole :
    (c : Checking) (n : ℕ) (ds : List BlockResult)
    → LatestOf c.last_checked_end c.last_checked_hash ds
    → c.last_checked_end ≤ n
    → LatestOf (suc n) "" ds
Latest-hole c n [] latest le = tt
Latest-hole c n (y ∷ ys) latest le = record {
  below = omega (arith, latest.below);
  known = inl (λ e. omega (arith, latest.below));
}

after_gap-IsChained :
    (s : Option ReorgSignal) (next : BlockResult) (r : Run)
    → IsPopped (check_of r) next
    → (r.last_checked_end ≡ next.block_num → Agrees r.last_checked_hash next)
    → IsChained (check_of (after_gap s next r))
unfolding after_gap check_of
after_gap-IsChained (some s) next r p agrees = record {
  linked = p.chained.linked;
  latest = p.chained.latest;
  reached = p.chained.reached;
  keyed = p.chained.keyed;
}
after_gap-IsChained none next r p agrees = record {
  linked =
      Linked-cons (check_of r) next r.dispatched p.chained.latest p.chained.linked p.unseen agrees;
  latest = record { below = omega arith; known = inr refl };
  reached = p.passed;
  keyed = p.chained.keyed;
}

checked_for_dispatch-IsChained :
    (q : GapQuery) (next : BlockResult) (r : Run)
    → IsPopped (check_of r) next
    → IsChained (check_of (checked_for_dispatch q next r))
unfolding checked_for_dispatch after_continuity check_of
checked_for_dispatch-IsChained q next r p = elim (Bool-cases (not next.success)) [
  | inl failed ↦ rw failed (record {
    linked = p.chained.linked;
    latest = Latest-hole (check_of r) next.block_num r.dispatched p.chained.latest p.unseen;
    reached = p.passed;
    keyed = p.chained.keyed;
  })
  | inr fine ↦ rw fine (checked _ refl)
]
  where
    checked :
        (o : Option ReorgSignal)
        → continuity_signal r.run_start_block r.seed_hash r.last_checked_end r.last_checked_hash
            next
          ≡ o
        → IsChained (check_of (after_continuity o q next r))
    checked (some s) e =
        unfold start_reorg_episode in
        (record {
          linked = p.chained.linked;
          latest = p.chained.latest;
          reached = p.chained.reached;
          keyed = p.chained.keyed;
        })
    checked none e = after_gap-IsChained (popped_gap_signal q r next) next r p (
        continuity_signal-none r.run_start_block r.seed_hash r.last_checked_end r.last_checked_hash
          next e)

-- what a pop leaves: an item to check, or none
abbrev Popped : Run × Option (Option BlockResult) → Type 0
Popped (r, none) = IsChained (check_of r)
Popped (r, some none) = IsChained (check_of r)
Popped (r, some (some next)) = IsPopped (check_of r) next

pop_found-Popped :
    (o : Option BlockResult) (r : Run)
    → IsChained (check_of r)
    → find r.next_to_commit r.pending ≡ o
    → Popped (pop_found o r)
unfolding pop_found check_of
pop_found-Popped none r h e = h
pop_found-Popped (some next) r h e =
    let num = find-KeyedBy (λ b. b.block_num) r.next_to_commit r.pending next h.keyed e in
    let rest =
      remove-KeyedBy (λ (b : BlockResult). b.block_num) r.next_to_commit r.pending h.keyed in
    elim (Bool-cases (is_some r.rollback_point || r.cancelled)) [
      | inl over ↦ rw over (record {
        linked = h.linked;
        latest = h.latest;
        reached = omega (arith, h.reached);
        keyed = rest;
      })
      | inr on ↦ rw on (record {
        chained = record {
          linked = h.linked;
          latest = h.latest;
          reached = omega (arith, h.reached);
          keyed = rest;
        };
        unseen = omega (arith, h.reached);
        passed = omega arith;
      })
    ]

take_popped-IsChained :
    (q : GapQuery) (env : EpisodeEnv) (p : Run × Option (Option BlockResult))
    → Popped p
    → IsChained (check_of (take_popped q env p))
unfolding take_popped
take_popped-IsChained q env (r, none) h = h
take_popped-IsChained q env (r, some none) h = h
take_popped-IsChained q env (r, some (some next)) h = elim (Bool-cases (is_some r.episode)) [
  | inl waits ↦ rw waits (subst IsChained (sym (resolve_episode_item-check env next r)) h.chained)
  | inr runs ↦ rw runs (checked_for_dispatch-IsChained q next r h)
]

collect_event-IsChained :
    (e : Event) (r : Run) → IsChained (check_of r) → IsChained (check_of (collect_event e r))
unfolding collect_event receive_result pop_pending check_of
collect_event-IsChained (result_arrived result) r h = record {
  linked = h.linked;
  latest = h.latest;
  reached = h.reached;
  keyed =
      (refl, remove-KeyedBy (λ (b : BlockResult). b.block_num) result.block_num r.pending h.keyed);
}
collect_event-IsChained (pop q env) r h =
    take_popped-IsChained q env (pop_found (find r.next_to_commit r.pending) r)
      (pop_found-Popped (find r.next_to_commit r.pending) r h refl)
collect_event-IsChained (store_completed c env) r h =
    subst IsChained
      (sym
        (apply_completion-check (open_stale_episode env) (open_stale_episode-check env) c false r))
      h
collect_event-IsChained context_cancelled r h = record {
  linked = h.linked;
  latest = h.latest;
  reached = h.reached;
  keyed = h.keyed;
}

collect_events-IsChained :
    (es : List Event) (r : Run)
    → IsChained (check_of r)
    → IsChained (check_of (collect_events es r))
unfolding collect_events
collect_events-IsChained [] r h = h
collect_events-IsChained (e ∷ es) r h =
    collect_events-IsChained es (collect_event e r) (collect_event-IsChained e r h)

-- Whatever arrives and in whatever order, with reorgs, failed conversions and cancellations among
-- it: the blocks that a run sends to the store pool ascend in height, and a block directly above
-- the one sent before it has that block's hash as its parent hash, unless one of the two hashes is
-- unknown.
pub dispatched-Linked :
    (events : List Event) (start : ℕ) (seed : String) (rollbacks : ℕ) (heights : Heights ℕ)
    → Linked (collect_events events (start_run start seed rollbacks heights)).dispatched
dispatched-Linked events start seed rollbacks heights =
    unfold check_of in
    (collect_events-IsChained events (start_run start seed rollbacks heights) (
      unfold start_run in
      record { linked = tt; latest = tt; reached = omega arith; keyed = tt })).linked
