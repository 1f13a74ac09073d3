-- ===== src/Processor/Apply/Ready.antt =====
-- The loop that gathers ready completions: its end and its batch.
use shinzo_generator_client.Prelude.{
  ℕ, zero, suc, ◌+◌, ◌≤◌, ◌<◌, ◌≡◌, List, [], ◌∷◌, none, Option-cases, inl, inr, arith, length,
}
use shinzo_generator_client.Prelude.Heights.{
  Heights, find, remove, length-remove-lt, KeyedBy, find-KeyedBy, remove-KeyedBy,
}
use shinzo_generator_client.Processor.Run.{StoreCompletion}
use shinzo_generator_client.Processor.Apply.{Buffer, collect_ready, collect_ready_completions}

-- every parked completion stands under its own height
abbrev pub IsKeyed : Heights StoreCompletion → Type 0
IsKeyed = KeyedBy (λ c. c.item.block_num)

-- the heights of a batch ascend, from `lo` on and below `hi`
abbrev pub InOrder : ℕ → List StoreCompletion → ℕ → Type 0
InOrder lo [] hi = lo ≤ hi
InOrder lo (c ∷ batch) hi = (lo ≤ c.item.block_num) × InOrder (suc c.item.block_num) batch hi

InOrder-from :
    (lo lo' hi : ℕ) (batch : List StoreCompletion)
    → lo ≤ lo'
    → InOrder lo' batch hi
    → InOrder lo batch hi
InOrder-from lo lo' hi [] le h = omega arith
InOrder-from lo lo' hi (c ∷ batch) le h = (omega (arith, h.0), h.1)

-- What a pass leaves: nothing more is ready, and the batch is in order.
pub record Pass (b b' : Buffer) (batch : List StoreCompletion) : Type 0 where
  pub no_hole : find b'.cursor b'.holes ≡ none
  pub no_parked : find b'.cursor b'.parked ≡ none
  pub forward : b.cursor ≤ b'.cursor
  pub in_order : InOrder b.cursor batch b'.cursor
  pub keyed : IsKeyed b'.parked

Pass-hole :
    (b b' : Buffer) (batch : List StoreCompletion)
    → Pass (record b { cursor = b.cursor + 1; holes = remove b.cursor b.holes }) b' batch
    → Pass b b' batch
Pass-hole b b' batch p = record {
  no_hole = p.no_hole;
  no_parked = p.no_parked;
  forward = omega (arith, p.forward);
  in_order = InOrder-from b.cursor (b.cursor + 1) b'.cursor batch (omega arith) p.in_order;
  keyed = p.keyed;
}

Pass-parked :
    (b b' : Buffer) (c : StoreCompletion) (batch : List StoreCompletion)
    → c.item.block_num ≡ b.cursor
    → Pass (record b { cursor = b.cursor + 1; parked = remove b.cursor b.parked }) b' batch
    → Pass b b' (c ∷ batch)
Pass-parked b b' c batch at p = record {
  no_hole = p.no_hole;
  no_parked = p.no_parked;
  forward = omega (arith, p.forward);
  in_order = (
    omega arith,
    InOrder-from (suc c.item.block_num) (b.cursor + 1) b'.cursor batch (omega arith) p.in_order,
  );
  keyed = p.keyed;
}

collect_ready-Pass :
    (fuel : ℕ) (b : Buffer)
    → length b.holes + length b.parked < fuel
    → IsKeyed b.parked
    → Pass b (collect_ready fuel b).0 (collect_ready fuel b).1
unfolding collect_ready
collect_ready-Pass zero b enough k = absurd (omega arith)
collect_ready-Pass (suc fuel) b enough k = elim (Option-cases (find b.cursor b.holes)) [
  | inr (u, hole) ↦
      let b1 = record b { cursor = b.cursor + 1; holes = remove b.cursor b.holes } in
      let fewer = length-remove-lt b.cursor b.holes u hole in
      rw hole (Pass-hole b _ _ (collect_ready-Pass fuel b1 (omega arith) k))
  | inl no_hole ↦ elim (Option-cases (find b.cursor b.parked)) [
    | inl no_parked ↦
        rw (no_hole, no_parked)
          (record {
            no_hole = no_hole;
            no_parked = no_parked;
            forward = omega arith;
            in_order = omega arith;
            keyed = k;
          })
    | inr (c, parked) ↦
        let b1 = record b { cursor = b.cursor + 1; parked = remove b.cursor b.parked } in
        let fewer = length-remove-lt b.cursor b.parked c parked in
        let at = find-KeyedBy (λ d. d.item.block_num) b.cursor b.parked c k parked in
        rw (no_hole, parked)
          (Pass-parked b _ c _ at
            (collect_ready-Pass fuel b1 (omega arith) (remove-KeyedBy _ b.cursor b.parked k)))
  ]
]

-- `collectReadyCompletionsLocked` always ends with neither a hole nor a completion at the cursor,
-- never moves the cursor back, and returns its batch in strictly ascending height order between
-- the old cursor and the new one, if completions stand under their heights.
pub collect_ready_completions-Pass :
    (b : Buffer)
    → IsKeyed b.parked
    → Pass b (collect_ready_completions b).0 (collect_ready_completions b).1
unfolding collect_ready_completions
collect_ready_completions-Pass b k =
    collect_ready-Pass (suc (length b.holes + length b.parked)) b (omega arith) k
