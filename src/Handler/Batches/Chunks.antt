-- ===== src/Handler/Batches/Chunks.antt =====
-- `createDocBatch` against the batches written one after another.
use shinzo_generator_client.Prelude.{
  ℕ, zero, suc, ◌+◌, ◌-◌, ◌≤◌, ◌<◌, ◌≡◌, refl, sym, ◌∙◌, ap, arith, String, List, [], ◌∷◌, ◌++◌,
  Option, none, Result, ok, err, ltb, ltb→lt, ltb-false→le, Bool-cases, inl, inr, length, take,
  drop, All, drop-drop, length-drop, length-take, take-append-drop,
}
use Prim.Native.Nat.{min}
use shinzo_generator_client.Chains.{Doc}
use shinzo_generator_client.Handler.{Env, World, StoreError}
use shinzo_generator_client.Handler.Writes.{create_docs_in_txn}
use shinzo_generator_client.Handler.Batches.{
  write_batch_with_retry, batch_written, write_batch, create_batches, create_doc_batch,
}

module _ {ℓ} {A : Type ℓ} where
  -- consecutive pieces of at most `n` elements
  pub chunks : ℕ → ℕ → List A → List (List A)
  chunks zero n xs = []
  chunks (suc fuel) n [] = []
  chunks (suc fuel) n (x ∷ xs) = take n (x ∷ xs) ∷ chunks fuel n (drop n (x ∷ xs))

  unfoldable pub concat : List (List A) → List A
  concat [] = []
  concat (xs ∷ xss) = xs ++ concat xss

  concat-chunks :
      (fuel n : ℕ) (xs : List A) → 0 < n → length xs ≤ fuel → concat (chunks fuel n xs) ≡ xs
  unfolding chunks concat
  concat-chunks zero n [] pos le = refl
  concat-chunks zero n (x ∷ xs) pos le = absurd (omega (arith, le))
  concat-chunks (suc fuel) n [] pos le = refl
  concat-chunks (suc fuel) n (x ∷ xs) pos le =
      ap (λ ys. take n (x ∷ xs) ++ ys)
        (concat-chunks fuel n (drop n (x ∷ xs)) pos
          (omega (arith, le, pos, length-drop n (x ∷ xs))))
      ∙ take-append-drop n (x ∷ xs)

  length-take-cons :
      (n : ℕ) (x : A) (xs : List A)
      → 0 < n
      → (0 < length (take n (x ∷ xs))) × (length (take n (x ∷ xs)) ≤ n)
  length-take-cons n x xs pos =
      (omega (arith, length-take n (x ∷ xs), pos), omega (arith, length-take n (x ∷ xs)))

  chunks-sizes :
      (fuel n : ℕ) (xs : List A)
      → 0 < n
      → All (λ b. (0 < length b) × (length b ≤ n)) (chunks fuel n xs)
  unfolding chunks
  chunks-sizes zero n xs pos = tt
  chunks-sizes (suc fuel) n [] pos = tt
  chunks-sizes (suc fuel) n (x ∷ xs) pos =
      (length-take-cons n x xs pos, chunks-sizes fuel n (drop n (x ∷ xs)) pos)

  take-min : (n m : ℕ) (xs : List A) → min n (length xs) ≡ min m (length xs) → take n xs ≡ take m xs
  take-min zero zero xs h = refl
  take-min zero (suc m) [] h = refl
  take-min zero (suc m) (x ∷ xs) h = absurd (omega (arith, h))
  take-min (suc n) zero [] h = refl
  take-min (suc n) zero (x ∷ xs) h = absurd (omega (arith, h))
  take-min (suc n) (suc m) [] h = refl
  take-min (suc n) (suc m) (x ∷ xs) h = ap (λ ys. x ∷ ys) (take-min n m xs (omega (arith, h)))

  drop-past : (n : ℕ) (xs : List A) → length xs ≤ n → drop n xs ≡ []
  drop-past zero [] le = refl
  drop-past zero (x ∷ xs) le = absurd (omega (arith, le))
  drop-past (suc n) [] le = refl
  drop-past (suc n) (x ∷ xs) le = drop-past n xs (omega (arith, le))

module _ {S T C D : Type 0} (env : Env S T C D) (col_name : String) where
  abbrev Next : Type 0
  Next = List String → World S → World S × List String × Option StoreError

  -- The batches one after another, each with its retries, up to the first that fails: the IDs
  -- written by then come with its error.
  unfoldable pub write_in_turn : List (List Doc) → Next
  write_in_turn [] all_ids w = (w, all_ids, none)
  write_in_turn (batch ∷ batches) all_ids w =
      batch_written env all_ids
        (write_batch_with_retry env (create_docs_in_txn env col_name batch) w)
        (write_in_turn batches)

  batch_written-next :
      (next next' : Next) (all_ids : List String) (r : World S × Result StoreError (List String))
      → ((ids : List String) (w : World S) → next ids w ≡ next' ids w)
      → batch_written env all_ids r next ≡ batch_written env all_ids r next'
  unfolding batch_written
  batch_written-next next next' all_ids (w, ok ids) h = h (all_ids ++ ids) w
  batch_written-next next next' all_ids (w, err e) h = refl

  batch_in_turn :
      (next : Next) (fuel n : ℕ) (xs : List Doc) (all_ids : List String) (w : World S)
      → 0 < n
      → 0 < length xs
      → ((ids : List String) (w' : World S)
          → next ids w' ≡ write_in_turn (chunks fuel n (drop n xs)) ids w')
      → write_batch env col_name (take n xs) all_ids w next
        ≡ write_in_turn (chunks (suc fuel) n xs) all_ids w
  unfolding write_batch write_in_turn chunks
  batch_in_turn next fuel zero xs all_ids w pos some_left h = absurd (omega (arith, pos))
  batch_in_turn next fuel (suc n) [] all_ids w pos some_left h = absurd (omega (arith, some_left))
  batch_in_turn next fuel (suc n) (x ∷ xs) all_ids w pos some_left h =
      batch_written-next next _ all_ids
        (write_batch_with_retry env (create_docs_in_txn env col_name (take (suc n) (x ∷ xs))) w) h

  batch_from :
      (next : Next) (fuel n i : ℕ) (docs : List Doc) (all_ids : List String) (w : World S)
      → 0 < n
      → i < length docs
      → ((ids : List String) (w' : World S)
          → next ids w' ≡ write_in_turn (chunks fuel n (drop n (drop i docs))) ids w')
      → write_batch env col_name (take (min (i + n) (length docs) - i) (drop i docs)) all_ids w next
        ≡ write_in_turn (chunks (suc fuel) n (drop i docs)) all_ids w
  batch_from next fuel n i docs all_ids w pos lt h =
      ap (λ batch. write_batch env col_name batch all_ids w next)
        (take-min (min (i + n) (length docs) - i) n (drop i docs)
          (omega (arith, lt, length-drop i docs)))
      ∙ batch_in_turn next fuel n (drop i docs) all_ids w pos
          (omega (arith, lt, length-drop i docs)) h

  create_batches-in_turn :
      (fuel n i : ℕ) (docs : List Doc) (all_ids : List String) (w : World S)
      → 0 < n
      → create_batches env fuel col_name docs n i all_ids w
        ≡ write_in_turn (chunks fuel n (drop i docs)) all_ids w
  unfolding create_batches
  create_batches-in_turn zero n i docs all_ids w pos = unfold write_in_turn chunks in refl
  create_batches-in_turn (suc fuel) n i docs all_ids w pos =
      let next : Next = create_batches env fuel col_name docs n (i + n) in
      let later = λ (ids : List String) (w' : World S).
        create_batches-in_turn fuel n (i + n) docs ids w' pos
        ∙ ap (λ xs. write_in_turn (chunks fuel n xs) ids w') (sym (drop-drop n i docs)) in
      elim (Bool-cases (ltb i (length docs))) [
        | inl more ↦
            rw more
              (batch_from next fuel n i docs all_ids w pos (ltb→lt i (length docs) more) later)
        | inr over ↦
            rw (over, drop-past i docs (ltb-false→le i (length docs) over))
              (unfold write_in_turn chunks in refl)
      ]

  -- For a positive batch size, `createDocBatch` cuts the documents into consecutive, non-empty
  -- batches of at most that size, which together are all of them, and writes one after another
  -- until one fails.
  pub create_doc_batch-chunks :
      (data_maps : List Doc) (batch_size : ℕ)
      → 0 < batch_size
      → (batches : List (List Doc)) × (concat batches ≡ data_maps)
        × All (λ b. (0 < length b) × (length b ≤ batch_size)) batches
        × ((w : World S)
            → create_doc_batch env col_name data_maps batch_size w ≡ write_in_turn batches [] w)
  create_doc_batch-chunks data_maps batch_size pos = (
    chunks (length data_maps) batch_size data_maps,
    concat-chunks (length data_maps) batch_size data_maps pos (omega arith),
    chunks-sizes (length data_maps) batch_size data_maps pos,
    λ w.
        unfold create_doc_batch in
        (create_batches-in_turn (length data_maps) batch_size 0 data_maps [] w pos),
  )
