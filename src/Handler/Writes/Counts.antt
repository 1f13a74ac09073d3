-- ===== src/Handler/Writes/Counts.antt =====
-- How many documents a batch's transaction writes.
use shinzo_generator_client.Prelude.{
  ℕ, zero, suc, ◌+◌, ◌≡◌, refl, arith, String, List, [], ◌∷◌, ◌++◌, Result, ok, err, ltb,
  ltb-false→le, Bool-cases, inl, inr, length, length-append,
}
use shinzo_generator_client.Chains.{Doc}
use shinzo_generator_client.Processor.Run.{ErrorText}
use shinzo_generator_client.Handler.{Env, Action}
use shinzo_generator_client.Handler.Ensures.{
  Ensures, Ensures-then, Ensures-pure, Ensures-throw, Ensures-call, Ensures-collect,
  Ensures-open_txn, Ensures-commit_txn,
}
use shinzo_generator_client.Handler.Writes.{
  tabulate, new_docs, added, add_each, commit_written, add_docs_skip_existing, refuse_skips,
  write_batch_skip_existing, bulk_added, write_docs, create_docs_in_txn,
}

length-tabulate : {A : Type 0} (f : ℕ → A) (n : ℕ) → length (tabulate f n) ≡ n
unfolding tabulate
length-tabulate f zero = refl
length-tabulate f (suc n) = omega (arith, length-tabulate (λ i. f (suc i)) n)

module _ {S T C D : Type 0} (env : Env S T C D) where
  new_docs-length :
      (col : C) (data_maps : List Doc)
      → Ensures (λ docs. length docs ≡ length data_maps) (new_docs env col data_maps)
  unfolding new_docs
  new_docs-length col [] = Ensures-pure _ refl
  new_docs-length col (data_map ∷ data_maps) = Ensures-then (Ensures-call _) (λ doc t.
      Ensures-then (new_docs-length col data_maps) (λ docs h. Ensures-pure _ (omega (arith, h))))

  added-counts :
      (P : T × List String × ℕ → Type 0) (r : Result ErrorText String) (written : List String)
      (skipped : ℕ) (next : List String → ℕ → Action S (T × List String × ℕ))
      → ((written' : List String) (skipped' : ℕ)
          → length written' + skipped' ≡ suc (length written + skipped)
          → Ensures P (next written' skipped'))
      → Ensures P (added env r written skipped next)
  unfolding added
  added-counts P (ok id) written skipped next k =
      k (written ++ id ∷ []) skipped (omega (arith, length-append written (id ∷ [])))
  added-counts P (err e) written skipped next k = elim (Bool-cases e.already_exists) [
    | inl exists ↦ rw exists (k written (suc skipped) (omega arith))
    | inr other ↦ rw other (Ensures-throw _)
  ]

  add_each-counts :
      (n : ℕ) (col : C) (data_maps : List Doc) (txn : T) (written : List String) (skipped : ℕ)
      → length data_maps + (length written + skipped) ≡ n
      → Ensures (λ a. length a.1 + a.2 ≡ n) (add_each env col data_maps txn written skipped)
  unfolding add_each
  add_each-counts n col [] txn written skipped h = Ensures-pure _ (omega (arith, h))
  add_each-counts n col (data_map ∷ data_maps) txn written skipped h =
      Ensures-then (Ensures-call _) (λ doc t.
        let a = env.add_document col doc txn in
        Ensures-then (Ensures-collect _) (λ t t'.
          added-counts _ a.outcome written skipped (add_each env col data_maps a.txn)
            (λ written' skipped' one.
              add_each-counts n col data_maps a.txn written' skipped' (omega (arith, h, one)))))

  commit_written-counts :
      (n : ℕ) (a : T × List String × ℕ)
      → length a.1 + a.2 ≡ n
      → Ensures (λ b. length b.0 + b.1 ≡ n) (commit_written env a)
  unfolding commit_written
  commit_written-counts n (txn, [], skipped) h = Ensures-pure _ h
  commit_written-counts n (txn, id ∷ written, skipped) h =
      Ensures-then (Ensures-commit_txn env txn) (λ t t'. Ensures-pure _ h)

  refuse_skips-length :
      (n : ℕ) (b : List String × ℕ)
      → length b.0 + b.1 ≡ n
      → Ensures (λ ids. length ids ≡ n) (refuse_skips env n b)
  unfolding refuse_skips
  refuse_skips-length n (ids, skipped) h = elim (Bool-cases (ltb 0 skipped)) [
    | inl some_exist ↦ rw some_exist (Ensures-throw _)
    | inr none_exist ↦
        rw none_exist (Ensures-pure _ (omega (arith, h, ltb-false→le 0 skipped none_exist)))
  ]

  write_batch_skip_existing-length :
      (col_name : String) (data_maps : List Doc)
      → Ensures
          (λ ids. length ids ≡ length data_maps)
          (write_batch_skip_existing env col_name data_maps)
  unfolding write_batch_skip_existing add_docs_skip_existing
  write_batch_skip_existing-length col_name data_maps =
      Ensures-then
        (Ensures-then (Ensures-open_txn env) (λ txn t. Ensures-then (Ensures-call _) (λ col t'.
          Ensures-then (add_each-counts (length data_maps) col data_maps txn [] 0 (omega arith))
            (commit_written-counts (length data_maps)))))
        (refuse_skips-length (length data_maps))

  bulk_added-length :
      (r : Result ErrorText (ℕ → String)) (txn : T) (n : ℕ) (per_document : Action S (List String))
      → Ensures (λ ids. length ids ≡ n) per_document
      → Ensures (λ ids. length ids ≡ n) (bulk_added env r txn n per_document)
  unfolding bulk_added
  bulk_added-length (ok id) txn n per_document h =
      Ensures-then (Ensures-commit_txn env txn) (λ t t'. Ensures-pure _ (length-tabulate id n))
  bulk_added-length (err e) txn n per_document h = elim (Bool-cases e.already_exists) [
    | inl exists ↦ rw exists h
    | inr other ↦ rw other (Ensures-throw _)
  ]

  write_docs-length :
      (col_name : String) (data_maps : List Doc) (col : C) (docs : List D) (txn : T)
      → length docs ≡ length data_maps
      → Ensures
          (λ ids. length ids ≡ length data_maps)
          (write_docs env col_name data_maps col docs txn)
  unfolding write_docs
  write_docs-length col_name data_maps col [] txn h = Ensures-pure _ h
  write_docs-length col_name data_maps col (doc ∷ docs) txn h =
      Ensures-then (Ensures-collect _) (λ t t'. rw h (
        bulk_added-length _ _ (length data_maps) _
          (write_batch_skip_existing-length col_name data_maps)))

  -- On every way through the code, the collector keeps the CIDs that it has; and when the batch's
  -- IDs are returned, there is one for each document.
  pub create_docs_in_txn-length :
      (col_name : String) (data_maps : List Doc)
      → Ensures (λ ids. length ids ≡ length data_maps) (create_docs_in_txn env col_name data_maps)
  unfolding create_docs_in_txn
  create_docs_in_txn-length col_name data_maps = Ensures-then (Ensures-open_txn env) (λ txn t.
      Ensures-then (Ensures-call _) (λ col t'.
        Ensures-then (new_docs-length col data_maps)
          (λ docs h. write_docs-length col_name data_maps col docs txn h)))
