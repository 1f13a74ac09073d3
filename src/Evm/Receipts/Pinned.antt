-- ===== src/Evm/Receipts/Pinned.antt =====
-- Which receipts a fetched block comes with.
use shinzo_generator_client.Prelude.{
  sym, ◌≢◌, String, str_eq, eq_of_test, ne_of_test, and-true, ℕ, ◌≡◌, refl, subst, arith, List, [],
  ◌∷◌, Bool, true, false, ◌&&◌, Bool-cases, ◌⊎◌, inl, inr, Option, none, some, Result, ok, err,
  some-ne-none, if◌then◌else◌, ltb, ltb-false→le, map, All,
}
use shinzo_generator_client.Processor.Types.{FetchError, context_done}
use shinzo_generator_client.Evm.{Transaction, TransactionReceipt, Block, BlockBundle}
use shinzo_generator_client.Evm.Last.{last_with, Fills, lookup-filled}
use shinzo_generator_client.Evm.Receipts.{
  by_hash, merge_one, serves, served, Client, BundleError, belongs, receipt_hashes_match,
  batch_covers_transactions, slot_of, fetch_receipts_individually, merge_receipts_onto_transactions,
  count_missing, merged, fall_back, after_batch, fetch_transactions_and_receipts, bundled,
  after_fetch, fetch_block,
}

-- a receipt that is there and names the block
abbrev pub PinnedTo : Client → Block → Option TransactionReceipt → Type 0
PinnedTo client block o =
    (r : TransactionReceipt) × (o ≡ some r) × (client.equal_fold r.block_hash block.hash ≡ true)

-- a receipt of the list has this hash in lower case
pub data Serves (client : Client) (key : String) : List (Option TransactionReceipt) → Type 0 where
  serves_here :
      {r : TransactionReceipt} {receipts : List (Option TransactionReceipt)}
      → client.to_lower r.transaction_hash ≡ key
      → Serves client key (some r ∷ receipts)
  serves_later :
      {o : Option TransactionReceipt} {receipts : List (Option TransactionReceipt)}
      → Serves client key receipts
      → Serves client key (o ∷ receipts)

-- the node's own answers for the hashes of the transactions, one each
pub data OneEach (client : Client)
    : List Transaction → List (Option TransactionReceipt) → Type 0 where
  no_more : OneEach client [] []
  each :
      {tx : Transaction} {txs : List Transaction} {o : Option TransactionReceipt}
      {receipts : List (Option TransactionReceipt)}
      → client.get_transaction_receipt tx.hash ≡ ok o
      → OneEach client txs receipts
      → OneEach client (tx ∷ txs) (o ∷ receipts)

-- a transaction takes its outcome from the last receipt with its hash, in the same spelling, and
-- stays as it is without one
pub data Outcome (receipts : List (Option TransactionReceipt)) (tx : Transaction)
    : Transaction → Type 0 where
  succeeds :
      {r : TransactionReceipt}
      → last_with tx.hash receipts ≡ some r
      → r.status ≡ "1"
      → Outcome receipts tx (record tx {
        status = true;
        gas_used = r.gas_used;
        cumulative_gas_used = r.cumulative_gas_used;
        effective_gas_price = r.effective_gas_price;
      })
  fails :
      {r : TransactionReceipt}
      → last_with tx.hash receipts ≡ some r
      → r.status ≢ "1"
      → Outcome receipts tx (record tx {
        status = false;
        gas_used = r.gas_used;
        cumulative_gas_used = r.cumulative_gas_used;
        effective_gas_price = r.effective_gas_price;
      })
  unmatched : last_with tx.hash receipts ≡ none → Outcome receipts tx tx

pub data Outcomes (receipts : List (Option TransactionReceipt))
    : List Transaction → List Transaction → Type 0 where
  no_more : Outcomes receipts [] []
  each :
      {tx tx' : Transaction} {txs txs' : List Transaction}
      → Outcome receipts tx tx'
      → Outcomes receipts txs txs'
      → Outcomes receipts (tx ∷ txs) (tx' ∷ txs')

-- The receipts and transactions of a block, fetched: every receipt is the block's; they are a batch
-- in which every transaction's hash is served, or the node's answers for the transactions one by
-- one; and the transactions have their outcomes.
pub record IsFetched (client : Client) (block : Block) (txs : List Transaction)
    (receipts : List (Option TransactionReceipt)) : Type 0 where
  pub pinned : All (PinnedTo client block) receipts
  pub covered :
      All
        (λ (tx : Transaction). Serves client (client.to_lower tx.hash) receipts)
        block.transactions
      ⊎ OneEach client block.transactions receipts
  pub outcomes : Outcomes receipts block.transactions txs

by_hash-Fills : Fills by_hash
unfolding by_hash
by_hash-Fills = record {
  at_end = λ m. refl;
  skips = λ receipts m. refl;
  puts = λ r receipts m. refl;
}

merge_one-Outcome :
    (receipts : List (Option TransactionReceipt)) (tx : Transaction) (o : Option TransactionReceipt)
    → last_with tx.hash receipts ≡ o
    → Outcome receipts tx (merge_one o tx)
unfolding merge_one
merge_one-Outcome receipts tx none has = unmatched has
merge_one-Outcome receipts tx (some r) has = by_status (str_eq r.status "1") refl
  where
    by_status :
        (b : Bool)
        → str_eq r.status "1" ≡ b
        → Outcome receipts tx (record tx {
          status = b;
          gas_used = r.gas_used;
          cumulative_gas_used = r.cumulative_gas_used;
          effective_gas_price = r.effective_gas_price;
        })
    by_status true test = succeeds has (eq_of_test r.status "1" test)
    by_status false test = fails has (ne_of_test r.status "1" test)

merge-Outcomes :
    (receipts : List (Option TransactionReceipt)) (txs : List Transaction)
    → Outcomes receipts txs (merge_receipts_onto_transactions txs receipts)
unfolding merge_receipts_onto_transactions
merge-Outcomes receipts [] = no_more
merge-Outcomes receipts (tx ∷ txs) =
    each (merge_one-Outcome receipts tx _ (sym (lookup-filled by_hash-Fills tx.hash receipts)))
      (merge-Outcomes receipts txs)

served-Serves :
    (client : Client) (key : String) (receipts : List (Option TransactionReceipt))
    → served client key receipts ≡ true
    → Serves client key receipts
unfolding served serves
served-Serves client key [] h = ground arith
served-Serves client key (none ∷ receipts) h = serves_later (served-Serves client key receipts h)
served-Serves client key (some r ∷ receipts) h =
    elim (Bool-cases (str_eq (client.to_lower r.transaction_hash) key)) [
      | inl ours ↦ serves_here (eq_of_test (client.to_lower r.transaction_hash) key ours)
      | inr other ↦ serves_later (served-Serves client key receipts (rw other at h))
    ]

covers-Serves :
    (client : Client) (txs : List Transaction) (receipts : List (Option TransactionReceipt))
    → batch_covers_transactions client txs receipts ≡ true
    → All (λ (tx : Transaction). Serves client (client.to_lower tx.hash) receipts) txs
unfolding batch_covers_transactions
covers-Serves client [] receipts h = tt
covers-Serves client (tx ∷ txs) receipts h =
    let (first, rest) = and-true (served client (client.to_lower tx.hash) receipts) _ h in
    (
      served-Serves client (client.to_lower tx.hash) receipts first,
      covers-Serves client txs receipts rest,
    )

module _ (client : Client) (block : Block) where
  belongs-PinnedTo :
      (o : Option TransactionReceipt) → belongs client block.hash o ≡ true → PinnedTo client block o
  unfolding belongs
  belongs-PinnedTo none h = cc
  belongs-PinnedTo (some r) h = (r, refl, h)

  match-PinnedTo :
      (receipts : List (Option TransactionReceipt))
      → receipt_hashes_match client receipts block.hash ≡ true
      → All (PinnedTo client block) receipts
  unfolding receipt_hashes_match
  match-PinnedTo [] h = tt
  match-PinnedTo (o ∷ receipts) h =
      let (here, there) = and-true (belongs client block.hash o) _ h in
      (belongs-PinnedTo o here, match-PinnedTo receipts there)

  -- a slot is empty or pinned
  slot_of-PinnedTo :
      (r : Result FetchError (Option TransactionReceipt))
      → (slot_of client block.hash r ≡ none) ⊎ PinnedTo client block (slot_of client block.hash r)
  unfolding slot_of
  slot_of-PinnedTo (err e) = inl refl
  slot_of-PinnedTo (ok o) = elim (Bool-cases (belongs client block.hash o)) [
    | inl ours ↦ rw ours (inr (belongs-PinnedTo o ours))
    | inr other ↦ rw other (inl refl)
  ]

  missing-cons :
      (o : Option TransactionReceipt) (receipts : List (Option TransactionReceipt))
      → (o ≡ none) ⊎ PinnedTo client block o
      → count_missing (o ∷ receipts) ≡ 0
      → PinnedTo client block o × (count_missing receipts ≡ 0)
  unfolding count_missing
  missing-cons none receipts h no_gap = absurd (omega (arith, no_gap))
  missing-cons (some r) receipts (inl h) no_gap = absurd (some-ne-none h)
  missing-cons (some r) receipts (inr h) no_gap = (h, no_gap)

  individually-PinnedTo :
      (txs : List Transaction)
      → count_missing (fetch_receipts_individually client block.hash txs) ≡ 0
      → All (PinnedTo client block) (fetch_receipts_individually client block.hash txs)
  unfolding fetch_receipts_individually
  individually-PinnedTo [] no_gap = tt
  individually-PinnedTo (tx ∷ txs) no_gap =
      let (here, later) =
        missing-cons (slot_of client block.hash (client.get_transaction_receipt tx.hash)) _
          (slot_of-PinnedTo (client.get_transaction_receipt tx.hash)) no_gap in
      (here, individually-PinnedTo txs later)

  slot_of-answer :
      (r : Result FetchError (Option TransactionReceipt))
      → PinnedTo client block (slot_of client block.hash r)
      → r ≡ ok (slot_of client block.hash r)
  unfolding slot_of
  slot_of-answer (err e) pinned = absurd (some-ne-none (sym pinned.1))
  slot_of-answer (ok o) pinned = elim (Bool-cases (belongs client block.hash o)) [
    | inl ours ↦ rw ours refl
    | inr other ↦ absurd (some-ne-none (sym (rw other at pinned.1)))
  ]

  individually-OneEach :
      (txs : List Transaction)
      → All (PinnedTo client block) (fetch_receipts_individually client block.hash txs)
      → OneEach client txs (fetch_receipts_individually client block.hash txs)
  unfolding fetch_receipts_individually
  individually-OneEach [] pinned = no_more
  individually-OneEach (tx ∷ txs) pinned =
      each (slot_of-answer (client.get_transaction_receipt tx.hash) pinned.0)
        (individually-OneEach txs pinned.1)

  abbrev FetchedIfOk :
      Result BundleError (List Transaction × List (Option TransactionReceipt)) → Type 0
  FetchedIfOk (err e) = Unit
  FetchedIfOk (ok (txs, receipts)) = IsFetched client block txs receipts

  fall_back-IsFetched : FetchedIfOk (fall_back client block)
  unfolding fall_back merged
  fall_back-IsFetched =
      let receipts = fetch_receipts_individually client block.hash block.transactions in
      elim (Bool-cases (ltb 0 (count_missing receipts))) [
        | inl gaps ↦ rw gaps tt
        | inr none_missing ↦
            let pinned =
              individually-PinnedTo block.transactions
                (omega (arith, ltb-false→le 0 (count_missing receipts) none_missing)) in
            rw none_missing (record {
              pinned = pinned;
              covered = inr (individually-OneEach block.transactions pinned);
              outcomes = merge-Outcomes receipts block.transactions;
            })
      ]

  after_batch-IsFetched :
      (r : Result FetchError (List (Option TransactionReceipt)))
      → FetchedIfOk (after_batch client block r)
  unfolding after_batch merged
  after_batch-IsFetched (err e) = fall_back-IsFetched
  after_batch-IsFetched (ok receipts) =
      let test =
        receipt_hashes_match client receipts block.hash
        && batch_covers_transactions client block.transactions receipts in
      elim (Bool-cases test) [
        | inl accepted ↦
            let (match, covers) = and-true _ _ accepted in
            rw accepted (record {
              pinned = match-PinnedTo receipts match;
              covered = inl (covers-Serves client block.transactions receipts covers);
              outcomes = merge-Outcomes receipts block.transactions;
            })
        | inr refused ↦ rw refused fall_back-IsFetched
      ]

-- the bundle of a block that the node gave for the height
abbrev IsBundle : Client → ℕ → BlockBundle → Type 0
IsBundle client height bundle =
    (block : Block) × (client.get_block_by_number height ≡ ok block)
    × (bundle.block ≡ some block)
    × ((txs : List Transaction) × (bundle.transactions ≡ map some txs)
        × IsFetched client block txs bundle.receipts)

abbrev BundleIfOk : Client → ℕ → Result BundleError BlockBundle → Type 0
BundleIfOk client height (err e) = Unit
BundleIfOk client height (ok bundle) = IsBundle client height bundle

module _ (client : Client) (height : ℕ) where
  bundled-IsBundle :
      (block : Block) (r : Result BundleError (List Transaction × List (Option TransactionReceipt)))
      → client.get_block_by_number height ≡ ok block
      → FetchedIfOk client block r
      → BundleIfOk client height (bundled client block r)
  unfolding bundled
  bundled-IsBundle block (err e) given h = tt
  bundled-IsBundle block (ok (txs, receipts)) given h = (block, given, refl, (txs, refl, h))

  after_fetch-IsBundle :
      (r : Result FetchError Block)
      → client.get_block_by_number height ≡ r
      → BundleIfOk client height (after_fetch client r)
  unfolding after_fetch fetch_transactions_and_receipts
  after_fetch-IsBundle (err e) given = tt
  after_fetch-IsBundle (ok block) given =
      bundled-IsBundle block _ given
        (after_batch-IsFetched client block (client.get_block_receipts block.hash))

  live_or_done :
      (done : Bool)
      → BundleIfOk client height (
          after_fetch client (if done then err context_done else client.get_block_by_number height))
  live_or_done true = unfold after_fetch in tt
  live_or_done false = after_fetch-IsBundle (client.get_block_by_number height) refl

  fetch_block-IsBundle : BundleIfOk client height (fetch_block client height)
  unfolding fetch_block
  fetch_block-IsBundle = live_or_done client.cancelled

-- A fetched bundle holds the block that the node gave for the height, with transactions and receipts
-- that belong together: each receipt is there and names the block's own hash; they are a batch in
-- which each transaction's hash is served, up to its case, or the node's answers for the
-- transactions one by one; and each transaction has taken status and gas from the last receipt
-- with its hash in the same spelling, or is as the node gave it when there is none.
pub fetch_block-IsFetched :
    (client : Client) (height : ℕ) (bundle : BlockBundle)
    → fetch_block client height ≡ ok bundle
    → (block : Block) × (client.get_block_by_number height ≡ ok block)
      × (bundle.block ≡ some block)
      × ((txs : List Transaction) × (bundle.transactions ≡ map some txs)
          × IsFetched client block txs bundle.receipts)
fetch_block-IsFetched client height bundle fetched =
    subst (BundleIfOk client height) fetched (fetch_block-IsBundle client height)
