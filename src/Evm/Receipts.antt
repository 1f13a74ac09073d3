-- ===== src/Evm/Receipts.antt =====
-- pkg/chains/evm/fetcher.go: a block with its transactions and their receipts. The node is the
-- parameter `Client`; the case of texts is strings.ToLower's and strings.EqualFold's.
pub mod Pinned
use shinzo_generator_client.Prelude.{
  ℕ, zero, suc, ◌+◌, String, List, [], ◌∷◌, ◌++◌, Bool, true, false, ◌&&◌, ◌||◌, not, Option, none,
  some, map, Result, ok, err, ltb, str_eq, if◌then◌else◌,
}
use shinzo_generator_client.Dict.{Dict, lookup, put}
use shinzo_generator_client.Processor.Types.{FetchError, context_done}
use shinzo_generator_client.Evm.{Transaction, TransactionReceipt, Block, BlockBundle}

-- rpcClient, at one time: what the node answers
pub record Client : Type 0 where
  pub cancelled : Bool
  pub get_block_by_number : ℕ → Result FetchError Block
  pub get_block_receipts : String → Result FetchError (List (Option TransactionReceipt))
  pub get_transaction_receipt : String → Result FetchError (Option TransactionReceipt)
  pub to_lower : String → String
  pub equal_fold : String → String → Bool

pub data BundleError : Type 0 where
  block_not_fetched : FetchError → BundleError
  receipts_missing : ℕ → BundleError

module _ (client : Client) where
  belongs : String → Option TransactionReceipt → Bool
  belongs block_hash none = false
  belongs block_hash (some r) = client.equal_fold r.block_hash block_hash

  -- `receiptHashesMatch`
  pub receipt_hashes_match : List (Option TransactionReceipt) → String → Bool
  unfolding belongs
  receipt_hashes_match [] block_hash = true
  receipt_hashes_match (r ∷ receipts) block_hash =
      belongs block_hash r && receipt_hashes_match receipts block_hash

  serves : String → Option TransactionReceipt → Bool
  serves key none = false
  serves key (some r) = str_eq (client.to_lower r.transaction_hash) key

  -- whether the key is in the set of served hashes
  pub served : String → List (Option TransactionReceipt) → Bool
  unfolding serves
  served key [] = false
  served key (r ∷ receipts) = serves key r || served key receipts

  -- `batchCoversTransactions`
  pub batch_covers_transactions : List Transaction → List (Option TransactionReceipt) → Bool
  unfolding served
  batch_covers_transactions [] receipts = true
  batch_covers_transactions (tx ∷ txs) receipts =
      served (client.to_lower tx.hash) receipts && batch_covers_transactions txs receipts

  -- a slot of `fetchReceiptsIndividually`
  pub slot_of : String → Result FetchError (Option TransactionReceipt) → Option TransactionReceipt
  unfolding belongs
  slot_of block_hash (err e) = none
  slot_of block_hash (ok r) = if belongs block_hash r then r else none

  -- `fetchReceiptsIndividually`; the workers fill the slots independently, and one that ends with
  -- the context leaves its slot nil, as a failed call does
  pub fetch_receipts_individually : String → List Transaction → List (Option TransactionReceipt)
  unfolding slot_of
  fetch_receipts_individually block_hash [] = []
  fetch_receipts_individually block_hash (tx ∷ txs) =
      slot_of block_hash (client.get_transaction_receipt tx.hash)
      ∷ fetch_receipts_individually block_hash txs

-- the map from hashes to receipts, into `m`
pub by_hash : List (Option TransactionReceipt) → Dict TransactionReceipt → Dict TransactionReceipt
by_hash [] m = m
by_hash (none ∷ receipts) m = by_hash receipts m
by_hash (some r ∷ receipts) m = by_hash receipts (put r.transaction_hash r m)

pub merge_one : Option TransactionReceipt → Transaction → Transaction
merge_one none tx = tx
merge_one (some r) tx = record tx {
  status = str_eq r.status "1";
  gas_used = r.gas_used;
  cumulative_gas_used = r.cumulative_gas_used;
  effective_gas_price = r.effective_gas_price;
}

-- `mergeReceiptsOntoTransactions`
pub merge_receipts_onto_transactions :
    List Transaction → List (Option TransactionReceipt) → List Transaction
unfolding by_hash merge_one
merge_receipts_onto_transactions txs receipts =
    map (λ (tx : Transaction). merge_one (lookup tx.hash (by_hash receipts [])) tx) txs

pub count_missing : List (Option TransactionReceipt) → ℕ
count_missing [] = 0
count_missing (none ∷ receipts) = suc (count_missing receipts)
count_missing (some r ∷ receipts) = count_missing receipts

module _ (client : Client) where
  merged :
      List Transaction
      → List (Option TransactionReceipt)
      → Result BundleError (List Transaction × List (Option TransactionReceipt))
  unfolding merge_receipts_onto_transactions
  merged txs receipts = ok (merge_receipts_onto_transactions txs receipts, receipts)

  fall_back : Block → Result BundleError (List Transaction × List (Option TransactionReceipt))
  unfolding merged fetch_receipts_individually count_missing
  fall_back block =
      let receipts = fetch_receipts_individually client block.hash block.transactions in
      let failed = count_missing receipts in
      if ltb 0 failed then err (receipts_missing failed) else merged block.transactions receipts

  after_batch :
      Block
      → Result FetchError (List (Option TransactionReceipt))
      → Result BundleError (List Transaction × List (Option TransactionReceipt))
  unfolding fall_back receipt_hashes_match batch_covers_transactions
  after_batch block (err e) = fall_back block
  after_batch block (ok receipts) =
      if receipt_hashes_match client receipts block.hash
        && batch_covers_transactions client block.transactions receipts
      then merged block.transactions receipts
      else fall_back block

  -- `fetchTransactionsAndReceipts`
  unfoldable pub fetch_transactions_and_receipts :
      Block → Result BundleError (List Transaction × List (Option TransactionReceipt))
  unfolding after_batch
  fetch_transactions_and_receipts block = after_batch block (client.get_block_receipts block.hash)

  fetch_block_by_number : ℕ → Result FetchError Block
  fetch_block_by_number height =
      if client.cancelled then err context_done else client.get_block_by_number height

  bundled :
      Block
      → Result BundleError (List Transaction × List (Option TransactionReceipt))
      → Result BundleError BlockBundle
  bundled block (err e) = err e
  bundled block (ok (txs, receipts)) =
      ok (record { block = some block; transactions = map some txs; receipts = receipts })

  after_fetch : Result FetchError Block → Result BundleError BlockBundle
  unfolding bundled fetch_transactions_and_receipts
  after_fetch (err e) = err (block_not_fetched e)
  after_fetch (ok block) = bundled block (fetch_transactions_and_receipts block)

  -- `FetchBlock`
  unfoldable pub fetch_block : ℕ → Result BundleError BlockBundle
  unfolding after_fetch fetch_block_by_number
  fetch_block height = after_fetch (fetch_block_by_number height)
