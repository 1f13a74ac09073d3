-- ===== src/Evm/Documents/Counts.antt =====
-- How many documents of a block's transactions and logs there are.
use shinzo_generator_client.Prelude.{
  ℕ, suc, ◌+◌, ◌≡◌, refl, ap, arith, List, [], ◌∷◌, map, Option, none, some, length, length-map,
  length-append,
}
use shinzo_generator_client.Evm.{Transaction, TransactionReceipt}
use shinzo_generator_client.Dict.{lookup}
use shinzo_generator_client.Evm.Last.{last_with, Fills, lookup-filled}
use shinzo_generator_client.Evm.Documents.{
  ParseInt, build_transaction_docs, add_receipts, build_receipt_map, build_log_data, logs_of,
  build_log_docs,
}

-- the transactions of a block that are there
pub transaction_count : List (Option Transaction) → ℕ
transaction_count [] = 0
transaction_count (none ∷ txs) = transaction_count txs
transaction_count (some tx ∷ txs) = suc (transaction_count txs)

pub receipt_log_count : Option TransactionReceipt → ℕ
receipt_log_count none = 0
receipt_log_count (some r) = length r.logs

-- the logs of the last receipt of each transaction
pub log_count : List (Option Transaction) → List (Option TransactionReceipt) → ℕ
unfolding receipt_log_count
log_count [] receipts = 0
log_count (none ∷ txs) receipts = log_count txs receipts
log_count (some tx ∷ txs) receipts =
    receipt_log_count (last_with tx.hash receipts) + log_count txs receipts

pub build_transaction_docs-count :
    (parse : ParseInt) (txs : List (Option Transaction))
    → length (build_transaction_docs parse txs) ≡ transaction_count txs
unfolding build_transaction_docs transaction_count
build_transaction_docs-count parse [] = refl
build_transaction_docs-count parse (none ∷ txs) = build_transaction_docs-count parse txs
build_transaction_docs-count parse (some tx ∷ txs) = ap suc (build_transaction_docs-count parse txs)

add_receipts-Fills : Fills add_receipts
unfolding add_receipts
add_receipts-Fills = record {
  at_end = λ m. refl;
  skips = λ receipts m. refl;
  puts = λ r receipts m. refl;
}

logs_of-count : (o : Option TransactionReceipt) → length (logs_of o) ≡ receipt_log_count o
unfolding logs_of receipt_log_count
logs_of-count none = refl
logs_of-count (some r) = refl

pub build_log_docs-count :
    (parse : ParseInt) (txs : List (Option Transaction))
    (receipts : List (Option TransactionReceipt))
    → length (build_log_docs parse txs (build_receipt_map receipts)) ≡ log_count txs receipts
unfolding build_log_docs log_count build_receipt_map
build_log_docs-count parse [] receipts = refl
build_log_docs-count parse (none ∷ txs) receipts = build_log_docs-count parse txs receipts
build_log_docs-count parse (some tx ∷ txs) receipts =
    let found = lookup tx.hash (add_receipts receipts []) in
    let same = ap (λ o. receipt_log_count o) (lookup-filled add_receipts-Fills tx.hash receipts) in
    omega (
      arith,
      length-append (map (build_log_data parse) (logs_of found)) _,
      length-map (logs_of found) (build_log_data parse),
      logs_of-count found,
      same,
      build_log_docs-count parse txs receipts,
    )
