-- ===== src/Processor/Fetch.antt =====
-- The work of a fetch worker on one block: `fetchAndConvertBlock`. The converter is a parameter.
use shinzo_generator_client.Prelude.{
  ℕ, String, List, [], ◌∷◌, true, false, Option, none, some, Result, ok, err, str_eq, if◌then◌else◌,
}
use shinzo_generator_client.Chains.{Doc, text_at, DocumentGroup, ConversionResult}
use shinzo_generator_client.Processor.Types.{BlockResult}
use shinzo_generator_client.Processor.Retry.{
  Attempt, Fetched, fetched, cancelled, gave_up, still_trying, fetch_with_retry,
}

-- the text of a field in the first document of a group, if the group names the field
unfoldable pub first_text : String → List Doc → Option String
first_text field [] = none
first_text field (doc ∷ docs) = if str_eq field "" then none else text_at field doc

unfoldable pub or_later : Option String → String → String
or_later none later = later
or_later (some s) later = s

-- `extractBlockHash`
unfoldable pub extract_block_hash : List DocumentGroup → String
unfolding first_text or_later
extract_block_hash [] = ""
extract_block_hash (g ∷ groups) =
    or_later (first_text g.block_hash_field g.docs) (extract_block_hash groups)

-- `extractBlockParentHash`
unfoldable pub extract_block_parent_hash : List DocumentGroup → String
unfolding first_text or_later
extract_block_parent_hash [] = ""
extract_block_parent_hash (g ∷ groups) =
    or_later (first_text g.parent_hash_field g.docs) (extract_block_parent_hash groups)

-- a BlockResult with its `Converted`, which is nil after an error
pub record WorkerResult (L : Type 0) : Type 0 where
  pub result : BlockResult
  pub converted : Option (ConversionResult L)

unfoldable pub failure : {L : Type 0} → ℕ → WorkerResult L
failure block_num = record {
  result = record { block_num = block_num; hash = ""; parent_hash = ""; success = false };
  converted = none;
}

module _ {R E L : Type 0} (convert : R → Result E (ConversionResult L)) (block_num : ℕ) where
  unfoldable pub worker_result : Result E (ConversionResult L) → WorkerResult L
  unfolding extract_block_hash extract_block_parent_hash failure
  worker_result (err e) = failure block_num
  worker_result (ok converted) = record {
    result = record {
      block_num = block_num;
      hash = extract_block_hash converted.groups;
      parent_hash = extract_block_parent_hash converted.groups;
      success = true;
    };
    converted = some converted;
  }

  unfoldable pub convert_fetched : Fetched R → Option (WorkerResult L)
  unfolding worker_result failure
  convert_fetched (fetched raw) = some (worker_result (convert raw))
  convert_fetched cancelled = some (failure block_num)
  convert_fetched (gave_up e) = some (failure block_num)
  convert_fetched still_trying = none

  -- `fetchAndConvertBlock`, over the attempts of the fetch so far; none while it still tries
  unfoldable pub fetch_and_convert_block : List (Attempt R) → Option (WorkerResult L)
  unfolding convert_fetched fetch_with_retry
  fetch_and_convert_block attempts = convert_fetched (fetch_with_retry attempts)
