-- ===== src/Evm/Convert/Worker.antt =====
-- What a fetch worker of the processor reports of a block of this chain.
use shinzo_generator_client.Prelude.{
  ℕ, ◌≡◌, refl, sym, ap, ◌∙◌, subst, List, true, Option, none, some, ok,
}
use shinzo_generator_client.Dict.{lookup}
use shinzo_generator_client.Chains.{ConversionResult, text_of, text_at}
use shinzo_generator_client.Processor.Run.{ErrorText}
use shinzo_generator_client.Processor.Retry.{
  Attempt, Fetched, fetched, cancelled, gave_up, still_trying, fetch_with_retry,
}
use shinzo_generator_client.Processor.Fetch.{
  first_text, or_later, extract_block_hash, extract_block_parent_hash, WorkerResult, failure,
  worker_result, convert_fetched, fetch_and_convert_block,
}
use shinzo_generator_client.Evm.{Block, BlockBundle}
use shinzo_generator_client.Evm.Collections.{CollectionNames}
use shinzo_generator_client.Evm.Documents.{ParseInt, hex_to_int, build_block_data}
use shinzo_generator_client.Evm.Links.{Links}
use shinzo_generator_client.Evm.Convert.{
  IndexerConfig, block_group, convert_at, convert_parsed, convert_block, convert,
}

-- the report on a block that was converted
pub success : ℕ → Block → ConversionResult Links → WorkerResult Links
success block_num block converted = record {
  result = record {
    block_num = block_num;
    hash = block.hash;
    parent_hash = block.parent_hash;
    success = true;
  };
  converted = some converted;
}

module _ (parse : ParseInt) (cols : CollectionNames) (cfg : IndexerConfig) (block_num : ℕ) where
  -- what the worker reports of a fetch that ended in this way
  pub data Reports : Fetched BlockBundle → Option (WorkerResult Links) → Type 0 where
    delivered :
        {bundle : BlockBundle} {block : Block} {block_int : ℕ} {converted : ConversionResult Links}
        → bundle.block ≡ some block
        → hex_to_int parse block.number ≡ some block_int
        → convert parse cols cfg bundle ≡ ok converted
        → Reports (fetched bundle) (some (success block_num block converted))
    no_block :
        {bundle : BlockBundle}
        → bundle.block ≡ none
        → Reports (fetched bundle) (some (failure block_num))
    no_height :
        {bundle : BlockBundle} {block : Block}
        → bundle.block ≡ some block
        → hex_to_int parse block.number ≡ none
        → Reports (fetched bundle) (some (failure block_num))
    stopped : Reports cancelled (some (failure block_num))
    abandoned : {e : ErrorText} → Reports (gave_up e) (some (failure block_num))
    unfinished : Reports still_trying none

  worker_result-convert_at :
      (bundle : BlockBundle) (block : Block) (block_int : ℕ)
      → worker_result
          (convert parse cols cfg)
          block_num
          (ok (convert_at parse cols cfg bundle block block_int))
        ≡ success block_num block (convert_at parse cols cfg bundle block block_int)
  unfolding worker_result success convert_at block_group build_block_data extract_block_hash
      extract_block_parent_hash first_text or_later text_at text_of lookup
  worker_result-convert_at bundle block block_int = refl

  convert-convert_at :
      (bundle : BlockBundle) (block : Block) (block_int : ℕ)
      → bundle.block ≡ some block
      → hex_to_int parse block.number ≡ some block_int
      → convert parse cols cfg bundle ≡ ok (convert_at parse cols cfg bundle block block_int)
  unfolding convert convert_block convert_parsed
  convert-convert_at bundle block block_int has height =
      ap (convert_block parse cols cfg bundle) has
      ∙ ap (convert_parsed parse cols cfg bundle block) height

  by_height :
      (bundle : BlockBundle) (block : Block) (o : Option ℕ)
      → bundle.block ≡ some block
      → hex_to_int parse block.number ≡ o
      → Reports (fetched bundle) (
          some (
            worker_result
              (convert parse cols cfg)
              block_num
              (convert_parsed parse cols cfg bundle block o)))
  unfolding convert_parsed worker_result
  by_height bundle block none has height = no_height has height
  by_height bundle block (some block_int) has height =
      subst (λ r. Reports (fetched bundle) (some r))
        (sym (worker_result-convert_at bundle block block_int))
        (delivered has height (convert-convert_at bundle block block_int has height))

  by_block :
      (bundle : BlockBundle) (o : Option Block)
      → bundle.block ≡ o
      → Reports (fetched bundle) (
          some (
            worker_result
              (convert parse cols cfg)
              block_num
              (convert_block parse cols cfg bundle o)))
  unfolding convert_block worker_result
  by_block bundle none has = no_block has
  by_block bundle (some block) has = by_height bundle block (hex_to_int parse block.number) has refl

  by_fetch :
      (fetch : Fetched BlockBundle)
      → Reports fetch (convert_fetched (convert parse cols cfg) block_num fetch)
  unfolding convert_fetched convert
  by_fetch (fetched bundle) = by_block bundle bundle.block refl
  by_fetch cancelled = stopped
  by_fetch (gave_up e) = abandoned
  by_fetch still_trying = unfinished

  -- A fetch worker of this chain, over any attempts of the fetch: it has no result exactly while it
  -- still tries; a fetched bundle with a block of a readable height gives a successful result of
  -- this number with the hash and the parent hash of that block and with its conversion; in all
  -- other cases the result is a failure of this number, with no hashes and no conversion.
  pub fetch_and_convert_block-Reports :
      (attempts : List (Attempt BlockBundle))
      → Reports
          (fetch_with_retry attempts)
          (fetch_and_convert_block (convert parse cols cfg) block_num attempts)
  unfolding fetch_and_convert_block
  fetch_and_convert_block-Reports attempts = by_fetch (fetch_with_retry attempts)
