-- ===== src/Evm/Numbers.antt =====
-- The stored height of the chain: `queryBlockNumber` of converter.go.
pub mod Usable
use shinzo_generator_client.Prelude.{
  ℕ, String, List, [], ◌∷◌, Bool, true, false, Option, none, some, Result, ok, err, ltb, length,
  if◌then◌else◌,
}
use shinzo_generator_client.Processor.Run.{ErrorText}
use shinzo_generator_client.Chains.{Value, text, number, flag, texts, Doc}
use shinzo_generator_client.Dict.{lookup}

-- a row of a query's result, which may be no map
pub data Row : Type 0 where
  not_a_map : Row
  fields : Doc → Row

-- what DefraDB answers: errors, no map of results, no list in it, or rows
pub data QueryReply : Type 0 where
  query_failed : ErrorText → QueryReply
  no_data : QueryReply
  no_list : QueryReply
  rows : List Row → QueryReply

pub data NumberError : Type 0 where
  failed : ErrorText → NumberError
  not_found : NumberError
  corrupt : NumberError

-- `parseBlockNumberRow`
parse_block_number : Option Value → Option ℕ
parse_block_number (some (number n)) = some n
parse_block_number (some (text s)) = none
parse_block_number (some (flag b)) = none
parse_block_number (some (texts ss)) = none
parse_block_number none = none

pub parse_block_number_row : Row → Option ℕ
unfolding parse_block_number
parse_block_number_row not_a_map = none
parse_block_number_row (fields block) = parse_block_number (lookup "number" block)

first_or : Option ℕ → Result NumberError ℕ → Result NumberError ℕ
first_or none rest = rest
first_or (some n) rest = ok n

-- `firstUsableRow`
pub first_usable_row : List Row → Result NumberError ℕ
unfolding first_or parse_block_number_row
first_usable_row [] = err corrupt
first_usable_row (row ∷ more) = first_or (parse_block_number_row row) (first_usable_row more)

-- `hasAnyBlockDocs`
pub has_any_block_docs : QueryReply → Result NumberError Bool
has_any_block_docs (query_failed e) = err (failed e)
has_any_block_docs no_data = ok false
has_any_block_docs no_list = ok false
has_any_block_docs (rows []) = ok false
has_any_block_docs (rows (row ∷ more)) = ok true

no_rows : Result NumberError Bool → Result NumberError ℕ
no_rows (err e) = err e
no_rows (ok present) = if present then err corrupt else err not_found

-- `queryBlockNumber`, given the answers to its query and to that of `hasAnyBlockDocs`
unfoldable pub query_block_number : QueryReply → QueryReply → Result NumberError ℕ
unfolding first_usable_row has_any_block_docs no_rows
query_block_number (query_failed e) any = err (failed e)
query_block_number no_data any = err not_found
query_block_number no_list any = err not_found
query_block_number (rows []) any = no_rows (has_any_block_docs any)
query_block_number (rows (row ∷ more)) any = first_usable_row (row ∷ more)
