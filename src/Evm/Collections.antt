-- ===== src/Evm/Collections.antt =====
-- The names of a chain's collections: pkg/chains/evm/collections.go.
use shinzo_generator_client.Prelude.{String, ◌≡◌, false, str_eq, test_of_ne, ne_of_test}
use Prim.Native.String.{◌++◌ as ◌<>◌}
use text.Mathlib.TextLemmas.{append_cancel_left}

pub record CollectionNames : Type 0 where
  pub prefix : String
  pub block : String
  pub block_signature : String
  pub snapshot_signature : String
  pub transaction : String
  pub access_list_entry : String
  pub log : String

-- `NewCollectionNames`
unfoldable pub new_collection_names : String → CollectionNames
new_collection_names prefix = record {
  prefix = prefix;
  block = prefix <> "__Block";
  block_signature = prefix <> "__BlockSignature";
  snapshot_signature = prefix <> "__SnapshotSignature";
  transaction = prefix <> "__Transaction";
  access_list_entry = prefix <> "__AccessListEntry";
  log = prefix <> "__Log";
}

-- names with the same prefix differ where their ends do
pub suffix_ne :
    (prefix a b : String) → str_eq a b ≡ false → str_eq (prefix <> a) (prefix <> b) ≡ false
suffix_ne prefix a b ne =
    test_of_ne (prefix <> a) (prefix <> b)
      (λ same. ne_of_test a b ne (append_cancel_left prefix a b same))
