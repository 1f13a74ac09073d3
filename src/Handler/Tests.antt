-- ===== src/Handler/Tests.antt =====
-- A store that takes every document, and runs of the handler on small blocks.
use shinzo_generator_client.Prelude.{
  ℕ, suc, ◌+◌, ◌-◌, ◌<◌, ◌≡◌, refl, arith, String, List, [], ◌∷◌, Bool, true, false, ◌&&◌, Option,
  none, some, ok, length, drop, All, replicate, ne_of_test, ltb, ◌≤◌, ◌%◌, ◌==◌, if◌then◌else◌,
}
use shinzo_generator_client.Dict.{lookup, append_at}
use shinzo_generator_client.Processor.Run.{ErrorText}
use shinzo_generator_client.Chains.{Doc, text, number, ConversionResult}
use shinzo_generator_client.Handler.{
  Env, World, Signature, is_transaction_conflict, ◌>>=◌, pure, throw, call, collect, open_txn,
  commit_txn,
}
use shinzo_generator_client.Handler.Writes.{create_docs_in_txn}
use shinzo_generator_client.Handler.Batches.{BlockHandler, write_batch_with_retry, create_doc_batch}
use shinzo_generator_client.Handler.Batches.Retry.{Settles, batch_with_retry-Settles}
use shinzo_generator_client.Handler.Batches.Chunks.{concat, write_in_turn, create_doc_batch-chunks}
use shinzo_generator_client.Handler.Store.{BlockCreationResult, store}
use shinzo_generator_client.Handler.Store.Signed.{IsWhole, doc_count, store-signed}
use shinzo_generator_client.Handler.Existing.{query_collection_doc_ids, doc_ids}
use shinzo_generator_client.Handler.Existing.Ranges.{rows_from, query_collection_doc_ids-whole}

abbrev pub conflict : ErrorText
conflict = record {
  not_found = false;
  already_exists = false;
  transaction_conflict = true;
  document_deleted = false;
}

abbrev pub signature : Signature
signature = record {
  merkle_root_hex = "00";
  cid_count = 0;
  signature_type = "EdDSA";
  identity = "node";
  value_hex = "00";
}

-- the state counts the commits, the first two of which conflict if `busy`
abbrev pub env : Bool → Env ℕ ℕ String Doc
env busy = record {
  new_txn = λ s. ok s;
  get_collection_by_name = λ t name. ok name;
  new_doc_from_map = λ doc col. ok doc;
  add_document = λ col doc t. record { txn = t; collected = "cid" ∷ []; outcome = ok "doc" };
  add_many_documents = λ col docs t. record {
    txn = t;
    collected = replicate (length docs) "cid";
    outcome = ok (λ i. "doc");
  };
  commit = λ t s. if busy && ltb s 2 then (suc s, some conflict) else (suc s, none);
  context_done = λ s. false;
  wait = λ ms s. (s, false);
  now = λ s. "now";
  sort_strings = λ ss. ss;
  sign_batch = λ cids s. ok (some signature);
  verify_batch_sig = λ sig cids. ok true;
  collect_doc_cids = λ ids names s. ok ids;
  query_doc_ids = λ col field from to s. ok (some "doc" ∷ none ∷ some "doc" ∷ []);
}

abbrev pub handler : BlockHandler
handler = record { max_docs_per_txn = 2; max_cid_retries = 15 }

abbrev docs : List Doc
docs = replicate 3 (("hash", text "0xaa") ∷ [])

-- a block at the height 7 with two transactions
abbrev result : ConversionResult (Unit {0})
result = record {
  groups =
      record {
        collection = "Block";
        docs = (("number", number 7) ∷ ("hash", text "0xbb") ∷ []) ∷ [];
        batch_size = 0;
        block_num_field = "number";
        block_hash_field = "hash";
        parent_hash_field = "parentHash";
      }
      ∷ record {
        collection = "Transaction";
        docs = (("hash", text "0xaa") ∷ []) ∷ (("hash", text "0xcc") ∷ []) ∷ [];
        batch_size = 0;
        block_num_field = "blockNumber";
        block_hash_field = "";
        parent_hash_field = "";
      }
      ∷ [];
  signature_collection = "BlockSignature";
  link_stamper = none;
  links = tt;
}

abbrev creation : BlockCreationResult
creation = record {
  block_number = 7;
  block_id = "doc";
  block_signature_id = "doc";
  block_signature_collection = "BlockSignature";
  other_doc_ids = ("Transaction", "doc" ∷ "doc" ∷ []) ∷ [];
}

abbrev pub untracked : BlockCreationResult → ℕ → ℕ
untracked c s = s

stored : (store (env false) handler untracked result 0).1.creation ≡ some creation
unfolding store ◌>>=◌ pure throw call collect open_txn commit_txn lookup append_at
    write_batch_with_retry create_docs_in_txn
stored = refl

store-signed_example :
    IsWhole
      (env false)
      (doc_count (drop 1 result.groups))
      creation
      (store (env false) handler untracked result 0).1.error
store-signed_example =
    store-signed (env false) handler untracked result 0 creation tt (omega arith) stored
      (ne_of_test "doc" "" refl)

-- two conflicts, and then the three documents are written
retried :
    write_batch_with_retry
      (env true)
      (create_docs_in_txn (env true) "Log" docs)
      (record { outside = 0; cids = "block" ∷ [] })
    ≡ (
      record { outside = 3; cids = "block" ∷ "cid" ∷ "cid" ∷ "cid" ∷ [] },
      ok ("doc" ∷ "doc" ∷ "doc" ∷ []),
    )
unfolding ◌>>=◌ pure throw call collect open_txn commit_txn write_batch_with_retry
    create_docs_in_txn is_transaction_conflict
retried = refl

batch_with_retry-Settles_example :
    Settles
      (create_docs_in_txn (env true) "Log" docs)
      (record { outside = 0; cids = [] })
      (write_batch_with_retry
        (env true)
        (create_docs_in_txn (env true) "Log" docs)
        (record { outside = 0; cids = [] }))
batch_with_retry-Settles_example =
    batch_with_retry-Settles (env true) "Log" docs (record { outside = 0; cids = [] })

create_doc_batch-chunks_example :
    (batches : List (List Doc)) × (concat batches ≡ docs)
    × All (λ b. (0 < length b) × (length b ≤ 2)) batches
    × ((w : World ℕ)
        → create_doc_batch (env false) "Log" docs 2 w
          ≡ write_in_turn (env false) "Log" batches [] w)
create_doc_batch-chunks_example = create_doc_batch-chunks (env false) "Log" docs 2 (omega arith)

-- a row with an ID at each even height, and one without at each odd height
abbrev rows : ℕ → List (Option String)
rows n = (if n % 2 == 0 then some "doc" else none) ∷ []

query_collection_doc_ids-whole_example :
    query_collection_doc_ids (λ a b. ok (rows_from rows a (b + 1 - a))) 950 1105
    ≡ ok (doc_ids (rows_from rows 950 (1105 + 1 - 950)))
query_collection_doc_ids-whole_example = query_collection_doc_ids-whole rows 950 1105
