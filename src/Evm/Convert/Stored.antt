-- ===== src/Evm/Convert/Stored.antt =====
-- A converted block, stored by the block handler.
use shinzo_generator_client.Prelude.{
  ℕ, ◌+◌, ◌<◌, ◌≡◌, ◌≢◌, refl, sym, ◌∙◌, ap, subst, arith, String, List, [], ◌∷◌, ◌++◌, Option,
  none, some, Result, ok, err, ok-injective, err-ne-ok, length, total-append, drop, length-map,
}
use shinzo_generator_client.Dict.{size}
use shinzo_generator_client.Chains.{Doc, DocumentGroup, ConversionResult}
use shinzo_generator_client.Handler.{Env}
use shinzo_generator_client.Handler.Batches.{BlockHandler}
use shinzo_generator_client.Handler.Groups.Covers.{AreInPlace}
use shinzo_generator_client.Handler.Store.{BlockCreationResult, store}
use shinzo_generator_client.Handler.Store.Signed.{IsWhole, doc_count, store-signed}
use shinzo_generator_client.Evm.{Block, BlockBundle}
use shinzo_generator_client.Evm.Collections.{CollectionNames}
use shinzo_generator_client.Evm.Documents.{
  ParseInt, build_transaction_docs, build_receipt_map, build_log_docs, build_ale_docs, hex_to_int,
  build_ale_data,
}
use shinzo_generator_client.Evm.Documents.Ales.{
  Entry, entries_of, KeepsOnce, build_ale_docs-Distinct,
}
use shinzo_generator_client.Evm.Documents.Counts.{
  transaction_count, log_count, build_transaction_docs-count, build_log_docs-count,
}
use shinzo_generator_client.Evm.Links.{Links}
use shinzo_generator_client.Evm.Links.Stamps.{evm_link_stamper-IsInPlace}
use shinzo_generator_client.Evm.Convert.{
  IndexerConfig, ConvertError, nil_block, invalid_block_number, group_if_any, convert_at,
  convert_parsed, convert_block, convert,
}

group_if_any-count :
    (collection : String) (docs : List Doc) (size : ℕ)
    → doc_count (group_if_any collection docs size) ≡ length docs
unfolding group_if_any
group_if_any-count collection [] size = omega arith
group_if_any-count collection (doc ∷ docs) size = omega arith

groups_count :
    (c1 : String) (docs1 : List Doc) (size1 : ℕ) (c2 : String) (docs2 : List Doc) (size2 : ℕ)
    (c3 : String) (docs3 : List Doc) (size3 : ℕ)
    → doc_count
        (group_if_any c1 docs1 size1 ++ group_if_any c2 docs2 size2 ++ group_if_any c3 docs3 size3)
      ≡ length docs1 + length docs2 + length docs3
groups_count c1 docs1 size1 c2 docs2 size2 c3 docs3 size3 =
    let g1 = group_if_any c1 docs1 size1 in
    let g2 = group_if_any c2 docs2 size2 in
    let g3 = group_if_any c3 docs3 size3 in
    omega (
      arith,
      group_if_any-count c1 docs1 size1,
      group_if_any-count c2 docs2 size2,
      group_if_any-count c3 docs3 size3,
      total-append (λ (g : DocumentGroup). length g.docs) (g1 ++ g2) g3,
      total-append (λ (g : DocumentGroup). length g.docs) g1 g2,
    )

-- the documents of a bundle behind the block's own, with the block's height
bundle_count : ParseInt → BlockBundle → ℕ → ℕ
bundle_count parse bundle block_int =
    length (build_transaction_docs parse bundle.transactions)
    + length (build_log_docs parse bundle.transactions (build_receipt_map bundle.receipts))
    + length (build_ale_docs bundle.transactions block_int).docs

-- the groups hold all documents of the bundle, and the stamper is the chain's
record Converts (parse : ParseInt) (bundle : BlockBundle) (result : ConversionResult Links)
    : Type 0 where
  block : Block
  has_block : bundle.block ≡ some block
  block_int : ℕ
  height : hex_to_int parse block.number ≡ some block_int
  counts : doc_count (drop 1 result.groups) ≡ bundle_count parse bundle block_int
  in_place : AreInPlace result.link_stamper

module _ (parse : ParseInt) (cols : CollectionNames) (cfg : IndexerConfig)
    (bundle : BlockBundle) where
  convert_at-counts :
      (block : Block) (block_int : ℕ)
      → doc_count (drop 1 (convert_at parse cols cfg bundle block block_int).groups)
        ≡ bundle_count parse bundle block_int
  unfolding convert_at bundle_count
  convert_at-counts block block_int =
      groups_count cols.transaction (build_transaction_docs parse bundle.transactions) _ cols.log
        (build_log_docs parse bundle.transactions (build_receipt_map bundle.receipts)) _
        cols.access_list_entry (build_ale_docs bundle.transactions block_int).docs _

  err-Converts :
      {result : ConversionResult Links} (e : ConvertError)
      → ◌≡◌ {A = Result ConvertError (ConversionResult Links)} (err e) (ok result)
      → Converts parse bundle result
  err-Converts e same = absurd (err-ne-ok same)

  convert-Converts :
      (result : ConversionResult Links)
      → convert parse cols cfg bundle ≡ ok result
      → Converts parse bundle result
  convert-Converts result converted = by_block bundle.block refl (unfold convert in converted)
    where
      at_height :
          (block : Block) (o : Option ℕ)
          → bundle.block ≡ some block
          → hex_to_int parse block.number ≡ o
          → convert_parsed parse cols cfg bundle block o ≡ ok result
          → Converts parse bundle result
      at_height block none has height same =
          err-Converts (invalid_block_number block.number) (unfold convert_parsed in same)
      at_height block (some block_int) has height same =
          let is_result : convert_at parse cols cfg bundle block block_int ≡ result =
            ok-injective {E = ConvertError} (unfold convert_parsed in same) in
          record {
            block = block;
            has_block = has;
            block_int = block_int;
            height = height;
            counts =
                ap (λ (r : ConversionResult Links). doc_count (drop 1 r.groups)) (sym is_result)
                ∙ convert_at-counts block block_int;
            in_place =
                subst (λ (r : ConversionResult Links). AreInPlace r.link_stamper) is_result
                  (unfold convert_at in (evm_link_stamper-IsInPlace cols));
          }

      by_block :
          (o : Option Block)
          → bundle.block ≡ o
          → convert_block parse cols cfg bundle o ≡ ok result
          → Converts parse bundle result
      by_block none has same = err-Converts nil_block (unfold convert_block in same)
      by_block (some block) has same =
          at_height block (hex_to_int parse block.number) has refl (unfold convert_block in same)

-- the number of documents behind the block's own, in terms of the bundle: one for each transaction,
-- for each log of a transaction's last receipt, and for each of the kept access list entries
bundle_count-counts :
    (parse : ParseInt) (bundle : BlockBundle) (block_int : ℕ)
    → (kept : List Entry) × KeepsOnce kept (entries_of bundle.transactions)
      × (bundle_count parse bundle block_int
          ≡ transaction_count bundle.transactions
            + log_count bundle.transactions bundle.receipts
            + length kept)
unfolding bundle_count
bundle_count-counts parse bundle block_int =
    let ales = build_ale_docs-Distinct bundle.transactions block_int in
    (
      ales.0,
      record { in_block = ales.1; distinct = ales.4; found = ales.5 },
      omega (
        arith,
        build_transaction_docs-count parse bundle.transactions,
        build_log_docs-count parse bundle.transactions bundle.receipts,
        ap length ales.2,
        length-map ales.0 (λ (e : Entry). build_ale_data e.1 block_int),
      ),
    )

-- A block of the chain that is converted and stored by a handler with a positive batch size: when
-- the result has a signature, there is no error; the result has as many IDs as the bundle has
-- transactions, logs in the last receipts of their hashes, and access list entries without repeats;
-- and a signature was made, and verified, over a list of one CID more than that.
pub convert-store-signed :
    {S T C D : Type 0} (parse : ParseInt) (cols : CollectionNames) (cfg : IndexerConfig)
    (bundle : BlockBundle) (result : ConversionResult Links) (env : Env S T C D) (h : BlockHandler)
    (track_block : BlockCreationResult → S → S) (outside : S) (creation : BlockCreationResult)
    → convert parse cols cfg bundle ≡ ok result
    → 0 < h.max_docs_per_txn
    → (store env h track_block result outside).1.creation ≡ some creation
    → creation.block_signature_id ≢ ""
    → (kept : List Entry) × KeepsOnce kept (entries_of bundle.transactions)
      × IsWhole env
          (transaction_count bundle.transactions
            + log_count bundle.transactions bundle.receipts
            + length kept)
          creation
          (store env h track_block result outside).1.error
convert-store-signed parse cols cfg bundle result env h track_block outside creation converted pos
      returned signed =
    let c = convert-Converts parse cols cfg bundle result converted in
    let counts = bundle_count-counts parse bundle c.block_int in
    (
      counts.0,
      counts.1,
      subst (λ n. IsWhole env n creation (store env h track_block result outside).1.error)
          (c.counts ∙ counts.2)
          (store-signed env h track_block result outside creation c.in_place pos returned signed),
    )
