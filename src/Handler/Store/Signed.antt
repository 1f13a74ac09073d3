-- ===== src/Handler/Store/Signed.antt =====
-- What a signature in the result of `Store` stands for.
use shinzo_generator_client.Prelude.{
  ℕ, suc, ◌<◌, ◌≡◌, ◌≢◌, refl, ◌∙◌, ap, subst, arith, String, List, [], ◌∷◌, Option, none, some,
  Result, ok, err, length, total, drop,
}
use shinzo_generator_client.Dict.{size, lookup}
use shinzo_generator_client.Chains.{Doc, text_at, DocumentGroup, LinkError, ConversionResult}
use shinzo_generator_client.Handler.{Env, World, StoreError}
use shinzo_generator_client.Handler.Batches.{BlockHandler}
use shinzo_generator_client.Handler.Groups.{
  Progress, recorded, record_doc_ids, stamp_before_write, store_groups,
}
use shinzo_generator_client.Handler.Groups.Covers.{AreInPlace, store_groups-Covers}
use shinzo_generator_client.Handler.Signing.Verified.{IsSigned, sign_stored_block-IsSigned}
use shinzo_generator_client.Handler.Store.{
  BlockCreationResult, Outcome, or_empty, to_int64, failed, partial_error, conclude, first_progress,
  block_written, after_block, store_stamped, store_block, store_first, store_all, store,
}

-- A block of which `n` documents stand behind the block's own: there is no error, there are as many
-- IDs, and a signature was made and verified over one CID more than that.
pub record IsWhole {S T C D : Type 0} (env : Env S T C D) (n : ℕ) (creation : BlockCreationResult)
    (error : Option StoreError) : Type 0 where
  pub no_error : error ≡ none
  pub ids : size creation.other_doc_ids ≡ n
  pub cids : List String
  pub cid_count : length cids ≡ suc n
  pub is_signed : IsSigned env cids

abbrev WholeIfSigned :
    {S T C D : Type 0} → Env S T C D → ℕ → Option BlockCreationResult → Option StoreError → Type 0
WholeIfSigned env n none error = Unit
WholeIfSigned env n (some creation) error =
    creation.block_signature_id ≢ "" → IsWhole env n creation error

abbrev SignedIsWhole : {S T C D : Type 0} → Env S T C D → ℕ → Outcome → Type 0
SignedIsWhole env n o = WholeIfSigned env n o.creation o.error

-- the number of documents of some groups
abbrev pub doc_count : List DocumentGroup → ℕ
doc_count = total (λ (g : DocumentGroup). length g.docs)

module _ {S T C D L : Type 0} (env : Env S T C D) (h : BlockHandler)
    (track_block : BlockCreationResult → S → S) (result : ConversionResult L) where
  conclude-signed :
      (n block_int : ℕ) (block_hash block_id : String) (w : World S) (p : Progress L)
      → (p.batch_errors ≡ [] → (length p.all_doc_ids ≡ suc n) × (size p.other_doc_ids ≡ n))
      → SignedIsWhole env n
          (conclude env h track_block result block_int block_hash block_id (w, p)).1
  unfolding conclude
  conclude-signed n block_int block_hash block_id w p counts = λ signed.
      let (no_errors, same, is_signed) =
        sign_stored_block-IsSigned env block_int block_hash p.all_doc_ids p.batch_errors
          result.signature_collection w signed in
      let (all, other) = counts no_errors in
      record {
        no_error = ap partial_error no_errors ∙ (unfold partial_error in refl);
        ids = other;
        cids = w.cids;
        cid_count = same ∙ all;
        is_signed = is_signed;
      }

  recorded-counts :
      (r : L × Option LinkError) (p : Progress L)
      → length p.all_doc_ids ≡ 1
      → size p.other_doc_ids ≡ 0
      → (length (recorded r p).all_doc_ids ≡ 1) × (size (recorded r p).other_doc_ids ≡ 0)
  unfolding recorded
  recorded-counts (links, none) p one zero_left = (one, zero_left)
  recorded-counts (links, some e) p one zero_left = (one, zero_left)

  block_written-counts :
      (g : DocumentGroup) (docs : List Doc) (block_id : String)
      → (length (block_written env h track_block result g docs block_id).all_doc_ids ≡ 1)
        × (size (block_written env h track_block result g docs block_id).other_doc_ids ≡ 0)
  unfolding block_written first_progress
  block_written-counts g docs block_id =
      recorded-counts (record_doc_ids result.link_stamper g docs (block_id ∷ []) result.links)
        (first_progress env h track_block result block_id) refl refl

  after_block-signed :
      (block_int : ℕ) (block_hash : String) (g : DocumentGroup) (docs : List Doc)
      (groups : List DocumentGroup) (r : World S × Result StoreError String)
      → AreInPlace result.link_stamper
      → 0 < h.max_docs_per_txn
      → SignedIsWhole env
          (doc_count groups)
          (after_block env h track_block result block_int block_hash g docs groups r).1
  unfolding after_block failed
  after_block-signed block_int block_hash g docs groups (w, err e) in_place pos = tt
  after_block-signed block_int block_hash g docs groups (w, ok block_id) in_place pos =
      let p = block_written env h track_block result g docs block_id in
      let (one, none_other) = block_written-counts g docs block_id in
      conclude-signed _ block_int block_hash block_id
        (store_groups env h result.link_stamper groups p w).0
        (store_groups env h result.link_stamper groups p w).1
        (λ no_errors.
          let (before, all, other) =
            store_groups-Covers env h result.link_stamper groups p w in_place pos no_errors in
          (omega (arith, all, one), omega (arith, other, none_other)))

  store_stamped-signed :
      (block_int : ℕ) (block_hash : String) (g : DocumentGroup) (block_data : Doc)
      (groups : List DocumentGroup) (r : List Doc × Option LinkError) (w : World S)
      → AreInPlace result.link_stamper
      → 0 < h.max_docs_per_txn
      → SignedIsWhole env
          (doc_count groups)
          (store_stamped env h track_block result block_int block_hash g block_data groups r w).1
  unfolding store_stamped failed
  store_stamped-signed block_int block_hash g block_data groups (docs, some e) w in_place pos = tt
  store_stamped-signed block_int block_hash g block_data groups (docs, none) w in_place pos =
      after_block-signed block_int block_hash g docs groups _ in_place pos

  store_block-signed :
      (g : DocumentGroup) (block_data : Doc) (groups : List DocumentGroup) (r : Result StoreError ℕ)
      (w : World S)
      → AreInPlace result.link_stamper
      → 0 < h.max_docs_per_txn
      → SignedIsWhole env
          (doc_count groups)
          (store_block env h track_block result g block_data groups r w).1
  unfolding store_block failed
  store_block-signed g block_data groups (err e) w in_place pos = tt
  store_block-signed g block_data groups (ok block_int) w in_place pos =
      store_stamped-signed block_int (or_empty (text_at g.block_hash_field block_data)) g block_data
        groups (stamp_before_write result.link_stamper g result.links) w in_place pos

  store_all-signed :
      (groups : List DocumentGroup) (w : World S)
      → AreInPlace result.link_stamper
      → 0 < h.max_docs_per_txn
      → SignedIsWhole env
          (doc_count (drop 1 groups))
          (store_all env h track_block result groups w).1
  unfolding store_all store_first failed
  store_all-signed [] w in_place pos = tt
  store_all-signed (g ∷ groups) w in_place pos = by_docs g.docs
    where
      by_docs :
          (docs : List Doc)
          → SignedIsWhole env
              (doc_count groups)
              (store_first env h track_block result g docs groups w).1
      by_docs [] = tt
      by_docs (block_data ∷ docs) =
          store_block-signed g block_data groups (to_int64 (lookup g.block_num_field block_data)) w
            in_place pos

-- A signature in the result of `Store`, given a stamper that neither adds nor drops documents and a
-- positive batch size: there is no error, the result has as many IDs as the groups
-- behind the block's own have documents, and a signature was made, and verified, over a list of one
-- CID more than that.
pub store-signed :
    {S T C D L : Type 0} (env : Env S T C D) (h : BlockHandler)
    (track_block : BlockCreationResult → S → S) (result : ConversionResult L) (outside : S)
    (creation : BlockCreationResult)
    → AreInPlace result.link_stamper
    → 0 < h.max_docs_per_txn
    → (store env h track_block result outside).1.creation ≡ some creation
    → creation.block_signature_id ≢ ""
    → IsWhole env
        (doc_count (drop 1 result.groups))
        creation
        (store env h track_block result outside).1.error
store-signed env h track_block result outside creation in_place pos returned signed =
    subst
      (λ o.
        WholeIfSigned env (doc_count (drop 1 result.groups)) o
          (store env h track_block result outside).1.error)
      returned
      (unfold store in
        (store_all-signed env h track_block result result.groups
          (record { outside = outside; cids = [] }) in_place pos))
      signed
