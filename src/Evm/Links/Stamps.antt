-- ===== src/Evm/Links/Stamps.antt =====
-- What the stamper writes into the documents of each collection.
use shinzo_generator_client.Prelude.{
  ℕ, suc, ◌≡◌, refl, ◌⊎◌, ◌∙◌, ap, String, List, [], ◌∷◌, Bool-cases, inl, inr, Option, none, some,
  str_eq, length, test_refl, ◌≢◌, eq_of_test, ne_of_test, subst,
}
use Prim.Native.String.{◌++◌ as ◌<>◌}
use shinzo_generator_client.Dict.{lookup, put}
use shinzo_generator_client.Chains.{Doc, text, text_at, LinkError, missing_hash, no_block_doc_id}
use shinzo_generator_client.Evm.Collections.{CollectionNames, new_collection_names, suffix_ne}
use shinzo_generator_client.Handler.Groups.Covers.{IsInPlace}
use shinzo_generator_client.Evm.Links.{
  Links, required, stamped, link_transaction, checked, stamp_transactions, stamp_logs, stamp_ales,
  stamp_before_write, evm_link_stamper,
}

-- a transaction's document and a log's, linked
pub linked_transaction : Links → Doc → Doc
linked_transaction links doc = put "_blockID" (text links.block_id) doc

-- the text, or the empty one
or_empty : Option String → String
or_empty none = ""
or_empty (some s) = s

pub linked_log : Links → Doc → Doc
unfolding link_transaction or_empty text_at
linked_log links doc =
    link_transaction (lookup (or_empty (text_at "transactionHash" doc)) links.tx_hash_to_id)
      (put "_blockID" (text links.block_id) doc)

-- the error of a document that cannot be linked, at the index `j`: it has no hash, or it has one and
-- the block's ID is not known
pub data Refuses (hash_of : Doc → Option String) (links : Links) (j : ℕ) (doc : Doc)
    : LinkError → Type 0 where
  no_hash :
      (hash_of doc ≡ none) ⊎ (hash_of doc ≡ some "") → Refuses hash_of links j doc (missing_hash j)
  no_block :
      {hash : String}
      → hash_of doc ≡ some hash
      → hash ≢ ""
      → links.block_id ≡ ""
      → Refuses hash_of links j doc (no_block_doc_id j)

-- a document that can be linked: it has a hash, and the block's ID is known
pub record CanLink (hash_of : Doc → Option String) (links : Links) (doc : Doc) : Type 0 where
  pub hash : String
  pub has : hash_of doc ≡ some hash
  pub hash_known : hash ≢ ""
  pub block_known : links.block_id ≢ ""

-- The documents from the index `j` on are linked by `f` one by one, each of them one that can be
-- linked; the first that cannot be is refused at its index, and it and the rest are as they were.
pub data IsPrefix (hash_of : Doc → Option String) (links : Links) (f : Doc → Doc)
    : ℕ → List Doc → List Doc × Option LinkError → Type 0 where
  all_linked : {j : ℕ} → IsPrefix hash_of links f j [] ([], none)
  linked :
      {j : ℕ} {doc : Doc} {docs docs' : List Doc} {e : Option LinkError}
      → CanLink hash_of links doc
      → IsPrefix hash_of links f (suc j) docs (docs', e)
      → IsPrefix hash_of links f j (doc ∷ docs) (f doc ∷ docs', e)
  refused :
      {j : ℕ} {doc : Doc} {docs : List Doc} {e : LinkError}
      → Refuses hash_of links j doc e
      → IsPrefix hash_of links f j (doc ∷ docs) (doc ∷ docs, some e)

module _ {hash_of : Doc → Option String} {links : Links} {f : Doc → Doc} where
  IsPrefix-stamped :
      (j : ℕ) (doc : Doc) (docs : List Doc) (r : List Doc × Option LinkError)
      → CanLink hash_of links doc
      → IsPrefix hash_of links f (suc j) docs r
      → IsPrefix hash_of links f j (doc ∷ docs) (stamped (f doc) r)
  unfolding stamped
  IsPrefix-stamped j doc docs (docs', e) can h = linked can h

  IsPrefix-checked :
      (hash : Option String) (j : ℕ) (next : String → List Doc × Option LinkError) (doc : Doc)
      (docs : List Doc)
      → hash_of doc ≡ hash
      → ((s : String)
          → CanLink hash_of links doc
          → hash ≡ some s
          → IsPrefix hash_of links f j (doc ∷ docs) (next s))
      → IsPrefix hash_of links f j (doc ∷ docs) (checked (required hash) j links next (doc ∷ docs))
  unfolding checked required
  IsPrefix-checked none j next doc docs has k = refused (no_hash (inl has))
  IsPrefix-checked (some s) j next doc docs has k = elim (Bool-cases (str_eq s "")) [
    | inl empty ↦ rw empty (refused (no_hash (inr (has ∙ ap some (eq_of_test s "" empty)))))
    | inr full ↦ rw full (elim (Bool-cases (str_eq links.block_id "")) [
      | inl unknown ↦
          rw unknown
            (refused (no_block has (ne_of_test s "" full) (eq_of_test links.block_id "" unknown)))
      | inr known ↦ rw known (
          k s
            (record {
              hash = s;
              has = has;
              hash_known = ne_of_test s "" full;
              block_known = ne_of_test links.block_id "" known;
            })
            refl)
    ])
  ]

stamp_transactions-IsPrefix :
    (links : Links) (docs : List Doc) (j : ℕ)
    → IsPrefix
        (text_at "hash")
        links
        (linked_transaction links)
        j
        docs
        (stamp_transactions docs j links)
unfolding stamp_transactions linked_transaction
stamp_transactions-IsPrefix links [] j = all_linked
stamp_transactions-IsPrefix links (doc ∷ docs) j =
    let rest = stamp_transactions docs (suc j) links in
    let h = stamp_transactions-IsPrefix links docs (suc j) in
    IsPrefix-checked (text_at "hash" doc) j
      (λ hash. stamped (put "_blockID" (text links.block_id) doc) rest) doc docs refl
      (λ hash can has. IsPrefix-stamped j doc docs rest can h)

stamp_logs-IsPrefix :
    (links : Links) (docs : List Doc) (j : ℕ)
    → IsPrefix (text_at "transactionHash") links (linked_log links) j docs (stamp_logs docs j links)
unfolding stamp_logs linked_log
stamp_logs-IsPrefix links [] j = all_linked
stamp_logs-IsPrefix links (doc ∷ docs) j =
    let rest = stamp_logs docs (suc j) links in
    let h = stamp_logs-IsPrefix links docs (suc j) in
    let linked_with = λ (s : String).
      link_transaction (lookup s links.tx_hash_to_id) (put "_blockID" (text links.block_id) doc) in
    IsPrefix-checked (text_at "transactionHash" doc) j (λ hash. stamped (linked_with hash) rest) doc
      docs refl
      (λ hash can has.
        subst
          (λ (d : Doc).
            IsPrefix (text_at "transactionHash") links (linked_log links) j (doc ∷ docs)
              (stamped d rest))
          (ap (λ (o : Option String). linked_with (or_empty o)) has)
          (IsPrefix-stamped j doc docs rest can h))

IsPrefix-length :
    {hash_of : Doc → Option String} {links : Links} {f : Doc → Doc} {j : ℕ} {docs : List Doc}
    {r : List Doc × Option LinkError}
    → IsPrefix hash_of links f j docs r
    → length r.0 ≡ length docs
IsPrefix-length all_linked = refl
IsPrefix-length (linked can h) = ap suc (IsPrefix-length h)
IsPrefix-length (refused why) = refl

stamp_ales-length :
    (docs : List Doc) (j : ℕ) (links : Links) → length (stamp_ales docs j links) ≡ length docs
unfolding stamp_ales
stamp_ales-length [] j links = refl
stamp_ales-length (doc ∷ docs) j links = ap suc (stamp_ales-length docs (suc j) links)

-- Whatever the collection and the state, the stamper returns as many documents as it is given.
pub evm_link_stamper-IsInPlace : (cols : CollectionNames) → IsInPlace (evm_link_stamper cols)
evm_link_stamper-IsInPlace cols collection docs links =
    unfold evm_link_stamper stamp_before_write in
    (elim (Bool-cases (str_eq collection cols.block)) [
      | inl is_block ↦ rw is_block refl
      | inr not_block ↦ rw not_block (elim (Bool-cases (str_eq collection cols.transaction)) [
        | inl is_tx ↦ rw is_tx (IsPrefix-length (stamp_transactions-IsPrefix links docs 0))
        | inr not_tx ↦ rw not_tx (elim (Bool-cases (str_eq collection cols.log)) [
          | inl is_log ↦ rw is_log (IsPrefix-length (stamp_logs-IsPrefix links docs 0))
          | inr not_log ↦ rw not_log (elim (Bool-cases (str_eq collection cols.access_list_entry)) [
            | inl is_ale ↦ rw is_ale (stamp_ales-length docs 0 links)
            | inr unknown ↦ rw unknown refl
          ])
        ])
      ])
    ])

-- For the collections of one chain, whatever the state: the block's document stays as it is. The
-- transactions' documents, and the logs', are linked one by one, each with a hash that is there and
-- not empty and with a block ID that is known; the first that lacks one of them is refused with an
-- error at its own index, and it and the documents behind it stay as they are.
pub stamp_before_write-IsPrefix :
    (prefix : String) (docs : List Doc) (links : Links)
    → (stamp_before_write
          (new_collection_names prefix)
          (new_collection_names prefix).block
          docs
          links
        ≡ (docs, none))
      × IsPrefix (text_at "hash") links (linked_transaction links) 0 docs (
          stamp_before_write
            (new_collection_names prefix)
            (new_collection_names prefix).transaction
            docs
            links)
      × IsPrefix (text_at "transactionHash") links (linked_log links) 0 docs (
          stamp_before_write
            (new_collection_names prefix)
            (new_collection_names prefix).log
            docs
            links)
unfolding new_collection_names stamp_before_write
stamp_before_write-IsPrefix prefix docs links =
    let tx_block = suffix_ne prefix "__Transaction" "__Block" refl in
    let log_block = suffix_ne prefix "__Log" "__Block" refl in
    let log_tx = suffix_ne prefix "__Log" "__Transaction" refl in
    let is_block = test_refl (prefix <> "__Block") in
    let is_tx = test_refl (prefix <> "__Transaction") in
    let is_log = test_refl (prefix <> "__Log") in
    (
      rw is_block refl,
      rw (tx_block, is_tx) (stamp_transactions-IsPrefix links docs 0),
      rw (log_block, log_tx, is_log) (stamp_logs-IsPrefix links docs 0),
    )
