-- ===== src/Evm/Links/Records.antt =====
-- What the stamper knows of the transactions whose IDs it has recorded.
use shinzo_generator_client.Prelude.{
  ℕ, suc, ◌+◌, ◌≡◌, ◌≢◌, refl, sym, ◌∙◌, ap, arith, String, List, [], ◌∷◌, ◌++◌, Bool-cases, inl,
  inr, Option, none, some, some-inj, some-ne-none, str_eq, length, get_elem?, All, test_refl,
}
use Prim.Native.String.{◌++◌ as ◌<>◌}
use shinzo_generator_client.Dict.{lookup, lookup-put_self, lookup-put_ne}
use shinzo_generator_client.Chains.{Doc, text_at, LinkError}
use shinzo_generator_client.Evm.Collections.{new_collection_names, suffix_ne}
use shinzo_generator_client.Evm.Links.{
  Links, required, register, registered, record_transactions, record_doc_ids,
}

-- no document of the list has the hash
abbrev pub Without : String → List Doc → Type 0
Without hash = All (λ doc. text_at "hash" doc ≢ some hash)

register-ne :
    (hash other : String) (id : Option String) (links : Links)
    → hash ≢ other
    → lookup hash (register other id links).tx_hash_to_id ≡ lookup hash links.tx_hash_to_id
unfolding register
register-ne hash other none links ne = refl
register-ne hash other (some id) links ne = lookup-put_ne hash other id links.tx_hash_to_id ne

-- a document of another hash changes nothing for this one
registered-ne :
    (hash : String) (o id : Option String) (j : ℕ) (links : Links)
    (next : Links → Links × Option LinkError)
    → o ≢ some hash
    → ((links' : Links)
        → lookup hash (next links').0.tx_hash_to_id ≡ lookup hash links'.tx_hash_to_id)
    → lookup hash (registered (required o) id j links next).0.tx_hash_to_id
      ≡ lookup hash links.tx_hash_to_id
unfolding registered required
registered-ne hash none id j links next ne k = refl
registered-ne hash (some s) id j links next ne k = elim (Bool-cases (str_eq s "")) [
  | inl empty ↦ rw empty refl
  | inr full ↦
      rw full
        (k (register s id links) ∙ register-ne hash s id links (λ same. ne (ap some (sym same))))
]

record_transactions-Without :
    (hash : String) (docs : List Doc) (ids : List String) (j : ℕ) (links : Links)
    → Without hash docs
    → lookup hash (record_transactions docs ids j links).0.tx_hash_to_id
      ≡ lookup hash links.tx_hash_to_id
unfolding record_transactions
record_transactions-Without hash [] ids j links h = refl
record_transactions-Without hash (doc ∷ docs) ids j links h =
    registered-ne hash (text_at "hash" doc) (get_elem? ids j) j links _ h.0
      (λ links'. record_transactions-Without hash docs ids (suc j) links' h.1)

-- without an error, the step goes on from the state with the document's ID
registered-next :
    (o id : Option String) (j : ℕ) (links : Links) (next : Links → Links × Option LinkError)
    → (registered (required o) id j links next).1 ≡ none
    → (s : String) × (o ≡ some s)
      × (registered (required o) id j links next ≡ next (register s id links))
unfolding registered required
registered-next none id j links next no_error = cc
registered-next (some s) id j links next no_error = elim (Bool-cases (str_eq s "")) [
  | inl empty ↦ absurd (some-ne-none (rw empty at no_error))
  | inr full ↦ (s, refl, rw full refl)
]

record_transactions-lookup :
    (hash id : String) (before : List Doc) (doc : Doc) (after : List Doc) (ids : List String)
    (j : ℕ) (links : Links)
    → (record_transactions (before ++ doc ∷ after) ids j links).1 ≡ none
    → text_at "hash" doc ≡ some hash
    → Without hash after
    → get_elem? ids (j + length before) ≡ some id
    → lookup hash (record_transactions (before ++ doc ∷ after) ids j links).0.tx_hash_to_id
      ≡ some id
unfolding record_transactions
record_transactions-lookup hash id [] doc after ids j links no_error has without at =
    let (s, same, steps) =
      registered-next (text_at "hash" doc) (get_elem? ids j) j links
        (record_transactions after ids (suc j)) no_error in
    let at_j : get_elem? ids j ≡ some id = ap (get_elem? ids) (omega arith) ∙ at in
    let hash_s : s ≡ hash = some-inj (sym same ∙ has) in
    ap (λ (r : Links × Option LinkError). lookup hash r.0.tx_hash_to_id) steps
    ∙ record_transactions-Without hash after ids (suc j) (register s (get_elem? ids j) links)
        without
    ∙ ap (λ o. lookup hash (register s o links).tx_hash_to_id) at_j
    ∙ ap (λ t. lookup hash (register t (some id) links).tx_hash_to_id) hash_s
    ∙ (unfold register in (lookup-put_self hash id links.tx_hash_to_id))
record_transactions-lookup hash id (d ∷ before) doc after ids j links no_error has without at =
    let next = record_transactions (before ++ doc ∷ after) ids (suc j) in
    let (s, same, steps) =
      registered-next (text_at "hash" d) (get_elem? ids j) j links next no_error in
    ap (λ (r : Links × Option LinkError). lookup hash r.0.tx_hash_to_id) steps
    ∙ record_transactions-lookup hash id before doc after ids (suc j)
        (register s (get_elem? ids j) links)
        (sym (ap (λ (r : Links × Option LinkError). r.1) steps) ∙ no_error) has without
        (ap (get_elem? ids) (omega arith) ∙ at)

record_doc_ids-transaction :
    (prefix : String) (docs : List Doc) (ids : List String) (links : Links)
    → record_doc_ids
        (new_collection_names prefix)
        (new_collection_names prefix).transaction
        docs
        ids
        links
      ≡ record_transactions docs ids 0 links
unfolding record_doc_ids new_collection_names
record_doc_ids-transaction prefix docs ids links =
    let tx_block = suffix_ne prefix "__Transaction" "__Block" refl in
    let is_tx = test_refl (prefix <> "__Transaction") in rw (tx_block, is_tx) refl

-- When the transactions' IDs are recorded without an error, a hash is looked up as the ID of the
-- document that has it, the last one if several have, as far as the written IDs reach.
pub record_doc_ids-lookup :
    (prefix hash id : String) (before : List Doc) (doc : Doc) (after : List Doc) (ids : List String)
    (links : Links)
    → (record_doc_ids
        (new_collection_names prefix)
        (new_collection_names prefix).transaction
        (before ++ doc ∷ after)
        ids
        links).1
      ≡ none
    → text_at "hash" doc ≡ some hash
    → Without hash after
    → get_elem? ids (length before) ≡ some id
    → lookup hash
        (record_doc_ids
          (new_collection_names prefix)
          (new_collection_names prefix).transaction
          (before ++ doc ∷ after)
          ids
          links).0.tx_hash_to_id
      ≡ some id
record_doc_ids-lookup prefix hash id before doc after ids links no_error has without at =
    let same = record_doc_ids-transaction prefix (before ++ doc ∷ after) ids links in
    ap (λ (r : Links × Option LinkError). lookup hash r.0.tx_hash_to_id) same
    ∙ record_transactions-lookup hash id before doc after ids 0 links
        (sym (ap (λ (r : Links × Option LinkError). r.1) same) ∙ no_error) has without
        (ap (get_elem? ids) (omega arith) ∙ at)
