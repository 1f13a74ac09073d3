-- ===== src/Prune/Purged.antt =====
-- What a purge purges, and which range of blocks the fallback takes.

use mathlib.Core.List.{filter_map, filter_map-cons-none, filter_map-cons-some, Perm}
use mathlib.Core.List.Perm
use shinzo_generator_client.Prelude.{
  Option, true, false, All, All-map, All-append, ◌∙◌, subst, cons-ne-nil, ℕ, ◌+◌, ◌-◌, ◌≤◌, ◌<◌,
  ◌≡◌, ◌≢◌, ◌⊎◌, refl, sym, ap, inl, inr, String, List, [], ◌∷◌, ◌++◌, Bool, Bool-cases, not, none,
  some, ok, lt→leb-false, ◌==◌, ==_iff, arith, length, total-append, map,
}
use shinzo_generator_client.Uuid.{Bytes}
use shinzo_generator_client.Dict.{Dict, lookup, size}
use shinzo_generator_client.Queue.{BlockEntry}
use shinzo_generator_client.Prune.{
  StoreEnv, Pruner, Purge, valid_doc_ids, skips, purge_by_doc_ids, purge_collections,
  purge_by_doc_ids_by_collection, doc_ids_of, failure_of, range_purged, prune_block_range,
  prune_range, filter_based_prune, get_block_range,
}

-- each purge is one of a collection's documents, of those that parse
pub IsOfCollection : StoreEnv → Dict (List Bytes) → String × List Bytes → Type 0
IsOfCollection env m p = p.1 ≡ valid_doc_ids env.is_doc_id (doc_ids_of (lookup p.0 m))

valid_doc_ids-all :
    (is_doc_id : Bytes → Bool) (ids : List Bytes)
    → (length (valid_doc_ids is_doc_id ids) ≤ length ids)
      × ((length ids ≤ length (valid_doc_ids is_doc_id ids)) → valid_doc_ids is_doc_id ids ≡ ids)
unfolding valid_doc_ids
valid_doc_ids-all is_doc_id [] = (omega arith, λ le. refl)
valid_doc_ids-all is_doc_id (id ∷ ids) =
    let (shorter, all) = valid_doc_ids-all is_doc_id ids in
    elim (Bool-cases (is_doc_id id)) [
      | inl good ↦
          rw good (omega (arith, shorter), λ le. ap (λ xs. id ∷ xs) (all (omega (arith, le))))
      | inr bad ↦ rw bad (omega (arith, shorter), λ le. absurd (omega (arith, le, shorter)))
    ]

empty_of_length : (xs : List Bytes) → (length xs == 0) ≡ true → xs ≡ []
empty_of_length [] h = refl
empty_of_length (x ∷ xs) h = absurd (ground arith)

nonempty_of_length : (xs : List Bytes) → (length xs == 0) ≡ false → xs ≢ []
nonempty_of_length [] h = absurd (ground arith)
nonempty_of_length (x ∷ xs) h = cons-ne-nil

-- what a purge of one collection does; free of errors, it purges all that it was asked to purge
record Purges (env : StoreEnv) (col : String) (ids : List Bytes) (p : Purge) : Type 0 where
  logged : p.count ≡ size p.purged
  within : All (λ c. (c.0 ≡ col) × (c.1 ≡ valid_doc_ids env.is_doc_id ids)) p.purged
  complete :
      p.errors ≡ [] → ((ids ≡ []) × (p.purged ≡ [])) ⊎ ((ids ≢ []) × (p.purged ≡ (col, ids) ∷ []))

purge_by_doc_ids-Purges :
    (env : StoreEnv) (col : String) (ids : List Bytes)
    → Purges env col ids (purge_by_doc_ids env col ids)
unfolding purge_by_doc_ids skips
purge_by_doc_ids-Purges env col ids =
    let valid = valid_doc_ids env.is_doc_id ids in
    elim (Bool-cases (length ids == 0)) [
      | inl empty ↦ rw empty (record {
        logged = refl;
        within = tt;
        complete = λ e. inl (empty_of_length ids empty, refl);
      })
      | inr some_ids ↦ elim (Bool-cases (not (env.has_collection col))) [
        | inl missing ↦
            rw (some_ids, missing)
              (record { logged = refl; within = tt; complete = λ e. absurd (cons-ne-nil e) })
        | inr known ↦ elim (Bool-cases (not (env.purge_succeeds col valid))) [
          | inl fails ↦
              rw (some_ids, known, fails)
                (record { logged = refl; within = tt; complete = λ e. absurd (cons-ne-nil e) })
          | inr done ↦ elim (Bool-cases (length ids - length valid == 0)) [
            | inl all ↦
                rw (some_ids, known, done, all)
                  (record {
                    logged = omega arith;
                    within = ((refl, refl), tt);
                    complete = λ e. inr (
                      nonempty_of_length ids some_ids,
                      ap (λ xs. (col, xs) ∷ [])
                          ((valid_doc_ids-all env.is_doc_id ids).1
                            (omega (arith, (==_iff (length ids - length valid) 0).0 all))),
                    );
                  })
            | inr skipped ↦
                rw (some_ids, known, done, skipped)
                  (record {
                    logged = omega arith;
                    within = ((refl, refl), tt);
                    complete = λ e. absurd (cons-ne-nil e);
                  })
          ]
        ]
      ]
    ]

nil_cases : {A : Type 0} (xs : List A) → (xs ≡ []) ⊎ (xs ≢ [])
nil_cases [] = inl refl
nil_cases (x ∷ xs) = inr cons-ne-nil

append-eq_nil : {A : Type 0} (xs ys : List A) → (xs ++ ys) ≡ [] → (xs ≡ []) × (ys ≡ [])
append-eq_nil [] ys e = (refl, e)
append-eq_nil (x ∷ xs) ys e = absurd (cons-ne-nil e)

-- a collection with its documents, if it has any
pub with_documents : String → List Bytes → Option (String × List Bytes)
with_documents col [] = none
with_documents col (id ∷ ids) = some (col, id ∷ ids)

pub asked : Dict (List Bytes) → String → Option (String × List Bytes)
asked m col = with_documents col (doc_ids_of (lookup col m))

asked-first :
    (m : Dict (List Bytes)) (col : String) (cols : List String) (ids : List Bytes)
    (purged : Dict (List Bytes))
    → doc_ids_of (lookup col m) ≡ ids
    → ((ids ≡ []) × (purged ≡ [])) ⊎ ((ids ≢ []) × (purged ≡ (col, ids) ∷ []))
    → (purged ++ filter_map (asked m) cols) ≡ filter_map (asked m) (col ∷ cols)
asked-first m col cols [] purged has (inl (empty, same)) =
    ap (λ p. p ++ filter_map (asked m) cols) same
    ∙ sym (
        filter_map-cons-none (asked m) col cols
          (unfold asked with_documents in (ap (with_documents col) has)))
asked-first m col cols [] purged has (inr (some_ids, same)) = absurd (some_ids refl)
asked-first m col cols (id ∷ ids) purged has (inl (empty, same)) = absurd (cons-ne-nil empty)
asked-first m col cols (id ∷ ids) purged has (inr (some_ids, same)) =
    ap (λ p. p ++ filter_map (asked m) cols) same
    ∙ sym (
        filter_map-cons-some (asked m) col cols
          (unfold asked with_documents in (ap (with_documents col) has)))

-- what the purges of some collections do together
record PurgesAll (env : StoreEnv) (cols : List String) (m : Dict (List Bytes)) (p : Purge)
    : Type 0 where
  logged : p.count ≡ size p.purged
  within : All (IsOfCollection env m) p.purged
  complete : p.errors ≡ [] → p.purged ≡ filter_map (asked m) cols

purge_collections-PurgesAll :
    (env : StoreEnv) (cols : List String) (m : Dict (List Bytes))
    → PurgesAll env cols m (purge_collections env cols m)
unfolding purge_collections
purge_collections-PurgesAll env [] m = record {
  logged = refl;
  within = tt;
  complete = λ e. unfold filter_map in refl;
}
purge_collections-PurgesAll env (col ∷ cols) m =
    let ids = doc_ids_of (lookup col m) in
    let p = purge_by_doc_ids env col ids in
    let rest = purge_collections env cols m in
    let here = purge_by_doc_ids-Purges env col ids in
    let there = purge_collections-PurgesAll env cols m in
    record {
      logged =
          omega
            (arith, here.logged, there.logged, total-append (λ c. length c.1) p.purged rest.purged);
      within =
          All-append (IsOfCollection env m) p.purged rest.purged
            (All-map _ (IsOfCollection env m) p.purged (of_collection ids refl) here.within)
            there.within;
      complete = λ e.
          let (mine, others) = append-eq_nil p.errors rest.errors e in
          ap (λ q. p.purged ++ q) (there.complete others)
          ∙ asked-first m col cols ids p.purged refl (here.complete mine);
    }
  where
    of_collection :
        (ids : List Bytes)
        → doc_ids_of (lookup col m) ≡ ids
        → (c : String × List Bytes) → (c.0 ≡ col) × (c.1 ≡ valid_doc_ids env.is_doc_id ids)
        → IsOfCollection env m c
    of_collection ids has c (same_col, same_ids) =
        unfold IsOfCollection in
        (same_ids
          ∙ ap (valid_doc_ids env.is_doc_id)
              (sym has ∙ sym (ap (λ k. doc_ids_of (lookup k m)) same_col)))

module _ (sort_strings : List String → List String) (sort : List BlockEntry → List BlockEntry) where
  -- For any order that `sort.Strings` puts the collections in: the count that a purge returns is the
  -- number of documents it purged, and each purge is of one collection's own documents, of those
  -- whose IDs parse. Either there is an error, or the purges are those of the collections that
  -- have documents, once each and each with all of them.
  pub purge_by_doc_ids_by_collection_lem :
      ((cols : List String) → Perm (sort_strings cols) cols)
      → (env : StoreEnv) (m : Dict (List Bytes))
      → let p = purge_by_doc_ids_by_collection sort_strings sort env m in
        (p.count ≡ size p.purged)
        × All (IsOfCollection env m) p.purged
        × ((p.errors ≢ []) ⊎ Perm p.purged (filter_map (asked m) (map (λ c. c.0) m)))
  unfolding purge_by_doc_ids_by_collection
  purge_by_doc_ids_by_collection_lem sorts env m =
      let names = map (λ (c : String × List Bytes). c.0) m in
      let all = purge_collections-PurgesAll env (sort_strings names) m in
      (
        all.logged,
        all.within,
        elim (nil_cases (purge_collections env (sort_strings names) m).errors) [
          | inl fine ↦ inr (
              subst (λ q. Perm q (filter_map (asked m) names)) (sym (all.complete fine))
                (Perm.filter_map (asked m) (sorts names)))
          | inr faults ↦ inl faults
        ],
      )

  purge-logged :
      (env : StoreEnv) (m : Dict (List Bytes))
      → let p = purge_by_doc_ids_by_collection sort_strings sort env m in p.count ≡ size p.purged
  unfolding purge_by_doc_ids_by_collection
  purge-logged env m = (purge_collections-PurgesAll env (sort_strings (map (λ c. c.0) m)) m).logged

  -- Of a range of stored blocks that holds more than the maximum, a fallback without errors purges
  -- the documents from the lowest block up to the one that leaves exactly the maximum above it, and
  -- counts as many blocks as it cut off.
  pub filter_based_prune_cuts :
      (env : StoreEnv) (p : Pruner) (lowest highest : ℕ) (ids : Dict (List Bytes))
      → get_block_range env p ≡ ok (lowest, highest)
      → p.max_blocks < highest + 1 - lowest
      → env.doc_ids_by_block_range lowest (highest - p.max_blocks) ≡ some ids
      → (purge_by_doc_ids_by_collection sort_strings sort env ids).errors ≡ []
      → let (p', e) = filter_based_prune sort_strings sort env p in
        let purge = purge_by_doc_ids_by_collection sort_strings sort env ids in
        (e ≡ none)
        × (p'.purged ≡ p.purged ++ purge.purged)
        × (p'.total_docs_pruned ≡ p.total_docs_pruned + size purge.purged)
        × (p'.total_blocks_pruned + p.max_blocks ≡ p.total_blocks_pruned + (highest + 1 - lowest))
  unfolding filter_based_prune prune_range prune_block_range failure_of range_purged
  filter_based_prune_cuts env p lowest highest ids range many found fine =
      let excess = highest + 1 - lowest - p.max_blocks in
      let cutoff : lowest + excess - 1 ≡ highest - p.max_blocks = omega arith in
      rw (range, lt→leb-false (highest + 1 - lowest) p.max_blocks many, cutoff, found, fine)
        (refl, refl, ap (λ n. p.total_docs_pruned + n) (purge-logged env ids), omega arith)
