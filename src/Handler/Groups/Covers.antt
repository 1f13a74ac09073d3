-- ===== src/Handler/Groups/Covers.antt =====
-- How many documents the groups of a block write.
use shinzo_generator_client.Prelude.{
  ℕ, ◌+◌, ◌<◌, ◌≡◌, refl, subst, arith, String, List, [], ◌∷◌, ◌++◌, Option, none, some,
  cons-ne-nil, length, length-append, total,
}
use shinzo_generator_client.Dict.{size, size-append_at}
use shinzo_generator_client.Chains.{Doc, DocumentGroup, LinkError, LinkStamper}
use shinzo_generator_client.Handler.{Env, World, StoreError}
use shinzo_generator_client.Handler.Batches.{BlockHandler, write_group}
use shinzo_generator_client.Handler.Batches.Whole.{Counts, write_group-Counts}
use shinzo_generator_client.Handler.Groups.{
  Progress, stamp_before_write, fail_batch, add_doc_ids, recorded, after_record, after_write,
  after_stamp, store_groups,
}

-- a stamper changes documents, but neither adds nor drops one
abbrev pub IsInPlace : {L : Type 0} → LinkStamper L → Type 0
IsInPlace stamper =
    (collection : String) (docs : List Doc) (links : _)
    → length (stamper.stamp_before_write collection docs links).0 ≡ length docs

abbrev pub AreInPlace : {L : Type 0} → Option (LinkStamper L) → Type 0
AreInPlace none = Unit
AreInPlace (some stamper) = IsInPlace stamper

append-ne-nil : {A : Type 0} (xs : List A) (x : A) → (xs ++ x ∷ []) ≡ [] → ⊥
append-ne-nil [] x e = cons-ne-nil e
append-ne-nil (y ∷ xs) x e = cons-ne-nil e

-- If there is no error at the end, there was none before, and `n` IDs are added.
abbrev pub Covers : {L : Type 0} → Progress L → ℕ → Progress L → Type 0
Covers p n p' =
    p'.batch_errors ≡ []
    → (p.batch_errors ≡ [])
      × (length p'.all_doc_ids ≡ length p.all_doc_ids + n)
      × (size p'.other_doc_ids ≡ size p.other_doc_ids + n)

module _ {L : Type 0} where
  fail_batch-Covers :
      (p : Progress L) (n : ℕ) (e : StoreError) (q : Progress L) → Covers p n (fail_batch e q)
  unfolding fail_batch
  fail_batch-Covers p n e q none_failed = absurd (append-ne-nil q.batch_errors e none_failed)

module _ {S T C D L : Type 0} (env : Env S T C D) (h : BlockHandler)
    (stamper : Option (LinkStamper L)) where
  after_record-Covers :
      (p q : Progress L) (n : ℕ) (r : L × Option LinkError) (w : World S)
      (next : Progress L → World S → World S × Progress L)
      → ((links : L) → Covers p n (next (record q { links = links }) w).1)
      → Covers p n (after_record env h stamper r q w next).1
  unfolding after_record recorded
  after_record-Covers p q n (links, none) w next k = k links
  after_record-Covers p q n (links, some e) w next k =
      fail_batch-Covers p n _ (record q { links = links })

  after_write-Covers :
      (n : ℕ) (g : DocumentGroup) (r : World S × List String × Option StoreError) (p : Progress L)
      (next : Progress L → World S → World S × Progress L)
      → Counts (length g.docs) r
      → ((q : Progress L) (w : World S) → Covers q n (next q w).1)
      → Covers p (length g.docs + n) (after_write env h stamper g r p next).1
  unfolding after_write add_doc_ids
  after_write-Covers n g (w, ids, some e) p next counts k =
      fail_batch-Covers p _ _ (add_doc_ids g.collection ids p)
  after_write-Covers n g (w, ids, none) p next counts k =
      after_record-Covers p _ _ _ w next (λ links none_failed.
        let (before, all, other) = k _ w none_failed in
        (
          before,
          omega (arith, all, counts, length-append p.all_doc_ids ids),
          omega (arith, other, counts, size-append_at g.collection ids p.other_doc_ids),
        ))

  after_stamp-Covers :
      (n : ℕ) (g : DocumentGroup) (r : List Doc × Option LinkError) (p : Progress L) (w : World S)
      (next : Progress L → World S → World S × Progress L)
      → 0 < h.max_docs_per_txn
      → length r.0 ≡ length g.docs
      → ((q : Progress L) (w' : World S) → Covers q n (next q w').1)
      → Covers p (length g.docs + n) (after_stamp env h stamper g r p w next).1
  unfolding after_stamp
  after_stamp-Covers n g (docs, some e) p w next pos same k = fail_batch-Covers p _ _ p
  after_stamp-Covers n g (docs, none) p w next pos same k =
      let stamped = record g { docs = docs } in
      subst
        (λ m.
          Covers p (m + n)
            (after_write env h stamper stamped (write_group env h stamped w) p next).1)
        same (after_write-Covers n stamped _ p next (write_group-Counts env h stamped w pos) k)

  stamp_before_write-length :
      (g : DocumentGroup) (links : L)
      → AreInPlace stamper
      → length (stamp_before_write stamper g links).0 ≡ length g.docs
  stamp_before_write-length g links in_place = by_stamper stamper in_place
    where
      by_stamper :
          (s : Option (LinkStamper L))
          → AreInPlace s
          → length (stamp_before_write s g links).0 ≡ length g.docs
      by_stamper none in_place = unfold stamp_before_write in refl
      by_stamper (some s) in_place =
          unfold stamp_before_write in (in_place g.collection g.docs links)

  pub store_groups-Covers :
      (groups : List DocumentGroup) (p : Progress L) (w : World S)
      → AreInPlace stamper
      → 0 < h.max_docs_per_txn
      → Covers p
          (total (λ (g : DocumentGroup). length g.docs) groups)
          (store_groups env h stamper groups p w).1
  unfolding store_groups
  store_groups-Covers [] p w in_place pos = λ none_failed. (none_failed, omega arith, omega arith)
  store_groups-Covers (g ∷ groups) p w in_place pos =
      after_stamp-Covers _ g _ p w _ pos (stamp_before_write-length g p.links in_place)
        (λ q w'. store_groups-Covers groups q w' in_place pos)
