-- ===== src/Queue/Packing.antt =====
-- Packing document IDs and unpacking them, and what a tracked block adds to the count.
use shinzo_generator_client.Prelude.{
  ℕ, zero, suc, ◌+◌, ◌*◌, ◌/◌, ◌≡◌, refl, sym, ap, List, [], ◌∷◌, ◌++◌, map, true, Result, ok, err,
  arith, ltb, length, length-append, take, drop, total, total-append, All, if◌then◌else◌, >>=-eq-ok,
  Bool-cases, inl, inr, ok-injective,
}
use shinzo_generator_client.Dict.{Dict}
use shinzo_generator_client.Uuid.{Bytes, DocIdError, uuid_size, extract_uuid, restore_doc_id}
use shinzo_generator_client.Uuid.RoundTrip.{
  IsUuid, extract_uuid-restore_doc_id, extract_uuid-IsUuid,
}
use shinzo_generator_client.Queue.{
  BlockEntry, IndexerQueue, TrackError, invalid_block_doc_id, invalid_doc_id_for,
  invalid_batch_sig_doc_id, pack_doc_ids, unpack_rounds, unpack_doc_ids, wrap, optional_uuid,
  pack_others, given, track_block_doc_ids, add_packed, entry_doc_count, doc_count_from, doc_count,
}

take-append_exact {ℓ} :
    {A : Type ℓ} (n : ℕ) (xs ys : List A) → length xs ≡ n → take n (xs ++ ys) ≡ xs
take-append_exact zero [] ys h = refl
take-append_exact (suc n) [] ys h = absurd (omega arith)
take-append_exact zero (x ∷ xs) ys h = absurd (omega arith)
take-append_exact (suc n) (x ∷ xs) ys h = ap (λ t. x ∷ t) (take-append_exact n xs ys (omega arith))

drop-append_exact {ℓ} :
    {A : Type ℓ} (n : ℕ) (xs ys : List A) → length xs ≡ n → drop n (xs ++ ys) ≡ ys
drop-append_exact zero [] ys h = refl
drop-append_exact (suc n) [] ys h = absurd (omega arith)
drop-append_exact zero (x ∷ xs) ys h = absurd (omega arith)
drop-append_exact (suc n) (x ∷ xs) ys h = drop-append_exact n xs ys (omega arith)

-- `uuids` are the UUIDs of `ids`, one for each and in order.
pub data Extracts : List Bytes → List Bytes → Type 0 where
  none_left : Extracts [] []
  next :
      {id uuid : Bytes} {ids uuids : List Bytes}
      → extract_uuid id ≡ ok uuid
      → Extracts ids uuids
      → Extracts (id ∷ ids) (uuid ∷ uuids)

pack_doc_ids-Extracts :
    (ids : List Bytes) (packed : Bytes)
    → pack_doc_ids ids ≡ ok packed
    → (uuids : List Bytes) × Extracts ids uuids
      × (length packed ≡ uuid_size * length ids)
      × (unpack_rounds (length ids) packed ≡ map restore_doc_id uuids)
unfolding pack_doc_ids unpack_rounds
pack_doc_ids-Extracts [] packed h = ([], none_left, ground arith, refl)
pack_doc_ids-Extracts (id ∷ ids) packed h =
    let (uuid, he, k) = >>=-eq-ok (extract_uuid id) _ h in
    let (tail, ht, l) = >>=-eq-ok (pack_doc_ids ids) _ k in
    let (uuids, ext, len_tail, unpacked) = pack_doc_ids-Extracts ids tail ht in
    let sized = (extract_uuid-IsUuid id uuid he).sized in
    let whole : packed ≡ uuid ++ tail = cc in
    (
      uuid ∷ uuids,
      next he ext,
      rw whole (omega (arith, length-append uuid tail)),
      rw
          (
            whole,
            take-append_exact uuid_size uuid tail sized,
            drop-append_exact uuid_size uuid tail sized,
          )
          (ap (λ t. restore_doc_id uuid ∷ t) unpacked),
    )

-- What `packDocIDs` accepts, `UnpackDocIDs` reads back: for every ID the text that is restored from
-- its own UUID, in order, none lost.
pub unpack_doc_ids-pack_doc_ids :
    (ids : List Bytes) (packed : Bytes)
    → pack_doc_ids ids ≡ ok packed
    → (uuids : List Bytes) × Extracts ids uuids × (unpack_doc_ids packed ≡ map restore_doc_id uuids)
unfolding unpack_doc_ids
unpack_doc_ids-pack_doc_ids ids packed h =
    let (uuids, ext, size, unpacked) = pack_doc_ids-Extracts ids packed h in
    let rounds : length packed / uuid_size ≡ length ids = omega arith in
    (uuids, ext, rw rounds unpacked)

pack_doc_ids-restored :
    (uuids : List Bytes)
    → All IsUuid uuids
    → (packed : Bytes) × (pack_doc_ids (map restore_doc_id uuids) ≡ ok packed)
      × (unpack_rounds (length uuids) packed ≡ map restore_doc_id uuids)
      × (length packed ≡ uuid_size * length uuids)
unfolding pack_doc_ids unpack_rounds
pack_doc_ids-restored [] h = ([], refl, refl, omega arith)
pack_doc_ids-restored (uuid ∷ uuids) h =
    let (tail, packs, unpacks, size) = pack_doc_ids-restored uuids h.1 in
    let sized = h.0.sized in
    (
      uuid ++ tail,
      rw (extract_uuid-restore_doc_id uuid h.0) (rw packs refl),
      rw (take-append_exact uuid_size uuid tail sized, drop-append_exact uuid_size uuid tail sized)
          (ap (λ t. restore_doc_id uuid ∷ t) unpacks),
      omega (arith, length-append uuid tail),
    )

-- IDs in the form that DefraDB writes (`bae-` and a UUID of 16 bytes) are always accepted, and
-- come back from the packed bytes exactly as they were.
pub pack-unpack_canonical :
    (uuids : List Bytes)
    → All IsUuid uuids
    → (packed : Bytes) × (pack_doc_ids (map restore_doc_id uuids) ≡ ok packed)
      × (unpack_doc_ids packed ≡ map restore_doc_id uuids)
unfolding unpack_doc_ids
pack-unpack_canonical uuids h =
    let (packed, packs, unpacks, size) = pack_doc_ids-restored uuids h in
    let rounds : length packed / uuid_size ≡ length uuids = omega arith in
    (packed, packs, rw rounds unpacks)

add_packed-total :
    (count : ℕ) (m : Dict Bytes)
    → add_packed count m ≡ count + total (λ p. length p.1 / uuid_size) m
unfolding add_packed
add_packed-total count [] = omega arith
add_packed-total count ((_, packed) ∷ m) =
    omega (arith, add_packed-total (count + length packed / uuid_size) m)

pub entry_doc_count-total :
    (e : BlockEntry)
    → entry_doc_count e
      ≡ 1 + total (λ p. length p.1 / uuid_size) e.other_doc_ids + (if e.has_batch_sig then 1 else 0)
unfolding entry_doc_count
entry_doc_count-total e = elim (Bool-cases e.has_batch_sig) [
  | inl h ↦ rw h (omega (arith, add_packed-total 1 e.other_doc_ids))
  | inr h ↦ rw h (omega (arith, add_packed-total 1 e.other_doc_ids))
]

entries_or_none : Result TrackError IndexerQueue → List BlockEntry
entries_or_none (ok q) = q.entries
entries_or_none (err e) = []

doc_count_from-total :
    (n : ℕ) (es : List BlockEntry) → doc_count_from n es ≡ n + total entry_doc_count es
unfolding doc_count_from entry_doc_count
doc_count_from-total n [] = omega arith
doc_count_from-total n (e ∷ es) = elim (Bool-cases e.has_batch_sig) [
  | inl h ↦ rw h (
      omega (
        arith,
        doc_count_from-total (add_packed (n + 1) e.other_doc_ids + 1) es,
        add_packed-total (n + 1) e.other_doc_ids,
        add_packed-total 1 e.other_doc_ids,
      ))
  | inr h ↦ rw h (
      omega (
        arith,
        doc_count_from-total (add_packed (n + 1) e.other_doc_ids) es,
        add_packed-total (n + 1) e.other_doc_ids,
        add_packed-total 1 e.other_doc_ids,
      ))
]

-- `DocCount` is the sum over the entries of the count by which `DrainByDocCount` measures them.
doc_count-total : (q : IndexerQueue) → doc_count q ≡ total entry_doc_count q.entries
unfolding doc_count
doc_count-total q = omega (arith, doc_count_from-total 0 q.entries)

pub wrap-ok :
    {A : Type 0} (f : DocIdError → TrackError) (r : Result DocIdError A) (a : A)
    → wrap f r ≡ ok a
    → r ≡ ok a
unfolding wrap
wrap-ok f (ok b) a h = cc
wrap-ok f (err e) a h = cc

pub pack_doc_ids-some :
    (id : Bytes) (ids : List Bytes) (packed : Bytes)
    → pack_doc_ids (id ∷ ids) ≡ ok packed
    → ltb 0 (length packed) ≡ true
pack_doc_ids-some id ids packed h =
    let (uuids, ext, size, unpacked) = pack_doc_ids-Extracts (id ∷ ids) packed h in ground arith

pack_others-total :
    (m : Dict (List Bytes)) (others : Dict Bytes)
    → pack_others m ≡ ok others
    → total (λ p. length p.1 / uuid_size) others ≡ total (λ p. length p.1) m
unfolding pack_others
pack_others-total [] others h = ground arith
pack_others-total ((col, []) ∷ m) others h = omega (arith, pack_others-total m others h)
pack_others-total ((col, id ∷ ids) ∷ m) others h =
    let (packed, hp, k) = >>=-eq-ok (wrap (invalid_doc_id_for col) (pack_doc_ids (id ∷ ids))) _ h in
    let (rest, hr, l) = >>=-eq-ok (pack_others m) _ k in
    let (uuids, ext, size, unpacked) =
      pack_doc_ids-Extracts (id ∷ ids) packed (wrap-ok (invalid_doc_id_for col) _ packed hp) in
    let some_bytes : ltb 0 (length packed) ≡ true = ground arith in
    let whole : others ≡ (col, packed) ∷ rest = sym (ok-injective (rw some_bytes at l)) in
    rw whole (omega (arith, pack_others-total m rest hr))

-- Tracking a block adds one document for the block, one for each ID of the other collections and
-- one for a batch signature that was given, and leaves the entries before it as they were.
doc_count-track_block_doc_ids :
    (q q' : IndexerQueue) (n : ℕ) (block_id : Bytes) (others : Dict (List Bytes)) (sig_id : Bytes)
    → track_block_doc_ids q n block_id others sig_id ≡ ok q'
    → (doc_count q'
        ≡ doc_count q + 1 + total (λ p. length p.1) others + (if given sig_id then 1 else 0))
      × (take (length q.entries) q'.entries ≡ q.entries)
unfolding track_block_doc_ids entries_or_none
doc_count-track_block_doc_ids q q' n block_id others sig_id h =
    let (block_uuid, hb, k) = >>=-eq-ok (optional_uuid invalid_block_doc_id block_id) _ h in
    let (packed, hp, l) = >>=-eq-ok (pack_others others) _ k in
    let (sig_uuid, hs, m) = >>=-eq-ok (optional_uuid invalid_batch_sig_doc_id sig_id) _ l in
    let entry : BlockEntry = record {
      block_number = n;
      block_doc_id = block_uuid;
      other_doc_ids = packed;
      batch_sig_id = sig_uuid;
      has_batch_sig = given sig_id;
    } in
    let appended : q'.entries ≡ q.entries ++ entry ∷ [] = ap entries_or_none (sym m) in
    (
      rw
          (
            doc_count-total q',
            doc_count-total q,
            appended,
            total-append entry_doc_count q.entries (entry ∷ []),
          )
          (omega (arith, entry_doc_count-total entry, pack_others-total others packed hp)),
      rw (appended, take-append_exact (length q.entries) q.entries (entry ∷ []) refl) refl,
    )
