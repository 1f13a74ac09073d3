-- ===== src/Queue/Backlog.antt =====
-- The queue as its callers see it: a backlog of blocks, in no order, of which the oldest are taken.
use mathlib.Core.Quot
use mathlib.Core.Quot.{Quot, Quot-set}
use mathlib.Core.List.{Perm, perm_append_singleton}
use mathlib.Core.List.Perm
use shinzo_generator_client.Prelude.{
  ℕ, ◌≤◌, ◌≡◌, refl, sym, ◌∙◌, ap, subst, ◌⊎◌, inl, inr, String, List, [], ◌∷◌, ◌++◌, Option, none,
  some, Result, ok, err, >>=-eq-ok, length, All, map, ◌≢◌, cons-ne-nil, ok-injective, err-ne-ok,
  ◌>>=◌, err-injective,
}
use shinzo_generator_client.Uuid.{Bytes, DocIdError, extract_uuid, restore_doc_id}
use shinzo_generator_client.Dict.{Dict}
use shinzo_generator_client.Queue.{
  BlockEntry, IndexerQueue, TrackError, invalid_block_doc_id, invalid_batch_sig_doc_id,
  invalid_doc_id_for, DrainResult, zero_uuid, given, wrap, pack_doc_ids, unpack_doc_ids,
  optional_uuid, pack_others, track_block_doc_ids, build_drain_result, drain, drain_by_doc_count,
}
use shinzo_generator_client.Queue.Packing.{
  Extracts, wrap-ok, unpack_doc_ids-pack_doc_ids, pack_doc_ids-some,
}
use shinzo_generator_client.Queue.Sorted.{NotAbove, IsSort}
use shinzo_generator_client.Queue.Draining.{Splits, IsShortest, drain_lem, drain_by_doc_count_lem}

-- entries up to their order
abbrev pub Backlog : Type 0
Backlog = Quot (Perm {A = BlockEntry})

abbrev pub of_entries : List BlockEntry → Backlog
of_entries = Quot.mk

abbrev pub add : BlockEntry → Backlog → Backlog
add e = Quot.lift Quot-set (λ es. of_entries (e ∷ es)) λ xs ys p. Quot.sound (Perm.cons e p)

-- the calls that change the queue
pub data Op : Type 0 where
  track : ℕ → Bytes → Dict (List Bytes) → Bytes → Op
  drain_blocks : ℕ → String → String → Op
  drain_docs : ℕ → String → String → Op

after_track : IndexerQueue → Result TrackError IndexerQueue → IndexerQueue
after_track q (ok q') = q'
after_track q (err e) = q

pub perform :
    (List BlockEntry → List BlockEntry) → Op → IndexerQueue → IndexerQueue × Option DrainResult
unfolding after_track track_block_doc_ids drain drain_by_doc_count
perform sort (track n block_id others sig_id) q =
    (after_track q (track_block_doc_ids q n block_id others sig_id), none)
perform sort (drain_blocks keep block_col sig_col) q = drain sort keep block_col sig_col q
perform sort (drain_docs excess block_col sig_col) q =
    drain_by_doc_count sort excess block_col sig_col q

-- an ID that may be left out, and the UUID that stands for it
pub data HoldsId : Bytes → Bytes → Type 0 where
  not_given : HoldsId [] zero_uuid
  extracted : {id uuid : Bytes} → id ≢ [] → extract_uuid id ≡ ok uuid → HoldsId id uuid

-- the IDs of the other collections, and the packed bytes from which their UUIDs are restored; a
-- collection with no IDs is left out
pub data HoldsOthers : Dict (List Bytes) → Dict Bytes → Type 0 where
  no_others : HoldsOthers [] []
  no_ids :
      {col : String} {m : Dict (List Bytes)} {others : Dict Bytes}
      → HoldsOthers m others
      → HoldsOthers ((col, []) ∷ m) others
  packs :
      {col : String} {ids uuids : List Bytes} {packed : Bytes} {m : Dict (List Bytes)}
      {others : Dict Bytes}
      → ids ≢ []
      → Extracts ids uuids
      → unpack_doc_ids packed ≡ map restore_doc_id uuids
      → HoldsOthers m others
      → HoldsOthers ((col, ids) ∷ m) ((col, packed) ∷ others)

-- the entry of a block with these documents
pub record IsEntry (n : ℕ) (block_id : Bytes) (others : Dict (List Bytes)) (sig_id : Bytes)
    (e : BlockEntry) : Type 0 where
  pub number : e.block_number ≡ n
  pub block : HoldsId block_id e.block_doc_id
  pub other_docs : HoldsOthers others e.other_doc_ids
  pub signature : HoldsId sig_id e.batch_sig_id
  pub has_signature : e.has_batch_sig ≡ given sig_id

-- one of the IDs is given and holds no UUID
pub IsBad : Bytes → Type 0
IsBad id = (id ≢ []) × ((e : DocIdError) × (extract_uuid id ≡ err e))

pub data HasBad : List Bytes → Type 0 where
  bad_here :
      {id : Bytes} {ids : List Bytes} {e : DocIdError} → extract_uuid id ≡ err e → HasBad (id ∷ ids)
  bad_later : {id : Bytes} {ids : List Bytes} → HasBad ids → HasBad (id ∷ ids)

pub data HasBadOther : Dict (List Bytes) → Type 0 where
  other_here :
      {col : String} {ids : List Bytes} {m : Dict (List Bytes)}
      → HasBad ids
      → HasBadOther ((col, ids) ∷ m)
  other_later :
      {col : String} {ids : List Bytes} {m : Dict (List Bytes)}
      → HasBadOther m
      → HasBadOther ((col, ids) ∷ m)

-- What each call does to the backlog, and what it returns.
pub data Steps : Op → Backlog → Backlog → Option DrainResult → Type 0 where
  tracked :
      (n : ℕ) (block_id : Bytes) (others : Dict (List Bytes)) (sig_id : Bytes) (b : Backlog)
      (e : BlockEntry)
      → IsEntry n block_id others sig_id e
      → Steps (track n block_id others sig_id) b (add e b) none
  refused :
      (n : ℕ) (block_id : Bytes) (others : Dict (List Bytes)) (sig_id : Bytes) (b : Backlog)
      → IsBad block_id ⊎ HasBadOther others ⊎ IsBad sig_id
      → Steps (track n block_id others sig_id) b b none
  few :
      (keep : ℕ) (block_col sig_col : String) (es : List BlockEntry)
      → length es ≤ keep
      → Steps (drain_blocks keep block_col sig_col) (of_entries es) (of_entries es) none
  oldest :
      (keep : ℕ) (block_col sig_col : String) (old rest : List BlockEntry)
      → All (λ d. All (NotAbove d) rest) old
      → length rest ≡ keep
      → Steps
          (drain_blocks keep block_col sig_col)
          (of_entries (old ++ rest))
          (of_entries rest)
          (some (build_drain_result old (length old) block_col sig_col))
  no_excess :
      (excess : ℕ) (block_col sig_col : String) (es : List BlockEntry)
      → (es ≡ []) ⊎ (excess ≡ 0)
      → Steps (drain_docs excess block_col sig_col) (of_entries es) (of_entries es) none
  shortest :
      (excess : ℕ) (block_col sig_col : String) (old rest : List BlockEntry)
      → All (λ d. All (NotAbove d) rest) old
      → IsShortest excess old rest
      → Steps
          (drain_docs excess block_col sig_col)
          (of_entries (old ++ rest))
          (of_entries rest)
          (some (build_drain_result old (length old) block_col sig_col))

pub data Runs : List Op → Backlog → Backlog → List (Option DrainResult) → Type 0 where
  done : (b : Backlog) → Runs [] b b []
  next :
      {op : Op} {ops : List Op} {b b1 b2 : Backlog} {r : Option DrainResult}
      {rs : List (Option DrainResult)}
      → Steps op b b1 r
      → Runs ops b1 b2 rs
      → Runs (op ∷ ops) b b2 (r ∷ rs)

entries_or_none : Result TrackError IndexerQueue → List BlockEntry
entries_or_none (ok q) = q.entries
entries_or_none (err e) = []

optional_uuid-HoldsId :
    (f : DocIdError → TrackError) (id uuid : Bytes) → optional_uuid f id ≡ ok uuid → HoldsId id uuid
unfolding optional_uuid
optional_uuid-HoldsId f [] uuid h = subst (HoldsId []) (ok-injective h) not_given
optional_uuid-HoldsId f (c ∷ id) uuid h =
    extracted cons-ne-nil (wrap-ok f (extract_uuid (c ∷ id)) uuid h)

wrap-err :
    {A : Type 0} (f : DocIdError → TrackError) (r : Result DocIdError A) (e : TrackError)
    → wrap f r ≡ err e
    → (e' : DocIdError) × (r ≡ err e')
unfolding wrap
wrap-err f (ok a) e h = absurd (err-ne-ok (sym h))
wrap-err f (err e') e h = (e', refl)

optional_uuid-IsBad :
    (f : DocIdError → TrackError) (id : Bytes) (e : TrackError)
    → optional_uuid f id ≡ err e
    → IsBad id
unfolding optional_uuid IsBad
optional_uuid-IsBad f [] e h = absurd (err-ne-ok (sym h))
optional_uuid-IsBad f (c ∷ id) e h = (cons-ne-nil, wrap-err f (extract_uuid (c ∷ id)) e h)

-- a chain that fails does so in its first step or behind it
chain-err :
    {E A B : Type 0} (r : Result E A) (k : A → Result E B) (e : E)
    → (r >>= k) ≡ err e
    → (r ≡ err e) ⊎ ((a : A) × (r ≡ ok a) × (k a ≡ err e))
chain-err (ok a) k e h = inr (a, refl, h)
chain-err (err e') k e h = inl (ap err (err-injective h))

pack_doc_ids-HasBad : (ids : List Bytes) (e : DocIdError) → pack_doc_ids ids ≡ err e → HasBad ids
unfolding pack_doc_ids
pack_doc_ids-HasBad [] e h = absurd (err-ne-ok (sym h))
pack_doc_ids-HasBad (id ∷ ids) e h = elim (chain-err (extract_uuid id) _ e h) [
  | inl bad ↦ bad_here bad
  | inr (uuid, good, later) ↦ elim (chain-err (pack_doc_ids ids) _ e later) [
    | inl bad ↦ bad_later (pack_doc_ids-HasBad ids e bad)
    | inr (packed, fine, last) ↦ absurd (err-ne-ok (sym last))
  ]
]

pack_others-HasBadOther :
    (m : Dict (List Bytes)) (e : TrackError) → pack_others m ≡ err e → HasBadOther m
unfolding pack_others
pack_others-HasBadOther [] e h = absurd (err-ne-ok (sym h))
pack_others-HasBadOther ((col, []) ∷ m) e h = other_later (pack_others-HasBadOther m e h)
pack_others-HasBadOther ((col, id ∷ ids) ∷ m) e h =
    elim (chain-err (wrap (invalid_doc_id_for col) (pack_doc_ids (id ∷ ids))) _ e h) [
      | inl bad ↦
          let found = wrap-err (invalid_doc_id_for col) (pack_doc_ids (id ∷ ids)) e bad in
          other_here (pack_doc_ids-HasBad (id ∷ ids) found.0 found.1)
      | inr (packed, good, later) ↦ elim (chain-err (pack_others m) _ e later) [
        | inl bad ↦ other_later (pack_others-HasBadOther m e bad)
        | inr (others, fine, last) ↦ absurd (err-ne-ok (sym last))
      ]
    ]

pack_others-HoldsOthers :
    (m : Dict (List Bytes)) (others : Dict Bytes) → pack_others m ≡ ok others → HoldsOthers m others
unfolding pack_others
pack_others-HoldsOthers [] others h = subst (HoldsOthers []) (ok-injective h) no_others
pack_others-HoldsOthers ((col, []) ∷ m) others h = no_ids (pack_others-HoldsOthers m others h)
pack_others-HoldsOthers ((col, id ∷ ids) ∷ m) others h =
    let (packed, hp, k) = >>=-eq-ok (wrap (invalid_doc_id_for col) (pack_doc_ids (id ∷ ids))) _ h in
    let (rest, hr, l) = >>=-eq-ok (pack_others m) _ k in
    let whole = wrap-ok (invalid_doc_id_for col) (pack_doc_ids (id ∷ ids)) packed hp in
    let (uuids, ext, unpacked) = unpack_doc_ids-pack_doc_ids (id ∷ ids) packed whole in
    let some_bytes = pack_doc_ids-some id ids packed whole in
    subst (HoldsOthers ((col, id ∷ ids) ∷ m)) (ok-injective (rw some_bytes at l))
      (packs cons-ne-nil ext unpacked (pack_others-HoldsOthers m rest hr))

-- a block that is tracked goes behind the others
track-appends :
    (q q' : IndexerQueue) (n : ℕ) (block_id : Bytes) (others : Dict (List Bytes)) (sig_id : Bytes)
    → track_block_doc_ids q n block_id others sig_id ≡ ok q'
    → (e : BlockEntry) × IsEntry n block_id others sig_id e × (q'.entries ≡ q.entries ++ e ∷ [])
unfolding track_block_doc_ids entries_or_none
track-appends q q' n block_id others sig_id h =
    let (block_uuid, hb, k) = >>=-eq-ok (optional_uuid invalid_block_doc_id block_id) _ h in
    let (packed, hp, l) = >>=-eq-ok (pack_others others) _ k in
    let (sig_uuid, hs, m) = >>=-eq-ok (optional_uuid invalid_batch_sig_doc_id sig_id) _ l in
    let e : BlockEntry = record {
      block_number = n;
      block_doc_id = block_uuid;
      other_doc_ids = packed;
      batch_sig_id = sig_uuid;
      has_batch_sig = given sig_id;
    } in
    (
      e,
      record {
        number = refl;
        block = optional_uuid-HoldsId invalid_block_doc_id block_id block_uuid hb;
        other_docs = pack_others-HoldsOthers others packed hp;
        signature = optional_uuid-HoldsId invalid_batch_sig_doc_id sig_id sig_uuid hs;
        has_signature = refl;
      },
      ap entries_or_none (sym m),
    )

track-refuses :
    (q : IndexerQueue) (n : ℕ) (block_id : Bytes) (others : Dict (List Bytes)) (sig_id : Bytes)
    (e : TrackError)
    → track_block_doc_ids q n block_id others sig_id ≡ err e
    → IsBad block_id ⊎ HasBadOther others ⊎ IsBad sig_id
unfolding track_block_doc_ids
track-refuses q n block_id others sig_id e h =
    elim (chain-err (optional_uuid invalid_block_doc_id block_id) _ e h) [
      | inl bad ↦ inl (optional_uuid-IsBad invalid_block_doc_id block_id e bad)
      | inr (block_uuid, hb, k) ↦ elim (chain-err (pack_others others) _ e k) [
        | inl bad ↦ inr (inl (pack_others-HasBadOther others e bad))
        | inr (packed, hp, l) ↦
            elim (chain-err (optional_uuid invalid_batch_sig_doc_id sig_id) _ e l) [
              | inl bad ↦ inr (inr (optional_uuid-IsBad invalid_batch_sig_doc_id sig_id e bad))
              | inr (sig_uuid, hs, m) ↦ absurd (err-ne-ok (sym m))
            ]
      ]
    ]

tracked-Steps :
    (q : IndexerQueue) (n : ℕ) (block_id : Bytes) (others : Dict (List Bytes)) (sig_id : Bytes)
    (r : Result TrackError IndexerQueue)
    → track_block_doc_ids q n block_id others sig_id ≡ r
    → Steps
        (track n block_id others sig_id)
        (of_entries q.entries)
        (of_entries (after_track q r).entries)
        none
unfolding after_track
tracked-Steps q n block_id others sig_id (err e) h =
    refused n block_id others sig_id _ (track-refuses q n block_id others sig_id e h)
tracked-Steps q n block_id others sig_id (ok q') h =
    let (e, at, appended) = track-appends q q' n block_id others sig_id h in
    subst (λ b. Steps (track n block_id others sig_id) (of_entries q.entries) b none)
      (sym (ap of_entries appended ∙ Quot.sound (perm_append_singleton e q.entries)))
      (tracked n block_id others sig_id (of_entries q.entries) e at)

pub perform_all :
    (List BlockEntry → List BlockEntry)
    → List Op
    → IndexerQueue
    → IndexerQueue × List (Option DrainResult)
unfolding perform
perform_all sort [] q = (q, [])
perform_all sort (op ∷ ops) q =
    let (q', r) = perform sort op q in let (q'', rs) = perform_all sort ops q' in (q'', r ∷ rs)

module _ (sort : List BlockEntry → List BlockEntry) (s : IsSort sort) where
  conserved :
      (q q' : IndexerQueue) (drained : List BlockEntry)
      → Splits q q' drained
      → of_entries (drained ++ q'.entries) ≡ of_entries q.entries
  conserved q q' drained splits = Quot.sound splits.conserved

  perform-Steps :
      (op : Op) (q : IndexerQueue)
      → Steps op
          (of_entries q.entries)
          (of_entries (perform sort op q).0.entries)
          (perform sort op q).1
  unfolding perform
  perform-Steps (track n block_id others sig_id) q =
      tracked-Steps q n block_id others sig_id (track_block_doc_ids q n block_id others sig_id) refl
  perform-Steps (drain_blocks keep block_col sig_col) q =
      elim (drain_lem sort s keep block_col sig_col q) [
        | inl (le, same, no_result) ↦ rw (same, no_result) (few keep block_col sig_col q.entries le)
        | inr (old, result, splits, kept, sum) ↦
            rw (result, ← conserved q _ old splits)
              (oldest keep block_col sig_col old _ splits.oldest_first kept)
      ]
  perform-Steps (drain_docs excess block_col sig_col) q =
      elim (drain_by_doc_count_lem sort s excess block_col sig_col q) [
        | inl (same, no_result, idle) ↦
            rw (same, no_result) (no_excess excess block_col sig_col q.entries idle)
        | inr (old, result, splits, is_shortest, sum) ↦
            rw (result, ← conserved q _ old splits)
              (shortest excess block_col sig_col old _ splits.oldest_first is_shortest)
      ]

  -- Any sequence of calls on the queue, from any state, does to its entries, taken without their
  -- order, what the backlog's rules say, and returns what they say: a tracked block is added
  -- with the UUIDs of all IDs that are given, or refused because one of them holds none; a drain takes nothing from few blocks, and otherwise the oldest, down to
  -- the number to keep or as the shortest front with the excess of documents.
  pub perform_all-Runs :
      (ops : List Op) (q : IndexerQueue)
      → Runs ops
          (of_entries q.entries)
          (of_entries (perform_all sort ops q).0.entries)
          (perform_all sort ops q).1
  unfolding perform_all
  perform_all-Runs [] q = done _
  perform_all-Runs (op ∷ ops) q =
      next (perform-Steps op q) (perform_all-Runs ops (perform sort op q).0)
