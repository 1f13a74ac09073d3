-- ===== src/Queue/Grouping.antt =====
-- `buildDrainResult`: the documents of the drained entries, grouped by collection.
use shinzo_generator_client.Prelude.{
  ℕ, zero, suc, ◌+◌, ◌/◌, ◌≡◌, ◌≢◌, refl, sym, ap, ◌∙◌, String, List, [], ◌∷◌, ◌++◌, map, none,
  some, Bool, true, false, arith, ltb, length, append_assoc, append-nil, total, All, if◌then◌else◌,
  Bool-cases, inl, inr, eq_iff, length-map,
}
use shinzo_generator_client.Dict.{
  Dict, lookup, put, append_at, size, size-append_at, size-put, lookup-append_at_ne,
  lookup-put_self,
}
use shinzo_generator_client.Uuid.{Bytes, uuid_size, restore_doc_id}
use shinzo_generator_client.Queue.{
  BlockEntry, unpack_rounds, unpack_doc_ids, entry_doc_count, add_others, add_entries,
  with_block_ids, build_drain_result,
}
use shinzo_generator_client.Queue.Packing.{entry_doc_count-total}

length-unpack_rounds : (n : ℕ) (packed : Bytes) → length (unpack_rounds n packed) ≡ n
unfolding unpack_rounds
length-unpack_rounds zero packed = refl
length-unpack_rounds (suc n) packed = ap suc (length-unpack_rounds n _)

length-unpack_doc_ids :
    (packed : Bytes) → length (unpack_doc_ids packed) ≡ length packed / uuid_size
unfolding unpack_doc_ids
length-unpack_doc_ids packed = length-unpack_rounds (length packed / uuid_size) packed

-- no other collection of the entry is called `col`
abbrev pub LacksCollection : String → BlockEntry → Type 0
LacksCollection col e = All (λ p. col ≢ p.0) e.other_doc_ids

size-add_others :
    (others : Dict Bytes) (m : Dict (List Bytes))
    → size (add_others others m) ≡ size m + total (λ p. length p.1 / uuid_size) others
unfolding add_others
size-add_others [] m = omega arith
size-add_others ((col, packed) ∷ rest) m =
    elim (Bool-cases (ltb 0 (length (unpack_doc_ids packed)))) [
      | inl h ↦ rw h (
          omega (
            arith,
            size-add_others rest (append_at col (unpack_doc_ids packed) m),
            size-append_at col (unpack_doc_ids packed) m,
            length-unpack_doc_ids packed,
          ))
      | inr h ↦
          let empty : length (unpack_doc_ids packed) ≡ 0 = ground arith in
          rw h (omega (arith, size-add_others rest m, length-unpack_doc_ids packed))
    ]

lookup-add_others :
    (col : String) (others : Dict Bytes) (m : Dict (List Bytes))
    → All (λ p. col ≢ p.0) others
    → lookup col m ≡ none
    → lookup col (add_others others m) ≡ none
unfolding add_others
lookup-add_others col [] m h absent = absent
lookup-add_others col ((k, packed) ∷ rest) m h absent =
    elim (Bool-cases (ltb 0 (length (unpack_doc_ids packed)))) [
      | inl some_ids ↦
          rw some_ids (lookup-add_others col rest _ h.1 (lookup-append_at_ne col k _ m h.0 absent))
      | inr no_ids ↦ rw no_ids (lookup-add_others col rest m h.1 absent)
    ]

module _ (sig_col : String) where
  -- what one entry makes of the map
  abbrev add_entry : BlockEntry → Dict (List Bytes) → Dict (List Bytes)
  add_entry e m =
      let m' = add_others e.other_doc_ids m in
      if e.has_batch_sig then append_at sig_col (restore_doc_id e.batch_sig_id ∷ []) m' else m'

  size-add_signature :
      (b : Bool) (id : Bytes) (m : Dict (List Bytes))
      → size (if b then append_at sig_col (id ∷ []) m else m) ≡ size m + (if b then 1 else 0)
  size-add_signature true id m = size-append_at sig_col (id ∷ []) m
  size-add_signature false id m = omega arith

  size-add_entry :
      (e : BlockEntry) (m : Dict (List Bytes))
      → size (add_entry e m) + 1 ≡ size m + entry_doc_count e
  size-add_entry e m =
      let m' = add_others e.other_doc_ids m in
      omega (
        arith,
        size-add_signature e.has_batch_sig (restore_doc_id e.batch_sig_id) m',
        size-add_others e.other_doc_ids m,
        entry_doc_count-total e,
      )

  lookup-add_entry :
      (col : String) (e : BlockEntry) (m : Dict (List Bytes))
      → col ≢ sig_col
      → LacksCollection col e
      → lookup col m ≡ none
      → lookup col (add_entry e m) ≡ none
  lookup-add_entry col e m ne h absent = elim (Bool-cases e.has_batch_sig) [
    | inl signed ↦
        rw signed (
          lookup-append_at_ne col sig_col _ _ ne (lookup-add_others col e.other_doc_ids m h absent))
    | inr unsigned ↦ rw unsigned (lookup-add_others col e.other_doc_ids m h absent)
  ]

  abbrev block_ids_of : List BlockEntry → List Bytes
  block_ids_of = map (λ e. restore_doc_id e.block_doc_id)

  add_entries-ids :
      (es : List BlockEntry) (ids : List Bytes) (m : Dict (List Bytes))
      → (add_entries sig_col es ids m).0 ≡ ids ++ block_ids_of es
  unfolding add_entries
  add_entries-ids [] ids m = sym (append-nil ids)
  add_entries-ids (e ∷ es) ids m =
      add_entries-ids es (ids ++ restore_doc_id e.block_doc_id ∷ []) (add_entry e m)
      ∙ append_assoc ids (restore_doc_id e.block_doc_id ∷ []) (block_ids_of es)

  size-add_entries :
      (es : List BlockEntry) (ids : List Bytes) (m : Dict (List Bytes))
      → size (add_entries sig_col es ids m).1 + length es ≡ size m + total entry_doc_count es
  unfolding add_entries
  size-add_entries [] ids m = omega arith
  size-add_entries (e ∷ es) ids m = omega (
    arith,
    size-add_entries es (ids ++ restore_doc_id e.block_doc_id ∷ []) (add_entry e m),
    size-add_entry e m,
  )

  lookup-add_entries :
      (col : String) (es : List BlockEntry) (ids : List Bytes) (m : Dict (List Bytes))
      → col ≢ sig_col
      → All (LacksCollection col) es
      → lookup col m ≡ none
      → lookup col (add_entries sig_col es ids m).1 ≡ none
  unfolding add_entries
  lookup-add_entries col [] ids m ne h absent = absent
  lookup-add_entries col (e ∷ es) ids m ne h absent =
      lookup-add_entries col es _ (add_entry e m) ne h.1 (lookup-add_entry col e m ne h.0 absent)

with_block_ids_lem :
    (block_col : String) (r : List Bytes × Dict (List Bytes)) (id : Bytes) (ids : List Bytes)
    → block_col ≢ ""
    → r.0 ≡ id ∷ ids
    → lookup block_col r.1 ≡ none
    → (lookup block_col (with_block_ids block_col r) ≡ some r.0)
      × (size (with_block_ids block_col r) ≡ size r.1 + length r.0)
with_block_ids_lem block_col (all, m) id ids named e absent =
    let taken : with_block_ids block_col (all, m) ≡ put block_col all m =
      unfold with_block_ids in rw e (ground (arith, eq_iff block_col "")) in
    rw taken (lookup-put_self block_col all m, size-put block_col all m absent)

-- If the block collection has a name that is neither the signature collection's nor a key of a
-- drained entry, the result lists the block documents in drain order under that name, and holds
-- as many IDs in all as the entries count documents.
pub build_drain_result_complete :
    (e : BlockEntry) (es : List BlockEntry) (n : ℕ) (block_col sig_col : String)
    → block_col ≢ ""
    → block_col ≢ sig_col
    → All (LacksCollection block_col) (e ∷ es)
    → let m = (build_drain_result (e ∷ es) n block_col sig_col).doc_ids_by_collection in
      (lookup block_col m ≡ some (map (λ d. restore_doc_id d.block_doc_id) (e ∷ es)))
      × (size m ≡ total entry_doc_count (e ∷ es))
unfolding build_drain_result
build_drain_result_complete e es n block_col sig_col named apart lacks =
    let ids = add_entries-ids sig_col (e ∷ es) [] [] in
    let absent =
      lookup-add_entries sig_col block_col (e ∷ es) [] [] apart lacks (unfold lookup in refl) in
    let (found, sized) =
      with_block_ids_lem block_col (add_entries sig_col (e ∷ es) [] []) _ _ named ids absent in
    let count = size-add_entries sig_col (e ∷ es) [] [] in
    let blocks = length-map (e ∷ es) (λ d. restore_doc_id d.block_doc_id) in
    (found ∙ ap some ids, sized ∙ omega (arith, ap length ids, count, blocks))
