-- ===== src/Evm/Documents/Ales.antt =====
-- The access list entries that `buildALEDocs` keeps.
use shinzo_generator_client.Prelude.{
  ℕ, ◌≡◌, refl, sym, ◌∙◌, ap, subst, arith, String, List, [], ◌∷◌, ◌++◌, append_assoc, append-nil,
  map, Bool, true, false, ◌||◌, Bool-cases, inl, inr, Option, none, some, str_eq, eq_iff,
  if◌then◌else◌, All, All-map, test_refl, if-cases,
}
use shinzo_generator_client.Evm.{AccessListEntry, Transaction}
use shinzo_generator_client.Evm.Documents.{
  AleDocs, ale_doc_key, contains, add_entry, add_entries, add_transactions, build_ale_data,
  build_ale_docs,
}

-- an entry with the hash of its transaction
abbrev pub Entry : Type 0
Entry = String × AccessListEntry

abbrev pub key_of : Entry → String
key_of e = ale_doc_key e.0 e.1

-- all entries of a block, in order
pub entries_of : List (Option Transaction) → List Entry
entries_of [] = []
entries_of (none ∷ txs) = entries_of txs
entries_of (some tx ∷ txs) = map (λ entry. (tx.hash, entry)) tx.access_list ++ entries_of txs

-- the first entry of each key that is not among `seen`
pub first_of_each : List String → List Entry → List Entry
unfolding contains
first_of_each seen [] = []
first_of_each seen (e ∷ entries) =
    if contains (key_of e) seen
    then first_of_each seen entries
    else e ∷ first_of_each (key_of e ∷ seen) entries

abbrev pub Distinct : List String → Type 0
Distinct [] = Unit
Distinct (k ∷ keys) = (contains k keys ≡ false) × Distinct keys

or-false : (a b : Bool) → (a || b) ≡ false → (a ≡ false) × (b ≡ false)
or-false a b h = ground arith

contains-none :
    (k : String) (keys : List String) → All (λ j. str_eq k j ≡ false) keys → contains k keys ≡ false
unfolding contains
contains-none k [] h = refl
contains-none k (j ∷ keys) h = ground (arith, eq_iff j k, eq_iff k j, contains-none k keys h.1, h.0)

-- the first list has some of the second one's elements, in their order
pub data Sublist : List Entry → List Entry → Type 0 where
  all_taken : Sublist [] []
  taken :
      {kept entries : List Entry} (e : Entry)
      → Sublist kept entries
      → Sublist (e ∷ kept) (e ∷ entries)
  left_out :
      {kept entries : List Entry} (e : Entry) → Sublist kept entries → Sublist kept (e ∷ entries)

-- the entries without their repeats: some of them, in order, with one of each key
pub record KeepsOnce (kept entries : List Entry) : Type 0 where
  pub in_block : Sublist kept entries
  pub distinct : Distinct (map key_of kept)
  pub found : All (λ e. contains (key_of e) (map key_of kept) ≡ true) entries

first_of_each-Sublist :
    (seen : List String) (entries : List Entry) → Sublist (first_of_each seen entries) entries
unfolding first_of_each
first_of_each-Sublist seen [] = all_taken
first_of_each-Sublist seen (e ∷ entries) =
    if-cases (λ kept. Sublist kept (e ∷ entries)) (contains (key_of e) seen)
      (λ old. left_out e (first_of_each-Sublist seen entries))
      (λ new. taken e (first_of_each-Sublist (key_of e ∷ seen) entries))

first_of_each-old :
    (seen : List String) (e : Entry) (entries : List Entry)
    → contains (key_of e) seen ≡ true
    → first_of_each seen (e ∷ entries) ≡ first_of_each seen entries
unfolding first_of_each
first_of_each-old seen e entries old = rw old refl

first_of_each-new :
    (seen : List String) (e : Entry) (entries : List Entry)
    → contains (key_of e) seen ≡ false
    → first_of_each seen (e ∷ entries) ≡ e ∷ first_of_each (key_of e ∷ seen) entries
unfolding first_of_each
first_of_each-new seen e entries new = rw new refl

first_of_each-fresh :
    (seen : List String) (entries : List Entry)
    → All (λ k. contains k seen ≡ false) (map key_of (first_of_each seen entries))
unfolding first_of_each
first_of_each-fresh seen [] = tt
first_of_each-fresh seen (e ∷ entries) = elim (Bool-cases (contains (key_of e) seen)) [
  | inl old ↦ rw old (first_of_each-fresh seen entries)
  | inr new ↦ rw new (
    new,
    All-map _ _ _
        (λ k h. (or-false (str_eq (key_of e) k) (contains k seen) (unfold contains in h)).1)
        (first_of_each-fresh (key_of e ∷ seen) entries),
  )
]

first_of_each-Distinct :
    (seen : List String) (entries : List Entry) → Distinct (map key_of (first_of_each seen entries))
unfolding first_of_each
first_of_each-Distinct seen [] = tt
first_of_each-Distinct seen (e ∷ entries) = elim (Bool-cases (contains (key_of e) seen)) [
  | inl old ↦ rw old (first_of_each-Distinct seen entries)
  | inr new ↦ rw new (
    contains-none (key_of e) _ (
        All-map _ (λ k. str_eq (key_of e) k ≡ false) _
          (λ k h. (or-false (str_eq (key_of e) k) (contains k seen) (unfold contains in h)).0)
          (first_of_each-fresh (key_of e ∷ seen) entries)),
    first_of_each-Distinct (key_of e ∷ seen) entries,
  )
]

-- a key that is seen, or that one of the kept entries has
abbrev Found : List String → List Entry → Entry → Type 0
Found seen kept e = (contains (key_of e) seen || contains (key_of e) (map key_of kept)) ≡ true

Found-here : (seen : List String) (kept : List Entry) (e : Entry) → Found seen (e ∷ kept) e
unfolding contains
Found-here seen kept e = ground (arith, test_refl (key_of e))

Found-behind :
    (seen : List String) (kept : List Entry) (e e' : Entry)
    → Found (key_of e ∷ seen) kept e'
    → Found seen (e ∷ kept) e'
unfolding contains
Found-behind seen kept e e' h = ground (arith, h)

first_of_each-finds :
    (seen : List String) (entries : List Entry)
    → All (Found seen (first_of_each seen entries)) entries
first_of_each-finds seen [] = tt
first_of_each-finds seen (e ∷ entries) = elim (Bool-cases (contains (key_of e) seen)) [
  | inl old ↦
      subst (λ kept. All (Found seen kept) (e ∷ entries))
        (sym (first_of_each-old seen e entries old))
        (ground (arith, old), first_of_each-finds seen entries)
  | inr new ↦
      let kept = first_of_each (key_of e ∷ seen) entries in
      subst (λ kept. All (Found seen kept) (e ∷ entries))
        (sym (first_of_each-new seen e entries new))
        (
          Found-here seen kept e,
          All-map (Found (key_of e ∷ seen) kept) (Found seen (e ∷ kept)) entries
              (λ e' h. Found-behind seen kept e e' h)
              (first_of_each-finds (key_of e ∷ seen) entries),
        )
]

-- the entries added one by one
add_all : ℕ → List Entry → AleDocs → AleDocs
add_all block_int [] a = a
add_all block_int (e ∷ entries) a = add_all block_int entries (add_entry e.0 block_int e.1 a)

add_all-append :
    (block_int : ℕ) (xs ys : List Entry) (a : AleDocs)
    → add_all block_int (xs ++ ys) a ≡ add_all block_int ys (add_all block_int xs a)
unfolding add_all
add_all-append block_int [] ys a = refl
add_all-append block_int (x ∷ xs) ys a =
    add_all-append block_int xs ys (add_entry x.0 block_int x.1 a)

add_entries-all :
    (tx_hash : String) (block_int : ℕ) (entries : List AccessListEntry) (a : AleDocs)
    → add_entries tx_hash block_int entries a
      ≡ add_all block_int (map (λ entry. (tx_hash, entry)) entries) a
unfolding add_entries add_all
add_entries-all tx_hash block_int [] a = refl
add_entries-all tx_hash block_int (entry ∷ entries) a =
    add_entries-all tx_hash block_int entries (add_entry tx_hash block_int entry a)

add_transactions-all :
    (block_int : ℕ) (txs : List (Option Transaction)) (a : AleDocs)
    → add_transactions block_int txs a ≡ add_all block_int (entries_of txs) a
unfolding add_transactions entries_of
add_transactions-all block_int [] a = unfold add_all in refl
add_transactions-all block_int (none ∷ txs) a = add_transactions-all block_int txs a
add_transactions-all block_int (some tx ∷ txs) a =
    add_transactions-all block_int txs (add_entries tx.hash block_int tx.access_list a)
    ∙ ap (add_all block_int (entries_of txs)) (add_entries-all tx.hash block_int tx.access_list a)
    ∙ sym (add_all-append block_int _ (entries_of txs) a)

-- the documents and the parents of the entries `kept`, behind those that are there
record Adds (block_int : ℕ) (a a' : AleDocs) (kept : List Entry) : Type 0 where
  docs : a'.docs ≡ a.docs ++ map (λ (e : Entry). build_ale_data e.1 block_int) kept
  refs : a'.parent_refs ≡ a.parent_refs ++ map (λ (e : Entry). e.0) kept

added : Entry → ℕ → AleDocs → AleDocs
added e block_int a = record {
  docs = a.docs ++ build_ale_data e.1 block_int ∷ [];
  parent_refs = a.parent_refs ++ e.0 ∷ [];
  seen = key_of e ∷ a.seen;
}

add_entry-old :
    (block_int : ℕ) (e : Entry) (a : AleDocs)
    → contains (key_of e) a.seen ≡ true
    → add_entry e.0 block_int e.1 a ≡ a
unfolding add_entry
add_entry-old block_int e a old = rw old refl

add_entry-new :
    (block_int : ℕ) (e : Entry) (a : AleDocs)
    → contains (key_of e) a.seen ≡ false
    → add_entry e.0 block_int e.1 a ≡ added e block_int a
unfolding add_entry added
add_entry-new block_int e a new = rw new refl

Adds-added :
    (block_int : ℕ) (e : Entry) (a a' : AleDocs) (kept : List Entry)
    → Adds block_int (added e block_int a) a' kept
    → Adds block_int a a' (e ∷ kept)
unfolding added
Adds-added block_int e a a' kept h = record {
  docs = h.docs ∙ append_assoc a.docs (build_ale_data e.1 block_int ∷ []) _;
  refs = h.refs ∙ append_assoc a.parent_refs (e.0 ∷ []) _;
}

add_all-Adds :
    (block_int : ℕ) (entries : List Entry) (a : AleDocs)
    → Adds block_int a (add_all block_int entries a) (first_of_each a.seen entries)
unfolding add_all added
add_all-Adds block_int [] a =
    unfold first_of_each in
    (record { docs = sym (append-nil a.docs); refs = sym (append-nil a.parent_refs) })
add_all-Adds block_int (e ∷ entries) a = elim (Bool-cases (contains (key_of e) a.seen)) [
  | inl old ↦
      rw (first_of_each-old a.seen e entries old, add_entry-old block_int e a old)
        (add_all-Adds block_int entries a)
  | inr new ↦
      rw (first_of_each-new a.seen e entries new, add_entry-new block_int e a new)
        (Adds-added block_int e a _ _ (add_all-Adds block_int entries (added e block_int a)))
]

-- `buildALEDocs` emits the documents of some of the block's access list entries, in the block's order
-- and each with the hash of its transaction beside it: no two of them have the same key, and every
-- entry of the block has the key of one of them, so that exactly the repeats are dropped.
pub build_ale_docs-Distinct :
    (txs : List (Option Transaction)) (block_int : ℕ)
    → (kept : List Entry) × Sublist kept (entries_of txs)
      × ((build_ale_docs txs block_int).docs
          ≡ map (λ (e : Entry). build_ale_data e.1 block_int) kept)
      × ((build_ale_docs txs block_int).parent_refs ≡ map (λ (e : Entry). e.0) kept)
      × Distinct (map key_of kept)
      × All (λ e. contains (key_of e) (map key_of kept) ≡ true) (entries_of txs)
unfolding build_ale_docs
build_ale_docs-Distinct txs block_int =
    let start : AleDocs = record { docs = []; parent_refs = []; seen = [] } in
    let same = add_transactions-all block_int txs start in
    let adds = add_all-Adds block_int (entries_of txs) start in
    (
      first_of_each [] (entries_of txs),
      first_of_each-Sublist [] (entries_of txs),
      ap (λ a. a.docs) same ∙ adds.docs,
      ap (λ a. a.parent_refs) same ∙ adds.refs,
      first_of_each-Distinct [] (entries_of txs),
      first_of_each-finds [] (entries_of txs),
    )
