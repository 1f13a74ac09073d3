-- ===== src/Handler/Existing/Ranges.antt =====
-- The chunks of a query for the IDs of a range of heights.
use Prim.Native.Nat.{min}
use shinzo_generator_client.Prelude.{
  ℕ, zero, suc, ◌+◌, ◌-◌, ◌≤◌, ◌≡◌, refl, sym, ◌∙◌, ap, arith, String, List, [], ◌∷◌, ◌++◌,
  append_assoc, append-nil, Option, none, some, ok, leb, leb→le, Bool-cases, inl, inr, ◌⊎◌,
  leb-false→lt,
}
use native.Mathlib.Nat.{zero-add, add-zero, suc-add}
use shinzo_generator_client.Handler.Existing.{
  chunk_size, doc_ids, chunk_found, query_chunks, query_collection_doc_ids,
}

-- what a store answers that holds `rows` at the heights: those of the `n` heights from `a` on
pub rows_from : (ℕ → List (Option String)) → ℕ → ℕ → List (Option String)
rows_from rows a zero = []
rows_from rows a (suc n) = rows a ++ rows_from rows (suc a) n

rows_from-split :
    (rows : ℕ → List (Option String)) (a m n : ℕ)
    → rows_from rows a (m + n) ≡ rows_from rows a m ++ rows_from rows (a + m) n
unfolding rows_from
rows_from-split rows a zero n = rw (zero-add, add-zero) refl
rows_from-split rows a (suc m) n =
    ap (λ k. rows_from rows a k) (suc-add m n)
    ∙ ap (λ xs. rows a ++ xs) (rows_from-split rows (suc a) m n)
    ∙ sym (append_assoc (rows a) (rows_from rows (suc a) m) (rows_from rows (suc a + m) n))
    ∙ ap (λ b. (rows a ++ rows_from rows (suc a) m) ++ rows_from rows b n) (omega arith)

doc_ids-append : (xs ys : List (Option String)) → doc_ids (xs ++ ys) ≡ doc_ids xs ++ doc_ids ys
unfolding doc_ids
doc_ids-append [] ys = refl
doc_ids-append (none ∷ xs) ys = doc_ids-append xs ys
doc_ids-append (some id ∷ xs) ys = ap (λ ids. id ∷ ids) (doc_ids-append xs ys)

-- one query for all the heights from `a` up to `to`
abbrev whole_range : (ℕ → List (Option String)) → ℕ → ℕ → List String
whole_range rows a to = doc_ids (rows_from rows a (to + 1 - a))

-- the same rows behind a chunk, wherever the count of them puts its start
rows_from-start :
    (rows : ℕ → List (Option String)) (a b n : ℕ)
    → (n ≡ 0) ⊎ (a ≡ b)
    → rows_from rows a n ≡ rows_from rows b n
unfolding rows_from
rows_from-start rows a b n (inl none_left) = rw (none_left) refl
rows_from-start rows a b n (inr same) = ap (λ c. rows_from rows c n) same

chunk-whole :
    (rows : ℕ → List (Option String)) (a to : ℕ)
    → a ≤ to
    → doc_ids (rows_from rows a (min (a + chunk_size - 1) to + 1 - a))
        ++ whole_range rows (a + chunk_size) to
      ≡ whole_range rows a to
chunk-whole rows a to le =
    let m = min (a + chunk_size - 1) to + 1 - a in
    let k = to + 1 - (a + chunk_size) in
    let start : (k ≡ 0) ⊎ (a + chunk_size ≡ a + m) = ground arith in
    ap (λ xs. doc_ids (rows_from rows a m) ++ doc_ids xs) (rows_from-start rows _ _ k start)
    ∙ sym (doc_ids-append (rows_from rows a m) (rows_from rows (a + m) k))
    ∙ ap doc_ids (sym (rows_from-split rows a m k))
    ∙ ap (λ n. doc_ids (rows_from rows a n)) (omega (arith, le))

whole_range-none :
    (rows : ℕ → List (Option String)) (a to : ℕ) (ids : List String)
    → to + 1 - a ≡ 0
    → ids ≡ ids ++ whole_range rows a to
unfolding doc_ids rows_from
whole_range-none rows a to ids over =
    sym (append-nil ids) ∙ ap (λ n. ids ++ doc_ids (rows_from rows a n)) (sym over)

query_chunks-whole :
    (rows : ℕ → List (Option String)) (fuel a to : ℕ) (ids : List String)
    → to + 1 - a ≤ fuel
    → query_chunks (λ c d. ok (rows_from rows c (d + 1 - c))) fuel a to ids
      ≡ ok (ids ++ whole_range rows a to)
unfolding query_chunks chunk_found
query_chunks-whole rows zero a to ids enough =
    ap ok (whole_range-none rows a to ids (omega (arith, enough)))
query_chunks-whole rows (suc fuel) a to ids enough = elim (Bool-cases (leb a to)) [
  | inl more ↦
      let le = leb→le a to more in
      rw more (
        query_chunks-whole rows fuel (a + chunk_size) to _ (omega (arith, enough, le))
        ∙ ap ok (append_assoc ids _ _ ∙ ap (λ xs. ids ++ xs) (chunk-whole rows a to le)))
  | inr over ↦
      rw over (ap ok (whole_range-none rows a to ids (omega (arith, leb-false→lt a to over))))
]

-- For a store that holds some rows at each height and answers a query for a range with those of its
-- heights in order: the chunked queries together return what one query for the whole range would,
-- no row missed at the ends of the chunks and none twice.
pub query_collection_doc_ids-whole :
    (rows : ℕ → List (Option String)) (from to : ℕ)
    → query_collection_doc_ids (λ a b. ok (rows_from rows a (b + 1 - a))) from to
      ≡ ok (doc_ids (rows_from rows from (to + 1 - from)))
query_collection_doc_ids-whole rows from to =
    unfold query_collection_doc_ids in
    (query_chunks-whole rows (to + 1 - from) from to [] (omega arith))
