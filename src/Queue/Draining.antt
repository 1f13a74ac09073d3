-- ===== src/Queue/Draining.antt =====
-- `Drain` and `DrainByDocCount`: what leaves the queue and what stays.
use mathlib.Core.List.{Perm}
use shinzo_generator_client.Prelude.{
  ℕ, zero, suc, ◌+◌, ◌-◌, ◌≤◌, ◌<◌, ◌≡◌, refl, sym, ap, ◌∙◌, ◌⊎◌, inl, inr, String, List, [], ◌∷◌,
  ◌++◌, none, some, arith, leb, leb→le, ◌||◌, true, ◌==◌, length, take, drop, total, All,
  Bool-cases, take-append-drop, length-take, length-drop, total-append, if◌then◌else◌,
}
use shinzo_generator_client.Queue.{
  BlockEntry, IndexerQueue, entry_doc_count, cutoff_from, build_drain_result, drain,
  drain_by_doc_count,
}
use shinzo_generator_client.Queue.Sorted.{NotAbove, IsSort, IsSorted-split, total-perm, length-perm}

abbrev pub docs : List BlockEntry → ℕ
docs = total entry_doc_count

-- `drained` left `q` and `q'` remains: nothing is lost or repeated, and what left is the oldest.
pub record Splits (q q' : IndexerQueue) (drained : List BlockEntry) : Type 0 where
  pub conserved : Perm (drained ++ q'.entries) q.entries
  pub oldest_first : All (λ d. All (NotAbove d) q'.entries) drained
  pub same_file : q'.file_path ≡ q.file_path

module _ (sort : List BlockEntry → List BlockEntry) (s : IsSort sort) where
  drop-Splits :
      (n : ℕ) (q : IndexerQueue)
      → Splits q (record q { entries = drop n (sort q.entries) }) (take n (sort q.entries))
  drop-Splits n q = record {
    conserved = rw (take-append-drop n (sort q.entries)) (s.perm q.entries);
    oldest_first = IsSorted-split n (sort q.entries) (s.sorted q.entries);
    same_file = refl;
  }

  -- A queue of at most `keep` blocks is left alone. From a longer one the oldest blocks leave until
  -- exactly `keep` remain, and the result is built from all of those that left.
  pub drain_lem :
      (keep : ℕ) (block_col sig_col : String) (q : IndexerQueue)
      → let (q', result) = drain sort keep block_col sig_col q in
        ((length q.entries ≤ keep) × (q' ≡ q) × (result ≡ none))
        ⊎ ((drained : List BlockEntry) × (result
              ≡ some (build_drain_result drained (length drained) block_col sig_col))
            × Splits q q' drained
            × (length q'.entries ≡ keep)
            × (length drained + keep ≡ length q.entries))
  unfolding drain
  drain_lem keep block_col sig_col q = elim (Bool-cases (leb (length q.entries) keep)) [
    | inl short ↦ rw short (inl (leb→le _ _ short, refl, refl))
    | inr long ↦
        let n = length (sort q.entries) - keep in
        let same = length-perm (s.perm q.entries) in
        let over : keep < length q.entries = ground arith in
        let left : length (take n (sort q.entries)) ≡ n =
          omega (arith, length-take n (sort q.entries)) in
        rw long (
          inr (
            take n (sort q.entries),
            rw left refl,
            drop-Splits n q,
            omega (arith, length-drop n (sort q.entries)),
            omega (arith, left),
          ))
  ]

data Cut (i acc excess : ℕ) (es : List BlockEntry) (c : ℕ) : Type 0 where
  found :
      (k : ℕ)
      → c ≡ i + suc k
      → k < length es
      → excess ≤ acc + docs (take (suc k) es)
      → acc + docs (take k es) < excess
      → Cut i acc excess es c
  exhausted : c ≡ 0 → acc + docs es < excess → Cut i acc excess es c

Cut-next :
    (i acc excess c : ℕ) (e : BlockEntry) (es : List BlockEntry)
    → Cut (i + 1) (acc + entry_doc_count e) excess es c
    → Cut i acc excess (e ∷ es) c
Cut-next i acc excess c e es (found k at inside enough before) =
    found (suc k) (omega arith) (omega arith) (omega arith) (omega arith)
Cut-next i acc excess c e es (exhausted none_found short) = exhausted none_found (omega arith)

cutoff_from_lem :
    (i acc excess : ℕ) (es : List BlockEntry)
    → acc < excess
    → Cut i acc excess es (cutoff_from i acc excess es)
unfolding cutoff_from
cutoff_from_lem i acc excess [] h = exhausted refl (omega arith)
cutoff_from_lem i acc excess (e ∷ es) h = elim (Bool-cases (leb excess (acc + entry_doc_count e))) [
  | inl enough ↦
      rw enough
        (found 0 (omega arith) (omega arith) (omega (arith, leb→le _ _ enough)) (omega arith))
  | inr more ↦ rw more (
      Cut-next i acc excess _ e es
        (cutoff_from_lem (i + 1) (acc + entry_doc_count e) excess es (ground arith)))
]

-- `drained` is the shortest front of the queue with `excess` documents, or all of it.
pub record IsShortest (excess : ℕ) (drained rest : List BlockEntry) : Type 0 where
  pub enough : (excess ≤ docs drained) ⊎ (rest ≡ [])
  pub needed : docs (take (length drained - 1) drained) < excess

-- nothing was found: everything is drained; else the cut is where the loop broke off
abbrev effective : ℕ → ℕ → ℕ
effective c n = if c == 0 then n else c

effective-suc : (k n : ℕ) → effective (suc k) n ≡ suc k
effective-suc k n = ground arith

take-take {ℓ} : {A : Type ℓ} (k n : ℕ) (xs : List A) → k ≤ n → take k (take n xs) ≡ take k xs
take-take zero n xs h = refl
take-take (suc k) zero xs h = elim h [ ]
take-take (suc k) (suc n) [] h = refl
take-take (suc k) (suc n) (x ∷ xs) h = ap (λ t. x ∷ t) (take-take k n xs (omega arith))

docs-take : (k : ℕ) (es : List BlockEntry) → docs (take k es) ≤ docs es
docs-take zero es = omega arith
docs-take (suc k) [] = omega arith
docs-take (suc k) (e ∷ es) = omega (arith, docs-take k es)

take_all {ℓ} : {A : Type ℓ} (xs : List A) → take (length xs) xs ≡ xs
take_all [] = refl
take_all (x ∷ xs) = ap (λ t. x ∷ t) (take_all xs)

drop_all {ℓ} : {A : Type ℓ} (xs : List A) → drop (length xs) xs ≡ []
drop_all [] = refl
drop_all (x ∷ xs) = drop_all xs

Cut-IsShortest :
    (excess c : ℕ) (es : List BlockEntry)
    → Cut 0 0 excess es c
    → IsShortest excess (take (effective c (length es)) es) (drop (effective c (length es)) es)
Cut-IsShortest excess c es (found k at inside enough before) =
    let here : c ≡ suc k = omega arith in
    let size : length (take (suc k) es) ≡ suc k = omega (arith, length-take (suc k) es) in
    let front : suc k - 1 ≡ k = omega arith in
    rw (here, effective-suc k (length es))
      (record {
        enough = inl (omega arith);
        needed = rw (size, front, take-take k (suc k) es (omega arith)) (omega arith);
      })
Cut-IsShortest excess c es (exhausted none_found short) =
    rw (none_found, take_all es, drop_all es)
      (record { enough = inr refl; needed = omega (arith, docs-take (length es - 1) es) })

effective-le :
    (excess c : ℕ) (es : List BlockEntry)
    → Cut 0 0 excess es c
    → effective c (length es) ≤ length es
effective-le excess c es (found k at inside enough before) =
    let here : c ≡ suc k = omega arith in rw (here, effective-suc k (length es)) (omega arith)
effective-le excess c es (exhausted none_found short) = rw none_found (omega arith)

idle_cases :
    (es : List BlockEntry) (excess : ℕ)
    → ((length es == 0) || (excess == 0)) ≡ true
    → (es ≡ []) ⊎ (excess ≡ 0)
idle_cases [] excess h = inl refl
idle_cases (e ∷ es) excess h = inr (ground arith)

module _ (sort : List BlockEntry → List BlockEntry) (s : IsSort sort) where
  docs_split :
      (n : ℕ) (q : IndexerQueue)
      → docs (take n (sort q.entries)) + docs (drop n (sort q.entries)) ≡ docs q.entries
  docs_split n q =
      sym (total-append entry_doc_count (take n (sort q.entries)) (drop n (sort q.entries)))
      ∙ ap docs (take-append-drop n (sort q.entries))
      ∙ total-perm entry_doc_count (s.perm q.entries)

  -- With an empty queue or no excess nothing changes. Otherwise the oldest blocks leave, the
  -- shortest front that holds `excess` documents or else every block, and the documents that
  -- left and those that remain add up to what the queue held.
  pub drain_by_doc_count_lem :
      (excess : ℕ) (block_col sig_col : String) (q : IndexerQueue)
      → let (q', result) = drain_by_doc_count sort excess block_col sig_col q in
        ((q' ≡ q) × (result ≡ none) × ((q.entries ≡ []) ⊎ (excess ≡ 0)))
        ⊎ ((drained : List BlockEntry) × (result
              ≡ some (build_drain_result drained (length drained) block_col sig_col))
            × Splits q q' drained
            × IsShortest excess drained q'.entries
            × (docs drained + docs q'.entries ≡ docs q.entries))
  unfolding drain_by_doc_count
  drain_by_doc_count_lem excess block_col sig_col q =
      elim (Bool-cases ((length q.entries == 0) || (excess == 0))) [
        | inl idle ↦ rw idle (inl (refl, refl, idle_cases q.entries excess idle))
        | inr busy ↦
            let sorted = sort q.entries in
            let c = cutoff_from 0 0 excess sorted in
            let n = effective c (length sorted) in
            let cut = cutoff_from_lem 0 0 excess sorted (ground arith) in
            let left : length (take n sorted) ≡ n =
              omega (arith, length-take n sorted, effective-le excess c sorted cut) in
            rw busy (
              inr (
                take n sorted,
                rw left refl,
                drop-Splits sort s n q,
                Cut-IsShortest excess c sorted cut,
                docs_split n q,
              ))
      ]
