-- ===== src/Roller/Orphans.antt =====
-- What `RollbackBlocks` deletes, and in which order.
use shinzo_generator_client.Prelude.{
  ℕ, zero, suc, ◌+◌, ◌-◌, ◌≤◌, ◌<◌, ◌≡◌, ◌≢◌, refl, ap, String, List, ◌||◌, Option, none, some, ok,
  Result-cases, Option-cases, Bool-cases, inl, inr, arith, str_eq, ne_of_test, subst,
}
use shinzo_generator_client.Processor.Types.{Hashes, hash_at}
use shinzo_generator_client.Roller.{
  Defra, RollbackError, get_stored_block_hash, delete_height, then_below, rollback_round,
  rollback_heights, rollback_blocks,
}

module _ (d : Defra) (sort_strings : List String → List String) (hashes : Hashes) where
  open d use {Db}

  -- A block is stored at the height, the height has a verified chain hash, and the two differ.
  pub data IsOrphan (db : Db) (h : ℕ) : Type 0 where
    orphan :
        (chain_hash stored : String)
        → hash_at h hashes ≡ some chain_hash
        → chain_hash ≢ ""
        → get_stored_block_hash d sort_strings db h ≡ ok stored
        → stored ≢ ""
        → stored ≢ chain_hash
        → IsOrphan db h

  -- A run of deletions that turns one database into another, each of one height that is an orphan
  -- at that moment, not below `from`, and below all the heights before it.
  pub data Rolls (from : ℕ) : ℕ → Db → Db → Type 0 where
    done : {top : ℕ} {db : Db} → Rolls from top db db
    roll :
        {top : ℕ} {db db' : Db} (h : ℕ)
        → h < top
        → from ≤ h
        → IsOrphan db h
        → Rolls from h (delete_height d sort_strings h db).0 db'
        → Rolls from top db db'

  Rolls-weaken :
      {from low top : ℕ} {db db' : Db} → low ≤ top → Rolls from low db db' → Rolls from top db db'
  Rolls-weaken le done = done
  Rolls-weaken le (roll h lt ge o r) = roll h (omega arith) ge o r

  -- how a round leaves the database
  data Round (h : ℕ) (db : Db) (r : Db × Option RollbackError) : Type 0 where
    untouched : r.0 ≡ db → Round h db r
    deleted : IsOrphan db h → r ≡ delete_height d sort_strings h db → Round h db r

  rollback_round-Round :
      (h : ℕ) (db : Db) → Round h db (rollback_round d sort_strings h (hash_at h hashes) db)
  unfolding rollback_round
  rollback_round-Round h db = elim (Option-cases (hash_at h hashes)) [
    | inl unknown ↦ rw unknown (untouched refl)
    | inr (chain_hash, known) ↦ elim (Bool-cases (str_eq chain_hash "")) [
      | inl empty ↦ rw (known, empty) (untouched refl)
      | inr full ↦ elim (Result-cases (get_stored_block_hash d sort_strings db h)) [
        | inr (e, failed) ↦ rw (known, full, failed) (untouched refl)
        | inl (stored, found) ↦ elim (Bool-cases (str_eq stored "" || str_eq stored chain_hash)) [
          | inl keep ↦ rw (known, full, found, keep) (untouched refl)
          | inr differs ↦
              rw (known, full, found, differs)
                (deleted
                  (orphan chain_hash stored known (ne_of_test chain_hash "" full) found
                    (ne_of_test stored "" (ground arith))
                    (ne_of_test stored chain_hash (ground arith)))
                  refl)
        ]
      ]
    ]
  ]

  -- What the lower rounds do is a run; so is what this one and they do.
  Rolls-then_below :
      (from h : ℕ) (db : Db) (r : Db × Option RollbackError)
      (below : Db → Db × Option RollbackError)
      → from ≤ h
      → Round h db r
      → ((db' : Db) → Rolls from h db' (below db').0)
      → Rolls from (suc h) db (then_below d sort_strings r below).0
  Rolls-then_below from h db (db1, none) below ge (untouched e) lower =
      subst (λ x. Rolls from (suc h) x (below db1).0) e (Rolls-weaken (omega arith) (lower db1))
  Rolls-then_below from h db (db1, some x) below ge (untouched e) lower =
      subst (λ x. Rolls from (suc h) x db1) e done
  Rolls-then_below from h db (db1, none) below ge (deleted o e) lower =
      roll h (omega arith) ge o
        (subst (λ x. Rolls from h x (below db1).0) (ap (λ t. t.0) e) (lower db1))
  Rolls-then_below from h db (db1, some x) below ge (deleted o e) lower =
      roll h (omega arith) ge o (subst (λ x. Rolls from h x db1) (ap (λ t. t.0) e) done)

  rollback_heights-Rolls :
      (from n : ℕ) (db : Db)
      → Rolls from (from + n) db (rollback_heights d sort_strings hashes from n db).0
  unfolding rollback_heights
  rollback_heights-Rolls from zero db = done
  rollback_heights-Rolls from (suc n) db = Rolls-weaken (omega arith) (
      Rolls-then_below from (from + n) db
        (rollback_round d sort_strings (from + n) (hash_at (from + n) hashes) db)
        (rollback_heights d sort_strings hashes from n) (omega arith)
        (rollback_round-Round (from + n) db) (λ db'. rollback_heights-Rolls from n db'))

  -- Whatever fails on the way, `RollbackBlocks` changes the database only by deleting heights of
  -- its range, in descending order, each an orphan when it is deleted: its stored hash is known and
  -- disagrees with a known verified hash of the new chain.
  pub rollback_blocks-Rolls :
      (from to : ℕ) (db : Db)
      → Rolls from (suc to) db (rollback_blocks d sort_strings from to hashes db).0
  unfolding rollback_blocks
  rollback_blocks-Rolls from to db = rounds (to + 1 - from) refl
    where
      rounds :
          (n : ℕ)
          → n ≡ to + 1 - from
          → Rolls from (suc to) db (rollback_heights d sort_strings hashes from n db).0
      rounds zero e = unfold rollback_heights in done
      rounds (suc n) e = Rolls-weaken (omega arith) (rollback_heights-Rolls from (suc n) db)
