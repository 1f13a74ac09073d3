-- ===== src/Processor/Retry/Stores.antt =====
-- How a store goes through its attempts.
use shinzo_generator_client.Prelude.{
  ℕ, zero, suc, ◌-◌, ◌<◌, ◌≡◌, String, true, false, ◌&&◌, ok, err, arith, ltb, lt→ltb, ◌∙◌,
}
use shinzo_generator_client.Processor.Run.{ErrorText}
use shinzo_generator_client.Processor.Retry.{
  Attempt, Stored, stored, already_stored, store_cancelled, store_failed, store_from,
  store_with_retry, max_rpc_retries,
}

-- an attempt that lost to another transaction, with the context alive throughout
pub record Conflicts (t : Attempt String) : Type 0 where
  pub error : ErrorText
  pub replied : t.reply ≡ err error
  pub conflict : error.transaction_conflict ≡ true
  pub is_new : error.already_exists ≡ false
  pub alive : t.done_before ≡ false
  pub alive_after : t.done_in_wait ≡ false

-- an attempt that ends the store, the `k`-th counted from 0
pub data Concludes (k : ℕ) (t : Attempt String) : Stored → Type 0 where
  accepted : {id : String} → t.done_before ≡ false → t.reply ≡ ok id → Concludes k t (stored id)
  known :
      {e : ErrorText}
      → t.done_before ≡ false
      → t.reply ≡ err e
      → e.already_exists ≡ true
      → Concludes k t already_stored
  refused :
      {e : ErrorText}
      → t.done_before ≡ false
      → t.reply ≡ err e
      → e.already_exists ≡ false
      → (e.transaction_conflict && ltb k (max_rpc_retries - 1)) ≡ false
      → Concludes k t (store_failed e)
  interrupted : t.done_before ≡ true → Concludes k t store_cancelled

module _ (attempts : ℕ → Attempt String) where
  -- the `k` attempts from `first` on
  unfoldable pub ConflictsFrom : ℕ → ℕ → Type 0
  ConflictsFrom first zero = Unit
  ConflictsFrom first (suc k) = Conflicts (attempts first) × ConflictsFrom (suc first) k

  store_from-Conflicts :
      (left first : ℕ)
      → Conflicts (attempts first)
      → first < max_rpc_retries - 1
      → store_from attempts (suc left) first ≡ store_from attempts left (suc first)
  unfolding store_from
  store_from-Conflicts left first c early = rw (
    c.alive,
    c.replied,
    c.is_new,
    c.conflict,
    lt→ltb first (max_rpc_retries - 1) early,
    c.alive_after,
  )

  store_from-Concludes :
      {o : Stored} (left k : ℕ) → Concludes k (attempts k) o → store_from attempts (suc left) k ≡ o
  unfolding store_from
  store_from-Concludes left k (accepted alive replied) = rw (alive, replied)
  store_from-Concludes left k (known alive replied exists) = rw (alive, replied, exists)
  store_from-Concludes left k (refused alive replied is_new final) =
      rw (alive, replied, is_new, final)
  store_from-Concludes left k (interrupted done) = rw done

  -- After fewer than three attempts that lost to another transaction, the store ends as the next
  -- attempt says: stored, known to be stored already, refused (a third conflict included), or
  -- cancelled.
  pub store_with_retry-Concludes :
      {o : Stored} (k : ℕ)
      → k < max_rpc_retries
      → ConflictsFrom 0 k
      → Concludes k (attempts k) o
      → store_with_retry attempts ≡ o
  unfolding store_with_retry ConflictsFrom
  store_with_retry-Concludes zero lt cs ends = store_from-Concludes 2 0 ends
  store_with_retry-Concludes (suc zero) lt (c, cs) ends =
      store_from-Conflicts 2 0 c (omega arith) ∙ store_from-Concludes 1 1 ends
  store_with_retry-Concludes (suc (suc zero)) lt (c, (c', cs)) ends =
      store_from-Conflicts 2 0 c (omega arith)
      ∙ (store_from-Conflicts 1 1 c' (omega arith) ∙ store_from-Concludes 0 2 ends)
  store_with_retry-Concludes (suc (suc (suc k))) lt cs ends = absurd (omega arith)
