-- ===== src/Processor/Retry/Patience.antt =====
-- How long a fetch goes on.
use shinzo_generator_client.Prelude.{
  ℕ, suc, ◌+◌, ◌≤◌, ◌<◌, ◌≡◌, List, [], ◌∷◌, ◌++◌, true, false, ok, err, arith, lt→leb-false,
  le→leb, subst, ◌∙◌,
}
use native.Mathlib.Nat.{add-zero, zero-add}
use shinzo_generator_client.Processor.Run.{ErrorText}
use shinzo_generator_client.Processor.Retry.{
  Attempt, Fetched, fetched, gave_up, cancelled, fetch_from, fetch_with_retry, max_rpc_retries,
}

module _ {A : Type 0} where
  -- an attempt that failed, with the context alive throughout
  pub record Fails (t : Attempt A) : Type 0 where
    pub error : ErrorText
    pub replied : t.reply ≡ err error
    pub alive : t.done_before ≡ false
    pub alive_after : t.done_in_wait ≡ false

  -- `n` of the failed attempts have an error of another kind than not-found
  pub data AllFail : List (Attempt A) → ℕ → Type 0 where
    no_attempt : AllFail [] 0
    not_found_yet :
        {t : Attempt A} {ts : List (Attempt A)} {n : ℕ} (f : Fails t)
        → f.error.not_found ≡ true
        → AllFail ts n
        → AllFail (t ∷ ts) n
    other_error :
        {t : Attempt A} {ts : List (Attempt A)} {n : ℕ} (f : Fails t)
        → f.error.not_found ≡ false
        → AllFail ts n
        → AllFail (t ∷ ts) (suc n)

  fetch_from-AllFail :
      {failed : List (Attempt A)} {n : ℕ} (rest : List (Attempt A)) (others : ℕ)
      → AllFail failed n
      → others + n < max_rpc_retries
      → fetch_from (failed ++ rest) others ≡ fetch_from rest (others + n)
  unfolding fetch_from
  fetch_from-AllFail rest others no_attempt le = rw add-zero
  fetch_from-AllFail rest others (not_found_yet f missing more) le =
      rw (f.alive, f.replied, missing, f.alive_after) (fetch_from-AllFail rest others more le)
  fetch_from-AllFail {n} rest others (other_error {ts} f odd more) le =
      rw
        (
          f.alive,
          f.replied,
          odd,
          f.alive_after,
          lt→leb-false max_rpc_retries (others + 1) (omega arith),
        )
        (subst (λ m. fetch_from (ts ++ rest) (others + 1) ≡ fetch_from rest m) (omega arith)
          (fetch_from-AllFail rest (others + 1) more (omega arith)))

  -- an attempt that ends the fetch, after `n` errors of another kind than not-found
  pub data Settles (n : ℕ) (t : Attempt A) : Fetched A → Type 0 where
    answered : {a : A} → t.done_before ≡ false → t.reply ≡ ok a → Settles n t (fetched a)
    refused :
        {e : ErrorText}
        → t.done_before ≡ false
        → t.reply ≡ err e
        → e.not_found ≡ false
        → max_rpc_retries ≤ n + 1
        → Settles n t (gave_up e)
    interrupted : t.done_before ≡ true → Settles n t cancelled
    interrupted_in_wait :
        {e : ErrorText}
        → t.done_before ≡ false
        → t.reply ≡ err e
        → t.done_in_wait ≡ true
        → e.not_found ≡ true
        → Settles n t cancelled

  fetch_from-Settles :
      {n : ℕ} {t : Attempt A} {o : Fetched A} (rest : List (Attempt A))
      → Settles n t o
      → fetch_from (t ∷ rest) n ≡ o
  unfolding fetch_from
  fetch_from-Settles rest (answered alive replied) = rw (alive, replied)
  fetch_from-Settles {n} rest (refused alive replied odd many) =
      rw (alive, replied, odd, le→leb max_rpc_retries (n + 1) many)
  fetch_from-Settles rest (interrupted done) = rw done
  fetch_from-Settles rest (interrupted_in_wait alive replied done missing) =
      rw (alive, replied, missing, done)

  -- After any number of not-found replies and fewer than three other errors, the fetch ends as the
  -- next attempt says: with the answer, with the third error of another kind than not-found, or
  -- cancelled.
  pub fetch_with_retry-Settles :
      {failed : List (Attempt A)} {n : ℕ} {t : Attempt A} {o : Fetched A} (rest : List (Attempt A))
      → AllFail failed n
      → n < max_rpc_retries
      → Settles n t o
      → fetch_with_retry (failed ++ (t ∷ rest)) ≡ o
  unfolding fetch_with_retry
  fetch_with_retry-Settles {n} {t} rest fails few settles =
      fetch_from-AllFail (t ∷ rest) 0 fails (omega arith)
      ∙ (rw zero-add (fetch_from-Settles rest settles))
