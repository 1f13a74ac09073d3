-- ===== src/Indexer/Resumes.antt =====
-- Where the indexer starts.
use shinzo_generator_client.Prelude.{
  ℕ, ◌+◌, ◌-◌, ◌≤◌, ◌<◌, ◌≡◌, refl, true, false, arith, ◌⊎◌, inl, inr, Result, ok, err, ltb,
  Bool-cases, ltb→lt, ltb-false→le, if-cases,
}
use shinzo_generator_client.Processor.Types.{QueryError, FetchError}
use shinzo_generator_client.Indexer.{highest_existing, resume_from, start_at, resolve_start_height}

-- A start height, by the height of the highest stored block, 0 without one.
pub data Starts (configured_height start_buffer highest chain_tip start : ℕ) : Type 0 where
  -- above the stored blocks, at most a buffer behind the tip, and with a gap only if it is just that
  resumes :
      0 < highest
      → highest < start
      → chain_tip ≤ start + start_buffer
      → (start ≡ highest + 1) ⊎ (start + start_buffer ≡ chain_tip)
      → Starts configured_height start_buffer highest chain_tip start
  as_configured :
      highest ≡ 0
      → 0 < configured_height
      → start ≡ configured_height
      → Starts configured_height start_buffer highest chain_tip start
  near_tip :
      highest ≡ 0
      → configured_height ≡ 0
      → start ≤ chain_tip
      → chain_tip ≤ start + start_buffer
      → (start ≡ 0) ⊎ (start + start_buffer ≡ chain_tip)
      → Starts configured_height start_buffer highest chain_tip start

resumed :
    (configured_height start_buffer highest chain_tip : ℕ)
    → 0 < highest
    → Starts configured_height start_buffer highest chain_tip
        (resume_from start_buffer highest chain_tip)
unfolding resume_from
resumed configured_height start_buffer highest chain_tip some_stored =
    if-cases (Starts configured_height start_buffer highest chain_tip)
      (ltb start_buffer (chain_tip - highest))
      (λ far. resumes some_stored (far_start far) (omega arith) (inr (far_sum far)))
      (λ near. resumes some_stored (omega arith) (near_tip_le near) (inl refl))
  where
    far_start : ltb start_buffer (chain_tip - highest) ≡ true → highest < chain_tip - start_buffer
    far_start far = omega (arith, ltb→lt _ _ far)

    far_sum :
        ltb start_buffer (chain_tip - highest) ≡ true
        → chain_tip - start_buffer + start_buffer ≡ chain_tip
    far_sum far = omega (arith, ltb→lt _ _ far)

    near_tip_le :
        ltb start_buffer (chain_tip - highest) ≡ false → chain_tip ≤ highest + 1 + start_buffer
    near_tip_le near = omega (arith, ltb-false→le _ _ near)

from_tip :
    (start_buffer chain_tip : ℕ)
    → (chain_tip - start_buffer ≡ 0) ⊎ (chain_tip - start_buffer + start_buffer ≡ chain_tip)
from_tip start_buffer chain_tip = elim (Bool-cases (ltb start_buffer chain_tip)) [
  | inl below ↦ inr (omega (arith, ltb→lt _ _ below))
  | inr above ↦ inl (omega (arith, ltb-false→le _ _ above))
]

start_at-Starts :
    (configured_height start_buffer highest chain_tip : ℕ)
    → Starts configured_height start_buffer highest chain_tip
        (start_at configured_height start_buffer highest chain_tip)
unfolding start_at
start_at-Starts configured_height start_buffer highest chain_tip =
    let P = Starts configured_height start_buffer highest chain_tip in
    if-cases P (ltb 0 highest)
      (λ some_stored.
        resumed configured_height start_buffer highest chain_tip (ltb→lt _ _ some_stored))
      (λ none_stored.
        if-cases P (ltb 0 configured_height)
          (λ set. as_configured (none_of none_stored) (ltb→lt _ _ set) refl)
          (λ unset.
            near_tip (none_of none_stored) (unset_of unset) (omega arith) (omega arith)
              (from_tip start_buffer chain_tip)))
  where
    none_of : ltb 0 highest ≡ false → highest ≡ 0
    none_of test = omega (arith, ltb-false→le _ _ test)

    unset_of : ltb 0 configured_height ≡ false → configured_height ≡ 0
    unset_of test = omega (arith, ltb-false→le _ _ test)

-- What the resolution answers: a height to start at, or the error of the query for the tip.
pub data Resolves (configured_height start_buffer : ℕ) (stored : Result QueryError ℕ)
    : Result FetchError ℕ → Result FetchError ℕ → Type 0 where
  starts :
      {chain_tip start : ℕ}
      → Starts configured_height start_buffer (highest_existing stored) chain_tip start
      → Resolves configured_height start_buffer stored (ok chain_tip) (ok start)
  no_tip : {e : FetchError} → Resolves configured_height start_buffer stored (err e) (err e)

-- The start height, for any answers of the two queries: without a tip it is that query's error.
-- With stored blocks it is above all of them, at most the buffer behind the tip, and leaves out
-- blocks only when it is exactly the buffer behind the tip. Without, or when their query fails, it
-- is the configured height, or if that is 0 the height the buffer behind the tip, at least 0.
pub resolve_start_height-Resolves :
    (configured_height start_buffer : ℕ) (stored : Result QueryError ℕ) (tip : Result FetchError ℕ)
    → Resolves configured_height start_buffer stored tip
        (resolve_start_height configured_height start_buffer stored tip)
unfolding resolve_start_height
resolve_start_height-Resolves configured_height start_buffer stored (err e) = no_tip
resolve_start_height-Resolves configured_height start_buffer stored (ok chain_tip) =
    starts (start_at-Starts configured_height start_buffer (highest_existing stored) chain_tip)
