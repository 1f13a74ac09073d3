-- ===== src/Indexer.antt =====
-- pkg/indexer/indexer.go: `resolveStartHeight`, for a start height and a buffer that are not
-- negative. The height of the highest stored block and the chain's tip are what the two queries
-- answer.
pub mod Resumes
pub mod Tests
use shinzo_generator_client.Prelude.{ℕ, ◌+◌, ◌-◌, Result, ok, err, ltb, if◌then◌else◌}
use shinzo_generator_client.Processor.Types.{QueryError, FetchError}

-- `highestExisting`, where a failed query counts as an empty database
unfoldable pub highest_existing : Result QueryError ℕ → ℕ
highest_existing (ok height) = height
highest_existing (err e) = 0

-- `resumeFrom`
unfoldable pub resume_from : ℕ → ℕ → ℕ → ℕ
resume_from start_buffer highest chain_tip =
    if ltb start_buffer (chain_tip - highest) then chain_tip - start_buffer else highest + 1

unfoldable pub start_at : ℕ → ℕ → ℕ → ℕ → ℕ
unfolding resume_from
start_at configured_height start_buffer highest chain_tip =
    if ltb 0 highest
    then resume_from start_buffer highest chain_tip
    else if ltb 0 configured_height
    then configured_height
    else chain_tip - start_buffer

-- `resolveStartHeight`
unfoldable pub resolve_start_height :
    ℕ → ℕ → Result QueryError ℕ → Result FetchError ℕ → Result FetchError ℕ
unfolding highest_existing start_at
resolve_start_height configured_height start_buffer stored (err e) = err e
resolve_start_height configured_height start_buffer stored (ok chain_tip) =
    ok (start_at configured_height start_buffer (highest_existing stored) chain_tip)
