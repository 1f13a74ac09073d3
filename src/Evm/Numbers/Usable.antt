-- ===== src/Evm/Numbers/Usable.antt =====
-- What the query for a stored height answers.
use shinzo_generator_client.Prelude.{
  ℕ, ◌≡◌, refl, List, [], ◌∷◌, ◌++◌, Option, none, some, Result, ok, err, All, ◌≢◌, cons-ne-nil,
}
use shinzo_generator_client.Processor.Run.{ErrorText}
use shinzo_generator_client.Evm.Numbers.{
  Row, QueryReply, query_failed, no_data, no_list, rows, NumberError, failed, not_found, corrupt,
  parse_block_number_row, first_or, first_usable_row, has_any_block_docs, no_rows,
  query_block_number,
}

abbrev pub Unusable : Row → Type 0
Unusable row = parse_block_number_row row ≡ none

-- What the caller is told, given the rows with a number and those of the whole collection: the first
-- usable height behind unusable rows; corruption if rows are there and none is usable, also if
-- the filter hides them all; an empty collection only if there is no document.
pub data Answers : QueryReply → QueryReply → Result NumberError ℕ → Type 0 where
  height :
      (before : List Row) (row : Row) (after : List Row) (n : ℕ) (any : QueryReply)
      → All Unusable before
      → parse_block_number_row row ≡ some n
      → Answers (rows (before ++ row ∷ after)) any (ok n)
  all_unusable :
      (row : Row) (more : List Row) (any : QueryReply)
      → All Unusable (row ∷ more)
      → Answers (rows (row ∷ more)) any (err corrupt)
  all_hidden : (row : Row) (more : List Row) → Answers (rows []) (rows (row ∷ more)) (err corrupt)
  empty : Answers (rows []) (rows []) (err not_found)
  unlisted : Answers (rows []) no_list (err not_found)
  unanswered : Answers (rows []) no_data (err not_found)
  query_fails : (e : ErrorText) (any : QueryReply) → Answers (query_failed e) any (err (failed e))
  check_fails : (e : ErrorText) → Answers (rows []) (query_failed e) (err (failed e))
  no_map : (any : QueryReply) → Answers no_data any (err not_found)
  no_block_list : (any : QueryReply) → Answers no_list any (err not_found)

-- the outcome of the scan for a usable row
data Scan : List Row → Result NumberError ℕ → Type 0 where
  found :
      (before : List Row) (row : Row) (after : List Row) (n : ℕ)
      → All Unusable before
      → parse_block_number_row row ≡ some n
      → Scan (before ++ row ∷ after) (ok n)
  none_found : (rs : List Row) → All Unusable rs → Scan rs (err corrupt)

Scan-skip :
    (row : Row) {rs : List Row} {r : Result NumberError ℕ}
    → Unusable row
    → Scan rs r
    → Scan (row ∷ rs) r
Scan-skip row u (found before row' after n h e) = found (row ∷ before) row' after n (u, h) e
Scan-skip row u (none_found rs h) = none_found (row ∷ rs) (u, h)

first_usable_row-Scan : (rs : List Row) → Scan rs (first_usable_row rs)
unfolding first_usable_row
first_usable_row-Scan [] = none_found [] tt
first_usable_row-Scan (row ∷ rs) =
    parsed (parse_block_number_row row) refl (first_usable_row-Scan rs)
  where
    parsed :
        (o : Option ℕ)
        → parse_block_number_row row ≡ o
        → {r : Result NumberError ℕ} → Scan rs r
        → Scan (row ∷ rs) (first_or o r)
    parsed none e scan = unfold first_or in (Scan-skip row e scan)
    parsed (some n) e scan = unfold first_or in (found [] row rs n tt e)

Scan-Answers :
    (any : QueryReply) {rs : List Row} {r : Result NumberError ℕ}
    → Scan rs r
    → rs ≢ []
    → Answers (rows rs) any r
Scan-Answers any (found before row after n h e) filled = height before row after n any h e
Scan-Answers any (none_found [] h) filled = absurd (filled refl)
Scan-Answers any (none_found (row ∷ more) h) filled = all_unusable row more any h

-- Whatever the two queries answer, the height or the error that is reported is the one that the
-- answers call for: corruption is told apart from an empty collection and from a failed query.
pub query_block_number-Answers : (q any : QueryReply) → Answers q any (query_block_number q any)
unfolding query_block_number no_rows has_any_block_docs
query_block_number-Answers (query_failed e) any = query_fails e any
query_block_number-Answers no_data any = no_map any
query_block_number-Answers no_list any = no_block_list any
query_block_number-Answers (rows []) (query_failed e) = check_fails e
query_block_number-Answers (rows []) no_data = unanswered
query_block_number-Answers (rows []) no_list = unlisted
query_block_number-Answers (rows []) (rows []) = empty
query_block_number-Answers (rows []) (rows (row ∷ more)) = all_hidden row more
query_block_number-Answers (rows (row ∷ more)) any =
    Scan-Answers any (first_usable_row-Scan (row ∷ more)) cons-ne-nil
