-- ===== src/Evm/Last.antt =====
-- The last receipt of a transaction's hash in a list, as a search and as a map's entry.
use shinzo_generator_client.Prelude.{
  ◌≡◌, refl, ◌∙◌, ap, String, List, [], ◌∷◌, Option, none, some, str_eq, if◌then◌else◌, eq_of_test,
  ne_of_test, Bool-cases, inl, inr, sym,
}
use shinzo_generator_client.Dict.{Dict, lookup, put, lookup-put_self, lookup-put_ne}
use shinzo_generator_client.Evm.{TransactionReceipt}

pub or_else : Option TransactionReceipt → Option TransactionReceipt → Option TransactionReceipt
or_else (some r) other = some r
or_else none other = other

-- the last receipt with this hash, in the same spelling
pub last_with : String → List (Option TransactionReceipt) → Option TransactionReceipt
unfolding or_else
last_with hash [] = none
last_with hash (none ∷ receipts) = last_with hash receipts
last_with hash (some r ∷ receipts) =
    or_else (last_with hash receipts) (if str_eq r.transaction_hash hash then some r else none)

-- a loop over receipts that puts them into a map
pub record Fills
    (fill : List (Option TransactionReceipt) → Dict TransactionReceipt → Dict TransactionReceipt)
    : Type 0 where
  pub at_end : (m : Dict TransactionReceipt) → fill [] m ≡ m
  pub skips :
      (receipts : List (Option TransactionReceipt)) (m : Dict TransactionReceipt)
      → fill (none ∷ receipts) m ≡ fill receipts m
  pub puts :
      (r : TransactionReceipt) (receipts : List (Option TransactionReceipt))
      (m : Dict TransactionReceipt)
      → fill (some r ∷ receipts) m ≡ fill receipts (put r.transaction_hash r m)

lookup-put-or_else :
    (hash : String) (r : TransactionReceipt) (m : Dict TransactionReceipt)
    → lookup hash (put r.transaction_hash r m)
      ≡ or_else (if str_eq r.transaction_hash hash then some r else none) (lookup hash m)
unfolding or_else
lookup-put-or_else hash r m = elim (Bool-cases (str_eq r.transaction_hash hash)) [
  | inl same ↦ rw same (
      ap (λ k. lookup k (put r.transaction_hash r m))
        (sym (eq_of_test r.transaction_hash hash same))
      ∙ lookup-put_self r.transaction_hash r m)
  | inr other ↦ rw other (
      lookup-put_ne hash r.transaction_hash r m
        (λ e. ne_of_test r.transaction_hash hash other (sym e)))
]

or_else_assoc :
    (a b c : Option TransactionReceipt) → or_else a (or_else b c) ≡ or_else (or_else a b) c
unfolding or_else
or_else_assoc none b c = refl
or_else_assoc (some r) b c = refl

pub lookup-last_with :
    {fill : List (Option TransactionReceipt) → Dict TransactionReceipt → Dict TransactionReceipt}
    → Fills fill
    → (hash : String) (receipts : List (Option TransactionReceipt)) (m : Dict TransactionReceipt)
    → lookup hash (fill receipts m) ≡ or_else (last_with hash receipts) (lookup hash m)
unfolding last_with
lookup-last_with fills hash [] m = ap (lookup hash) (fills.at_end m) ∙ (unfold or_else in refl)
lookup-last_with fills hash (none ∷ receipts) m =
    ap (lookup hash) (fills.skips receipts m) ∙ lookup-last_with fills hash receipts m
lookup-last_with fills hash (some r ∷ receipts) m =
    ap (lookup hash) (fills.puts r receipts m)
    ∙ lookup-last_with fills hash receipts (put r.transaction_hash r m)
    ∙ ap (or_else (last_with hash receipts)) (lookup-put-or_else hash r m)
    ∙ or_else_assoc (last_with hash receipts) _ (lookup hash m)

or_else-none : (o : Option TransactionReceipt) → or_else o none ≡ o
unfolding or_else
or_else-none none = refl
or_else-none (some r) = refl

-- from an empty map
pub lookup-filled :
    {fill : List (Option TransactionReceipt) → Dict TransactionReceipt → Dict TransactionReceipt}
    → Fills fill
    → (hash : String) (receipts : List (Option TransactionReceipt))
    → lookup hash (fill receipts []) ≡ last_with hash receipts
lookup-filled fills hash receipts =
    lookup-last_with fills hash receipts []
    ∙ (unfold lookup in (or_else-none (last_with hash receipts)))
