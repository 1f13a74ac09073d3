-- ===== src/Roller/Order.antt =====
-- The collections that `deleteOrder` gives, and the place of the block collection.
use mathlib.Core.List.{reverse}
use shinzo_generator_client.Prelude.{
  ◌≡◌, refl, sym, ap, ◌∙◌, String, List, [], ◌∷◌, ◌++◌, Bool, true, false, not, ◌||◌, ◌&&◌,
  Bool-cases, ◌⊎◌, inl, inr, arith, str_eq, eq_iff, test_refl,
}
use shinzo_generator_client.Roller.{contains, known_children, other_children, delete_order}

contains-append :
    (xs ys : List String) (c : String) → contains (xs ++ ys) c ≡ (contains xs c || contains ys c)
unfolding contains
contains-append [] ys c = refl
contains-append (x ∷ xs) ys c = ground (arith, contains-append xs ys c)

-- a collection to delete that is not the block collection
abbrev is_child : String → List String → String → Bool
is_child block_col cols c = contains cols c && not (str_eq c block_col)

known_children-is_child :
    (block_col : String) (cols known : List String) (c : String)
    → contains (known_children block_col cols known) c ≡ true
    → is_child block_col cols c ≡ true
unfolding known_children contains
known_children-is_child block_col cols [] c h = cc
known_children-is_child block_col cols (k ∷ known) c h = ground (
  arith,
  eq_iff k c,
  ap (contains cols) {x = k} {y = c},
  known_children-is_child block_col cols known c,
)

skipped :
    (block_col col : String) (ordered : List String) (c : String) (more : Bool)
    → (str_eq col block_col || contains ordered col) ≡ true
    → (contains ordered c || (more && not (str_eq c block_col)))
      ≡ (contains ordered c || ((str_eq col c || more) && not (str_eq c block_col)))
skipped block_col col ordered c more h = ground (
  arith,
  eq_iff col c,
  eq_iff col block_col,
  eq_iff c block_col,
  ap (contains ordered) {x = col} {y = c},
)

taken :
    (block_col col : String) (ordered : List String) (c : String) (more : Bool)
    → (str_eq col block_col || contains ordered col) ≡ false
    → ((contains ordered c || (str_eq col c || false)) || (more && not (str_eq c block_col)))
      ≡ (contains ordered c || ((str_eq col c || more) && not (str_eq c block_col)))
taken block_col col ordered c more h =
    ground (arith, eq_iff col c, eq_iff col block_col, eq_iff c block_col)

contains-other_children :
    (block_col : String) (cols ordered : List String) (c : String)
    → contains (other_children block_col cols ordered) c
      ≡ (contains ordered c || is_child block_col cols c)
unfolding other_children contains
contains-other_children block_col [] ordered c = ground arith
contains-other_children block_col (col ∷ cols) ordered c =
    elim (Bool-cases (str_eq col block_col || contains ordered col)) [
      | inl skip ↦ rw skip (
          contains-other_children block_col cols ordered c
          ∙ skipped block_col col ordered c (contains cols c) skip)
      | inr take ↦ rw take (
          contains-other_children block_col cols (ordered ++ col ∷ []) c
          ∙ ap (λ t. t || is_child block_col cols c) (contains-append ordered (col ∷ []) c)
          ∙ taken block_col col ordered c (contains cols c) take)
    ]

-- the collections before the block collection
front : List String → String → List String → List String
front all_collections block_col cols =
    other_children block_col cols (known_children block_col cols (reverse all_collections))

contains-front :
    (all_collections : List String) (block_col : String) (cols : List String) (c : String)
    → contains (front all_collections block_col cols) c ≡ is_child block_col cols c
unfolding front
contains-front all_collections block_col cols c =
    let known = known_children block_col cols (reverse all_collections) in
    contains-other_children block_col cols known c
    ∙ absorbed (contains known c) (is_child block_col cols c)
        (known_children-is_child block_col cols (reverse all_collections) c)
  where
    absorbed : (a b : Bool) → (a ≡ true → b ≡ true) → (a || b) ≡ b
    absorbed true true h = refl
    absorbed true false h = sym (h refl)
    absorbed false b h = refl

block_back :
    (block_col : String) (cols : List String) (c : String)
    → contains cols block_col ≡ true
    → (is_child block_col cols c || contains (block_col ∷ []) c) ≡ contains cols c
unfolding contains
block_back block_col cols c h =
    ground
      (arith, eq_iff c block_col, eq_iff block_col c, ap (contains cols) {x = block_col} {y = c})

block_absent :
    (block_col : String) (cols : List String) (c : String)
    → contains cols block_col ≡ false
    → is_child block_col cols c ≡ contains cols c
block_absent block_col cols c h =
    ground (arith, eq_iff c block_col, ap (contains cols) {x = block_col} {y = c})

no_block : (block_col : String) (cols : List String) → is_child block_col cols block_col ≡ false
no_block block_col cols = ground (arith, test_refl block_col)

-- `deleteOrder` keeps exactly the given collections, and puts the block collection, where it is
-- given, last, behind an order in which it does not occur.
pub delete_order_lem :
    (all_collections : List String) (block_col : String) (cols : List String)
    → ((c : String) → contains (delete_order all_collections block_col cols) c ≡ contains cols c)
      × ((contains cols block_col ≡ false)
          ⊎ ((children : List String) × (delete_order all_collections block_col cols
                ≡ children ++ block_col ∷ [])
              × (contains children block_col ≡ false)))
unfolding delete_order front
delete_order_lem all_collections block_col cols = elim (Bool-cases (contains cols block_col)) [
  | inl with_block ↦ rw with_block (
    (λ c.
        contains-append (front all_collections block_col cols) (block_col ∷ []) c
        ∙ ap (λ t. t || contains (block_col ∷ []) c)
            (contains-front all_collections block_col cols c)
        ∙ block_back block_col cols c with_block),
    inr (
      front all_collections block_col cols,
      refl,
      contains-front all_collections block_col cols block_col ∙ no_block block_col cols,
    ),
  )
  | inr without ↦ rw without (
    (λ c. contains-front all_collections block_col cols c ∙ block_absent block_col cols c without),
    inl refl,
  )
]
