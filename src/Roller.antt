-- ===== src/Roller.antt =====
-- ReorgRoller of pkg/defra/reorg_roller.go: the deletion of verified orphans. DefraDB and the
-- converter's range query are parameters, over an abstract state of the database.
pub mod Orphans
pub mod Order
pub mod Tests
use mathlib.Core.List.{reverse}
use shinzo_generator_client.Prelude.{
  ℕ, zero, suc, ◌+◌, ◌-◌, String, List, [], ◌∷◌, ◌++◌, Bool, true, false, ◌||◌, ◌&&◌, not, Option,
  none, some, Result, ok, err, ◌>>=◌, ltb, leb, ◌==◌, if◌then◌else◌, length, take, drop, map,
  str_eq,
}
use shinzo_generator_client.Dict.{Dict, lookup}
use shinzo_generator_client.Processor.Types.{QueryError, query_failed, Hashes, hash_at}

-- a row of a query for blocks: its hash, if it holds one as a text
abbrev pub Row : Type 0
Row = Option String

-- the answer of ExecRequest to the query for the visible blocks of a height
pub data Reply : Type 0 where
  graphql_errors : Reply
  no_data : Reply
  rows : List Row → Reply

pub data RollbackError : Type 0 where
  query_stored_block : RollbackError
  height_is_shared : ℕ → RollbackError
  query_doc_ids : RollbackError
  get_collection : String → RollbackError
  soft_delete_documents : String → RollbackError

-- DefraDB and the converter, as the roller uses them. A deletion that fails may have changed the
-- database, so the state comes back beside the failure.
pub record Defra : Type 1 where
  pub Db : Type 0
  pub DocId : Type 0
  pub visible_blocks : Db → ℕ → Reply
  pub doc_ids_of_height : Db → ℕ → Option (Dict (List DocId))
  pub has_collection : Db → String → Bool
  pub delete_documents : Db → String → List DocId → Db × Bool
  pub block_collection : String
  pub all_collections : List String

unfoldable pub contains : List String → String → Bool
contains [] c = false
contains (d ∷ cs) c = str_eq d c || contains cs c

-- `for _, k := range slices.Backward(known)`, given the known collections in that order
known_children : String → List String → List String → List String
unfolding contains
known_children block_col cols [] = []
known_children block_col cols (k ∷ known) =
    let rest = known_children block_col cols known in
    if not (str_eq k block_col) && contains cols k then k ∷ rest else rest

-- the second loop, over the collections that are not yet ordered
other_children : String → List String → List String → List String
unfolding contains
other_children block_col [] ordered = ordered
other_children block_col (col ∷ cols) ordered =
    other_children block_col cols
      (if str_eq col block_col || contains ordered col then ordered else ordered ++ col ∷ [])

-- `deleteOrder`, for the registered collections and the block collection
unfoldable pub delete_order : List String → String → List String → List String
unfolding known_children other_children contains
delete_order all_collections block_col cols =
    let ordered =
      other_children block_col cols (known_children block_col cols (reverse all_collections)) in
    if contains cols block_col then ordered ++ block_col ∷ [] else ordered

-- `sort.Strings` of the keys; the order it gives is the caller's parameter
keys : {V : Type 0} → Dict V → List String
keys = map (λ p. p.0)

-- the rest of `GetStoredBlockHash` behind its query
unfoldable pub hash_of_reply : ℕ → Reply → Result RollbackError String
hash_of_reply height graphql_errors = err query_stored_block
hash_of_reply height no_data = ok ""
hash_of_reply height (rows []) = ok ""
hash_of_reply height (rows (none ∷ [])) = ok ""
hash_of_reply height (rows (some hash ∷ [])) = ok hash
hash_of_reply height (rows (r ∷ s ∷ more)) = err (height_is_shared height)

abbrev chunk_size : ℕ
chunk_size = 100

module _ (d : Defra) (sort_strings : List String → List String) where
  open d use {
    Db, DocId, visible_blocks, doc_ids_of_height, has_collection, delete_documents,
    block_collection, all_collections,
  }

  unfoldable pub get_stored_block_hash : Db → ℕ → Result RollbackError String
  unfolding hash_of_reply
  get_stored_block_hash db height = hash_of_reply height (visible_blocks db height)

  -- the loop over chunks, by the number of chunks that can be left
  delete_chunks : ℕ → String → List DocId → Db → Db × Option RollbackError
  delete_chunks zero col ids db = (db, none)
  delete_chunks (suc n) col [] db = (db, none)
  delete_chunks (suc n) col (id ∷ ids) db =
      let (db', done) = delete_documents db col (take chunk_size (id ∷ ids)) in
      let rest = delete_chunks n col (drop chunk_size (id ∷ ids)) db' in
      if done then rest else (db', some (soft_delete_documents col))

  soft_delete_collection_docs : String → List DocId → Db → Db × Option RollbackError
  unfolding delete_chunks
  soft_delete_collection_docs col [] db = (db, none)
  soft_delete_collection_docs col (id ∷ ids) db =
      if has_collection db col
      then delete_chunks (length (id ∷ ids)) col (id ∷ ids) db
      else (db, some (get_collection col))

  or_empty : Option (List DocId) → List DocId
  or_empty none = []
  or_empty (some ids) = ids

  delete_collections : Dict (List DocId) → List String → Db → Db × Option RollbackError
  unfolding soft_delete_collection_docs or_empty
  delete_collections docs [] db = (db, none)
  delete_collections docs (col ∷ cols) db =
      let (db', e) = soft_delete_collection_docs col (or_empty (lookup col docs)) db in
      let rest = delete_collections docs cols db' in
      elim e [ none ↦ rest | some e' ↦ (db', some e') ]

  delete_docs : Option (Dict (List DocId)) → Db → Db × Option RollbackError
  unfolding delete_collections keys
  delete_docs none db = (db, some query_doc_ids)
  delete_docs (some docs) db =
      delete_collections docs
        (delete_order all_collections block_collection (sort_strings (keys docs))) db

  -- the part of a round that deletes a verified orphan
  pub delete_height : ℕ → Db → Db × Option RollbackError
  unfolding delete_docs
  delete_height height db = delete_docs (doc_ids_of_height db height) db

  -- a round, with what the rounds below it do of the database that it leaves
  abbrev then_below :
      Db × Option RollbackError → (Db → Db × Option RollbackError) → Db × Option RollbackError
  then_below (db, none) below = below db
  then_below (db, some e) below = (db, some e)

  verified_round : ℕ → String → Result RollbackError String → Db → Db × Option RollbackError
  unfolding delete_height
  verified_round height chain_hash (err e) db = (db, some e)
  verified_round height chain_hash (ok stored) db =
      if str_eq stored "" || str_eq stored chain_hash then (db, none) else delete_height height db

  rollback_round : ℕ → Option String → Db → Db × Option RollbackError
  unfolding verified_round get_stored_block_hash
  rollback_round height none db = (db, none)
  rollback_round height (some chain_hash) db =
      if str_eq chain_hash ""
      then (db, none)
      else verified_round height chain_hash (get_stored_block_hash db height) db

  -- `for height := to; height >= from; height--`, by the number of heights that are left
  pub rollback_heights : Hashes → ℕ → ℕ → Db → Db × Option RollbackError
  unfolding rollback_round
  rollback_heights chain_hashes from zero db = (db, none)
  rollback_heights chain_hashes from (suc n) db =
      then_below (rollback_round (from + n) (hash_at (from + n) chain_hashes) db)
        (rollback_heights chain_hashes from n)

  unfoldable pub rollback_blocks : ℕ → ℕ → Hashes → Db → Db × Option RollbackError
  unfolding rollback_heights
  rollback_blocks from to chain_hashes db = rollback_heights chain_hashes from (to + 1 - from) db
