-- ===== src/Roller/Tests.antt =====
-- A database of blocks by height, for the tests of the roller.
use shinzo_generator_client.Prelude.{
  ℕ, ◌≡◌, refl, ◌⊎◌, String, List, [], ◌∷◌, ◌++◌, true, false, Option, none, some, str_eq,
}
use shinzo_generator_client.Prelude.Heights.{Heights, find, remove}
use shinzo_generator_client.Dict.{lookup}
use shinzo_generator_client.Processor.Types.{Hashes, hash_at}
use shinzo_generator_client.Roller.{Defra, Reply, rows, contains, delete_order, rollback_blocks}
use shinzo_generator_client.Roller.Orphans.{Rolls, rollback_blocks-Rolls}
use shinzo_generator_client.Roller.Order.{delete_order_lem}

-- the block of a height, by its hash, with the height as its document
abbrev reply_of : Option String → Reply
reply_of none = rows []
reply_of (some hash) = rows (some hash ∷ [])

abbrev delete_all : List ℕ → Heights String → Heights String
delete_all [] db = db
delete_all (n ∷ ids) db = delete_all ids (remove n db)

abbrev small_store : Defra
small_store = record {
  Db = Heights String;
  DocId = ℕ;
  visible_blocks = λ db n. reply_of (find n db);
  doc_ids_of_height = λ db n. some (("Block", n ∷ []) ∷ []);
  has_collection = λ db col. str_eq col "Block";
  delete_documents = λ db col ids. (delete_all ids db, true);
  block_collection = "Block";
  all_collections = "Block" ∷ "Tx" ∷ [];
}

abbrev with_orphans : Heights String
with_orphans = (4, "o4") ∷ (5, "o5") ∷ (3, "c3") ∷ []

abbrev verified_hashes : Hashes
verified_hashes = (4, "c4") ∷ (5, "c5") ∷ []

abbrev unsorted : List String → List String
unsorted cols = cols

orphans_deleted :
    rollback_blocks small_store unsorted 4 5 verified_hashes with_orphans ≡ (((3, "c3") ∷ []), none)
unfolding rollback_blocks find remove hash_at delete_order lookup
orphans_deleted = refl

rollback_blocks-Rolls_example :
    Rolls small_store unsorted verified_hashes 4 6 with_orphans
      (rollback_blocks small_store unsorted 4 5 verified_hashes with_orphans).0
rollback_blocks-Rolls_example =
    rollback_blocks-Rolls small_store unsorted verified_hashes 4 5 with_orphans

delete_order_lem_example :
    ((c : String)
      → contains (delete_order ("Block" ∷ "Tx" ∷ "Log" ∷ []) "Block" ("Log" ∷ "Block" ∷ [])) c
        ≡ contains ("Log" ∷ "Block" ∷ []) c)
    × ((contains ("Log" ∷ "Block" ∷ []) "Block" ≡ false)
        ⊎ ((children : List String) × (delete_order
                ("Block" ∷ "Tx" ∷ "Log" ∷ [])
                "Block"
                ("Log" ∷ "Block" ∷ [])
              ≡ children ++ "Block" ∷ [])
            × (contains children "Block" ≡ false)))
delete_order_lem_example =
    delete_order_lem ("Block" ∷ "Tx" ∷ "Log" ∷ []) "Block" ("Log" ∷ "Block" ∷ [])
