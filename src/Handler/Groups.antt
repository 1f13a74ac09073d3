-- ===== src/Handler/Groups.antt =====
-- The loop of `Store` over the groups behind the block's own: stamp, write, record.
pub mod Covers
use shinzo_generator_client.Prelude.{String, List, [], ◌∷◌, ◌++◌, Option, none, some}
use shinzo_generator_client.Dict.{Dict, append_at}
use shinzo_generator_client.Chains.{Doc, DocumentGroup, LinkError, LinkStamper}
use shinzo_generator_client.Handler.{Env, World, StoreError, link}
use shinzo_generator_client.Handler.Batches.{BlockHandler, write_group}

-- the stamper's state with the variables of the loop
pub record Progress (L : Type 0) : Type 0 where
  pub links : L
  pub all_doc_ids : List String
  pub other_doc_ids : Dict (List String)
  pub batch_errors : List StoreError

module _ {L : Type 0} where
  -- `stampBeforeWrite`, and `stampBlockGroup` on the first group
  unfoldable pub stamp_before_write :
      Option (LinkStamper L) → DocumentGroup → L → List Doc × Option LinkError
  stamp_before_write none g links = (g.docs, none)
  stamp_before_write (some stamper) g links = stamper.stamp_before_write g.collection g.docs links

  -- `recordDocIDs`
  unfoldable pub record_doc_ids :
      Option (LinkStamper L) → DocumentGroup → List Doc → List String → L → L × Option LinkError
  record_doc_ids none g docs ids links = (links, none)
  record_doc_ids (some stamper) g docs ids links =
      stamper.record_doc_ids g.collection docs ids links

  fail_batch : StoreError → Progress L → Progress L
  fail_batch e p = record p { batch_errors = p.batch_errors ++ e ∷ [] }

  add_doc_ids : String → List String → Progress L → Progress L
  add_doc_ids collection ids p = record p {
    all_doc_ids = p.all_doc_ids ++ ids;
    other_doc_ids = append_at collection ids p.other_doc_ids;
  }

  unfoldable pub recorded : L × Option LinkError → Progress L → Progress L
  unfolding fail_batch
  recorded (links, none) p = record p { links = links }
  recorded (links, some e) p = fail_batch (link e) (record p { links = links })

module _ {S T C D L : Type 0} (env : Env S T C D) (h : BlockHandler)
    (stamper : Option (LinkStamper L)) where
  after_record :
      L × Option LinkError
      → Progress L
      → World S
      → (Progress L → World S → World S × Progress L)
      → World S × Progress L
  unfolding recorded
  after_record (links, none) p w next = next (recorded (links, none) p) w
  after_record (links, some e) p w next = (w, recorded (links, some e) p)

  after_write :
      DocumentGroup
      → World S × List String × Option StoreError
      → Progress L
      → (Progress L → World S → World S × Progress L)
      → World S × Progress L
  unfolding fail_batch add_doc_ids after_record record_doc_ids
  after_write g (w, ids, some e) p next = (w, fail_batch e (add_doc_ids g.collection ids p))
  after_write g (w, ids, none) p next =
      after_record (record_doc_ids stamper g g.docs ids p.links) (add_doc_ids g.collection ids p) w
        next

  after_stamp :
      DocumentGroup
      → List Doc × Option LinkError
      → Progress L
      → World S
      → (Progress L → World S → World S × Progress L)
      → World S × Progress L
  unfolding fail_batch after_write write_group
  after_stamp g (docs, some e) p w next = (w, fail_batch (link e) p)
  after_stamp g (docs, none) p w next =
      let stamped = record g { docs = docs } in
      after_write stamped (write_group env h stamped w) p next

  -- the loop over the groups behind the first
  unfoldable pub store_groups : List DocumentGroup → Progress L → World S → World S × Progress L
  unfolding after_stamp stamp_before_write
  store_groups [] p w = (w, p)
  store_groups (g ∷ groups) p w =
      after_stamp g (stamp_before_write stamper g p.links) p w (store_groups groups)
