-- ===== src/Queue/File.antt =====
-- `Save` and `LoadFromFile` of the queue, over the contents of the queue's file and of the temporary
-- file beside it. The gob codec and the failures of the file system are parameters.
use shinzo_generator_client.Prelude.{
  ℕ, ◌≡◌, refl, String, List, [], ◌∷◌, Bool, true, false, Option, none, some, Result, ok, err,
  arith, ◌==◌, if◌then◌else◌, length, str_eq, sym, ap, ◌∙◌, if-cases,
}
use shinzo_generator_client.Uuid.{Bytes, doc_id_prefix}
use shinzo_generator_client.Queue.{BlockEntry, IndexerQueue, new_indexer_queue}

-- indexerQueueSnapshot
pub record IndexerQueueSnapshot : Type 0 where
  pub version : ℕ
  pub prefix : Bytes
  pub entries : List BlockEntry

abbrev indexer_queue_gob_version : ℕ
indexer_queue_gob_version = 1

-- encoding/gob, for this one type
pub record Gob : Type 0 where
  pub encode : IndexerQueueSnapshot → Bytes
  pub decode : Bytes → Option IndexerQueueSnapshot

-- the contents of the queue's file and of the temporary file, where they are there
pub record Files : Type 0 where
  pub target : Option Bytes
  pub temp : Option Bytes

-- Which calls of the file system fail during one `Save`, and what an encoder that fails has
-- written until then.
pub record SaveFaults : Type 0 where
  pub remove_fails : Bool
  pub create_fails : Bool
  pub encode_stops : Option Bytes
  pub close_fails : Bool
  pub rename_fails : Bool
  pub temp_remove_fails : Bool

pub data SaveError : Type 0 where
  create_temp_file encode_queue close_temp_file rename_temp_file : SaveError

abbrev pub snapshot_of : IndexerQueue → IndexerQueueSnapshot
snapshot_of q = record {
  version = indexer_queue_gob_version;
  prefix = doc_id_prefix;
  entries = q.entries;
}

-- os.Remove(q.filePath)
remove_target : SaveFaults → Files → Files
remove_target f files = if f.remove_fails then files else record files { target = none }

-- os.Create(tmpPath)
create_temp : Files → Files
create_temp files = record files { temp = some [] }

-- what the encoder writes through the file of tmpPath
write_temp : Bytes → Files → Files
write_temp bytes files = record files { temp = some bytes }

-- os.Remove(tmpPath)
remove_temp : SaveFaults → Files → Files
remove_temp f files = if f.temp_remove_fails then files else record files { temp = none }

-- os.Rename(tmpPath, q.filePath)
rename_temp : Files → Files
rename_temp files = record { target = files.temp; temp = none }

-- the steps behind a snapshot that is written whole
finish_save : SaveFaults → Files → Files × Option SaveError
unfolding remove_temp rename_temp
finish_save f files =
    if f.close_fails
    then (remove_temp f files, some close_temp_file)
    else if f.rename_fails
    then (remove_temp f files, some rename_temp_file)
    else (rename_temp files, none)

-- the steps behind the creation of the temporary file
encode_temp :
    Gob → SaveFaults → Option Bytes → IndexerQueueSnapshot → Files → Files × Option SaveError
unfolding write_temp remove_temp finish_save
encode_temp gob f (some partial) snap files =
    (remove_temp f (write_temp partial files), some encode_queue)
encode_temp gob f none snap files = finish_save f (write_temp (gob.encode snap) files)

-- `Save`: the files afterwards, and the error
pub save : Gob → SaveFaults → IndexerQueue → Files → Files × Option SaveError
unfolding remove_target create_temp encode_temp
save gob f q files =
    if str_eq q.file_path ""
    then (files, none)
    else if length q.entries == 0
    then (remove_target f files, none)
    else if f.create_fails
    then (files, some create_temp_file)
    else encode_temp gob f f.encode_stops (snapshot_of q) (create_temp files)

pub data LoadError : Type 0 where
  open_queue_file : LoadError

-- a decoded snapshot; one that cannot be decoded, or is of another version, is left aside
loaded : String → Option IndexerQueueSnapshot → IndexerQueue → IndexerQueue × Result LoadError ℕ
loaded path none q = (record q { file_path = path }, ok 0)
loaded path (some snap) q =
    if snap.version == indexer_queue_gob_version
    then (record { entries = snap.entries; file_path = path }, ok (length snap.entries))
    else (record q { file_path = path }, ok 0)

-- `LoadFromFile`, of a file that is not there or can be opened unless `open_fails`
unfoldable pub load_from_file :
    Gob → Bool → String → Option Bytes → IndexerQueue → IndexerQueue × Result LoadError ℕ
unfolding loaded
load_from_file gob open_fails path none q = (record q { file_path = path }, ok 0)
load_from_file gob true path (some bytes) q = (record q { file_path = path }, err open_queue_file)
load_from_file gob false path (some bytes) q = loaded path (gob.decode bytes) q

empty_of_length {ℓ} : {A : Type ℓ} (xs : List A) → (length xs == 0) ≡ true → xs ≡ []
empty_of_length [] h = refl
empty_of_length (x ∷ xs) h = absurd (ground arith)

-- What a `Save` of `q` leaves.
pub data Saves (gob : Gob) (f : SaveFaults) (q : IndexerQueue) (files files' : Files)
    : Option SaveError → Type 0 where
  failed : {e : SaveError} → files'.target ≡ files.target → Saves gob f q files files' (some e)
  loads_back :
      load_from_file gob false q.file_path files'.target new_indexer_queue
        ≡ (q, ok (length q.entries))
      → Saves gob f q files files' none
  not_removed :
      q.entries ≡ []
      → f.remove_fails ≡ true
      → files'.target ≡ files.target
      → Saves gob f q files files' none

module _ (gob : Gob) (f : SaveFaults) (q : IndexerQueue) (files : Files) where
  -- the result of a part of the code
  abbrev Done : Files × Option SaveError → Type 0
  Done r = Saves gob f q files r.0 r.1

  remove_temp-target : (fs : Files) → (remove_temp f fs).target ≡ fs.target
  unfolding remove_temp
  remove_temp-target fs =
      if-cases (λ (x : Files). x.target ≡ fs.target) f.temp_remove_fails (λ stays. refl)
        (λ goes. refl)

  loads_empty :
      q.entries ≡ []
      → load_from_file gob false q.file_path none new_indexer_queue ≡ (q, ok (length q.entries))
  unfolding load_from_file new_indexer_queue
  loads_empty e =
      λ i. (record { entries = sym e i; file_path = q.file_path }, ok (length (sym e i)))

  removed-Saves : q.entries ≡ [] → Done (remove_target f files, none)
  unfolding remove_target
  removed-Saves empty =
      if-cases (λ (x : Files). Done (x, none)) f.remove_fails
        (λ stays. not_removed empty stays refl) (λ goes. loads_back (loads_empty empty))

  loaded-back :
      gob.decode (gob.encode (snapshot_of q)) ≡ some (snapshot_of q)
      → load_from_file gob false q.file_path (some (gob.encode (snapshot_of q))) new_indexer_queue
        ≡ (q, ok (length q.entries))
  unfolding load_from_file loaded
  loaded-back codec = ap (λ o. loaded q.file_path o new_indexer_queue) codec

  finish_save-Saves :
      (fs : Files)
      → fs.target ≡ files.target
      → load_from_file gob false q.file_path fs.temp new_indexer_queue ≡ (q, ok (length q.entries))
      → Done (finish_save f fs)
  unfolding finish_save rename_temp
  finish_save-Saves fs same back =
      if-cases Done f.close_fails (λ unclosed. failed (remove_temp-target fs ∙ same))
        (λ closed.
          if-cases Done f.rename_fails (λ unnamed. failed (remove_temp-target fs ∙ same))
            (λ renamed. loads_back back))

  encode_temp-Saves :
      gob.decode (gob.encode (snapshot_of q)) ≡ some (snapshot_of q)
      → (stops : Option Bytes) (fs : Files) → fs.target ≡ files.target
      → Done (encode_temp gob f stops (snapshot_of q) fs)
  unfolding encode_temp write_temp
  encode_temp-Saves codec (some partial) fs same = failed (remove_temp-target _ ∙ same)
  encode_temp-Saves codec none fs same = finish_save-Saves _ same (loaded-back codec)

  -- Given that gob decodes what it encodes of this queue: a `Save` that returns an error, however far
  -- it came, leaves the queue's file as it was. One that returns none, for a queue with a path,
  -- leaves a file from which a new queue loads the same entries at that path, except that the file
  -- of an empty queue stays after a removal that failed.
  pub save-load :
      gob.decode (gob.encode (snapshot_of q)) ≡ some (snapshot_of q)
      → str_eq q.file_path "" ≡ false
      → Saves gob f q files (save gob f q files).0 (save gob f q files).1
  unfolding save create_temp
  save-load codec named = rw named (
      if-cases Done (length q.entries == 0)
        (λ empty. removed-Saves (empty_of_length q.entries empty))
        (λ full.
          if-cases Done f.create_fails (λ uncreated. failed refl)
            (λ created. encode_temp-Saves codec f.encode_stops (create_temp files) refl)))
