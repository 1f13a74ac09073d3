-- ===== src/Processor/Rollbacks.antt =====
-- The outer loop of `ProcessBlocks`: a run, then a rollback above the fork point and a restart,
-- under the two rollback guards; and `resolveSeed`.
pub mod Storm
use shinzo_generator_client.Prelude.{
  ℕ, zero, suc, ◌+◌, String, List, [], ◌∷◌, Bool, ◌||◌, not, Option, none, some, Result, ok, err,
  ◌>>=◌, ltb, str_eq, if◌then◌else◌,
}
use shinzo_generator_client.Prelude.Heights.{Heights, find, store}
use shinzo_generator_client.Processor.Types.{QueryError, Hashes, RollbackPoint, hash_at}
use shinzo_generator_client.Processor.Run.{Run, FatalError, start_run}
use shinzo_generator_client.Processor.Collector.{Event, collect_events}

abbrev pub max_rollbacks_per_run : ℕ
max_rollbacks_per_run = 64

abbrev pub max_rollbacks_per_height : ℕ
max_rollbacks_per_height = 3

pub data IndexError : Type 0 where
  run_failed : FatalError → IndexError
  run_cancelled : IndexError
  rollbacks_exceeded : ℕ → IndexError
  height_rollbacks_exceeded : ℕ → ℕ → IndexError
  no_rollback_handler : ℕ → IndexError
  rollback_failed : ℕ → ℕ → IndexError
  seed_query_failed : ℕ → QueryError → IndexError

-- the arguments of `RollbackBlocks`
pub record RollbackCall : Type 0 where
  pub first : ℕ
  pub last : ℕ
  pub chain_hashes : Hashes

-- What one run and the rollback after it meet: the collector's events, the highest height that was
-- sent to the workers, whether the rollback succeeds, and the stored hashes after it.
pub record RoundEnv : Type 0 where
  pub events : List Event
  pub dispatched_up_to : ℕ
  pub rollback_succeeds : Bool
  pub stored_hash : ℕ → Result QueryError String

-- The loop's variables, with the counters of the guards, the committed hashes of the last run, and
-- the rollbacks that succeeded, the latest first.
pub record Loop : Type 0 where
  pub start : ℕ
  pub seed : String
  pub episode_rollbacks : ℕ
  pub height_rollbacks : Heights ℕ
  pub rolled_back : List RollbackCall

text_or_empty : Option String → String
text_or_empty none = ""
text_or_empty (some s) = s

seed_reply : ℕ → Result QueryError String → Result IndexError String
seed_reply height (ok s) = ok s
seed_reply height (err e) = err (seed_query_failed height e)

-- `resolveSeed`
unfoldable pub resolve_seed :
    Bool → (ℕ → Result QueryError String) → Hashes → ℕ → Result IndexError String
unfolding text_or_empty seed_reply hash_at
resolve_seed has_handler stored_hash committed_hashes zero = ok ""
resolve_seed has_handler stored_hash committed_hashes (suc below) =
    let seed = text_or_empty (hash_at below committed_hashes) in
    if not (str_eq seed "") || not has_handler
    then ok seed
    else seed_reply below (stored_hash below)

unfoldable pub count : Option ℕ → ℕ
count none = 0
count (some n) = n

-- the loop's variables after a rollback that succeeded
unfoldable pub restarted : RoundEnv → RollbackPoint → ℕ → Run → Loop → String → Loop
restarted env rb height_count r l seed = record {
  start = rb.fork_point + 1;
  seed = seed;
  episode_rollbacks = r.episode_rollbacks + 1;
  height_rollbacks = store (rb.fork_point + 1) height_count r.height_rollbacks;
  rolled_back =
      record {
        first = rb.fork_point + 1;
        last = env.dispatched_up_to;
        chain_hashes = rb.chain_hashes;
      }
      ∷ l.rolled_back;
}

-- the body of the loop once the run resolved a rollback point
unfoldable pub roll_back : Bool → RoundEnv → RollbackPoint → Run → Loop → Result IndexError Loop
unfolding count resolve_seed restarted
roll_back has_handler env rb r l =
    let restart = rb.fork_point + 1 in
    let rollbacks = r.episode_rollbacks + 1 in
    let height_count = count (find restart r.height_rollbacks) + 1 in
    if ltb max_rollbacks_per_run rollbacks
    then err (rollbacks_exceeded rollbacks)
    else if ltb max_rollbacks_per_height height_count
    then err (height_rollbacks_exceeded restart height_count)
    else if not has_handler
    then err (no_rollback_handler restart)
    else if not env.rollback_succeeds
    then err (rollback_failed restart env.dispatched_up_to)
    else do
      seed ← resolve_seed has_handler env.stored_hash r.committed_hashes restart
      ok (restarted env rb height_count r l seed)

-- after a run: its fatal error, the end of a cancelled run, or the rollback
unfoldable pub after_run :
    Bool → RoundEnv → Option FatalError → Option RollbackPoint → Run → Loop → Result IndexError Loop
unfolding roll_back
after_run has_handler env (some f) rb r l = err (run_failed f)
after_run has_handler env none none r l = err run_cancelled
after_run has_handler env none (some rb) r l = roll_back has_handler env rb r l

-- `processBlocksOnce`
unfoldable pub process_blocks_once : RoundEnv → Loop → Run
unfolding start_run collect_events
process_blocks_once env l =
    collect_events env.events (start_run l.start l.seed l.episode_rollbacks l.height_rollbacks)

unfoldable pub loop_round : Bool → RoundEnv → Loop → Result IndexError Loop
unfolding after_run process_blocks_once
loop_round has_handler env l =
    let r = process_blocks_once env l in after_run has_handler env r.fatal_err r.rollback_point r l

-- the loop, over its rounds so far; `ok` is a loop that is about to start another run
unfoldable pub loop_rounds : Bool → List RoundEnv → Loop → Result IndexError Loop
unfolding loop_round
loop_rounds has_handler [] l = ok l
loop_rounds has_handler (env ∷ rounds) l =
    loop_round has_handler env l >>= λ l'. loop_rounds has_handler rounds l'

-- `ProcessBlocks`, given the stored hashes and the hashes that an earlier call committed
unfoldable pub process_blocks :
    Bool → (ℕ → Result QueryError String) → Hashes → List RoundEnv → ℕ → Result IndexError Loop
unfolding loop_rounds resolve_seed
process_blocks has_handler stored_hash committed_hashes rounds start_block = do
  seed ← resolve_seed has_handler stored_hash committed_hashes start_block
  loop_rounds has_handler rounds (record {
    start = start_block;
    seed = seed;
    episode_rollbacks = 0;
    height_rollbacks = [];
    rolled_back = [];
  })
