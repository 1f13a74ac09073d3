-- ===== src/Processor/WalkBack.antt =====
-- `resolveForkPoint`: the descent by parent hashes from a conflict to the common ancestor.
pub mod Descent
use shinzo_generator_client.Prelude.{
  ℕ, zero, suc, String, List, [], ◌∷◌, Bool, ◌&&◌, not, Result, ok, err, ◌>>=◌, ltb, leb, str_eq,
  if◌then◌else◌,
}
use shinzo_generator_client.Processor.Types.{QueryError, FetchError, Hashes, RollbackPoint}

pub data WalkError : Type 0 where
  past_genesis : WalkError
  unknown_conflict_hash : WalkError
  stored_hash_query : ℕ → QueryError → WalkError
  depth_cap_exceeded : WalkError
  header_fetch : FetchError → WalkError
  no_parent_hash : String → WalkError

abbrev pub max_walk_back_depth : ℕ
max_walk_back_depth = 64

at_height : ℕ → Result QueryError String → Result WalkError String
at_height cur (ok s) = ok s
at_height cur (err e) = err (stored_hash_query cur e)

of_fetch : Result FetchError String → Result WalkError String
of_fetch (ok s) = ok s
of_fetch (err e) = err (header_fetch e)

-- What the descent reads: the parent hash in the header of a block, by the block's hash; the stored
-- hash of a height; whether the node reported a finalized height; the configured start.
pub record WalkEnv : Type 0 where
  pub parent_of : String → Result FetchError String
  pub stored_hash : ℕ → Result QueryError String
  pub finalized_known : Bool
  pub configured_start : ℕ

-- the two returns of the loop's body: a common ancestor, or nothing stored below the start
unfoldable pub stops : WalkEnv → ℕ → String → String → Bool
stops env cur cur_hash stored =
    if not (str_eq stored "") then str_eq stored cur_hash else ltb cur env.configured_start

-- one round at `cur`; `next` is the round below it
walk_round :
    WalkEnv
    → ℕ
    → String
    → ℕ
    → Hashes
    → (String → Result WalkError RollbackPoint)
    → Result WalkError RollbackPoint
unfolding stops at_height of_fetch
walk_round env cur cur_hash depth chain_hashes next = do
  stored ← at_height cur (env.stored_hash cur)
  if stops env cur cur_hash stored
      then ok (record { fork_point = cur; chain_hashes = chain_hashes })
      else if not env.finalized_known && leb max_walk_back_depth depth
      then err depth_cap_exceeded
      else do
        parent ← of_fetch (env.parent_of cur_hash)
        if str_eq parent "" then err (no_parent_hash cur_hash) else next parent

pub walk : WalkEnv → ℕ → String → ℕ → Hashes → Result WalkError RollbackPoint
unfolding walk_round
walk env zero cur_hash depth seen =
    walk_round env zero cur_hash depth ((zero, cur_hash) ∷ seen) (λ _. err past_genesis)
walk env (suc cur) cur_hash depth seen =
    walk_round env (suc cur) cur_hash depth ((suc cur, cur_hash) ∷ seen)
      (λ parent. walk env cur parent (suc depth) ((suc cur, cur_hash) ∷ seen))

-- The first argument is the start height plus one, so that the height -1 is 0.
unfoldable pub resolve_fork_point : WalkEnv → ℕ → String → Result WalkError RollbackPoint
unfolding walk
resolve_fork_point env zero start_chain_hash = err past_genesis
resolve_fork_point env (suc start) start_chain_hash =
    if str_eq start_chain_hash ""
    then err unknown_conflict_hash
    else walk env start start_chain_hash 0 []
