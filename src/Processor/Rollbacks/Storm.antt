-- ===== src/Processor/Rollbacks/Storm.antt =====
-- A storm of rollbacks with no block committed between them.
use shinzo_generator_client.Prelude.{
  ◌==◌, sym, ◌∙◌, if◌then◌else◌, ℕ, ◌+◌, ◌≤◌, ◌≡◌, refl, List, [], ◌∷◌, Bool, not, Option, none,
  some, ok, Bool-cases, inl, inr, arith, ltb, ltb-false→le, >>=-eq-ok, length, ap, false, err-ne-ok,
  ok-injective, ==_iff, subst,
}
use shinzo_generator_client.Prelude.Heights.{Heights, find, store, find-remove_ne, remove}
use shinzo_generator_client.Processor.Types.{RollbackPoint}
use shinzo_generator_client.Processor.Run.{Run, FatalError}
use shinzo_generator_client.Processor.Collector.Counter.{collect_events_idle}
use shinzo_generator_client.Processor.Rollbacks.{
  RollbackCall, RoundEnv, Loop, roll_back, after_run, process_blocks_once, loop_round, loop_rounds,
  resolve_seed, restarted, count, IndexError, max_rollbacks_per_run, max_rollbacks_per_height,
}

-- What a rollback that the guards let through leaves behind.
record IsRestart (l : Loop) (r : Run) (l' : Loop) : Type 0 where
  pub counted : l'.episode_rollbacks ≡ r.episode_rollbacks + 1
  pub within_run : l'.episode_rollbacks ≤ max_rollbacks_per_run
  pub within_height : count (find l'.start l'.height_rollbacks) ≤ max_rollbacks_per_height
  pub tallied :
      l'.height_rollbacks
      ≡ store l'.start (count (find l'.start r.height_rollbacks) + 1) r.height_rollbacks
  pub call : RollbackCall
  pub from_start : call.first ≡ l'.start
  pub logged : l'.rolled_back ≡ call ∷ l.rolled_back
  pub above_fork :
      (rb : RollbackPoint) × (r.rollback_point ≡ some rb) × (l'.start ≡ rb.fork_point + 1)

store-count :
    (k n : ℕ) (m : Heights ℕ)
    → n ≤ max_rollbacks_per_height
    → count (find k (store k n m)) ≤ max_rollbacks_per_height
unfolding find count
store-count k n m le = rw ((==_iff k k).1 refl) le

roll_back-IsRestart :
    (has_handler : Bool) (env : RoundEnv) (rb : RollbackPoint) (r : Run) (l l' : Loop)
    → r.rollback_point ≡ some rb
    → roll_back has_handler env rb r l ≡ ok l'
    → IsRestart l r l'
unfolding roll_back count restarted
roll_back-IsRestart has_handler env rb r l l' point e =
    let restart = rb.fork_point + 1 in
    let rollbacks = r.episode_rollbacks + 1 in
    let height_count = count (find restart r.height_rollbacks) + 1 in
    elim (Bool-cases (ltb max_rollbacks_per_run rollbacks)) [
      | inl over ↦ absurd (err-ne-ok (rw over at e))
      | inr within ↦ elim (Bool-cases (ltb max_rollbacks_per_height height_count)) [
        | inl over ↦ absurd (err-ne-ok (rw (within, over) at e))
        | inr few ↦ elim (Bool-cases (not has_handler)) [
          | inl bare ↦ absurd (err-ne-ok (rw (within, few, bare) at e))
          | inr handled ↦ elim (Bool-cases (not env.rollback_succeeds)) [
            | inl fails ↦ absurd (err-ne-ok (rw (within, few, handled, fails) at e))
            | inr fine ↦
                let found =
                  >>=-eq-ok {E = IndexError}
                    (resolve_seed has_handler env.stored_hash r.committed_hashes restart)
                    (λ seed. ok (restarted env rb height_count r l seed))
                    (rw (within, few, handled, fine) at e) in
                subst (IsRestart l r) (ok-injective found.2) (record {
                  counted = refl;
                  within_run = ltb-false→le max_rollbacks_per_run rollbacks within;
                  within_height =
                      store-count restart height_count r.height_rollbacks
                        (ltb-false→le max_rollbacks_per_height height_count few);
                  tallied = refl;
                  call = _;
                  from_start = refl;
                  logged = refl;
                  above_fork = (rb, point, refl);
                })
          ]
        ]
      ]
    ]

loop_round-IsRestart :
    (has_handler : Bool) (env : RoundEnv) (l l' : Loop)
    → loop_round has_handler env l ≡ ok l'
    → IsRestart l (process_blocks_once env l) l'
unfolding loop_round after_run
loop_round-IsRestart has_handler env l l' e =
    let r = process_blocks_once env l in split r.fatal_err r.rollback_point refl e
  where
    split :
        (f : Option FatalError) (p : Option RollbackPoint)
        → (process_blocks_once env l).rollback_point ≡ p
        → after_run has_handler env f p (process_blocks_once env l) l ≡ ok l'
        → IsRestart l (process_blocks_once env l) l'
    split (some f) p point e = absurd (err-ne-ok e)
    split none none point e = absurd (err-ne-ok e)
    split none (some rb) point e =
        roll_back-IsRestart has_handler env rb (process_blocks_once env l) l l' point e

-- no run of these rounds makes a callback: nothing is committed
unfoldable pub IsBarren : Bool → List RoundEnv → Loop → Type 0
IsBarren has_handler [] l = Unit
IsBarren has_handler (env ∷ rounds) l =
    ((process_blocks_once env l).processed ≡ [])
    × ((l' : Loop) → loop_round has_handler env l ≡ ok l' → IsBarren has_handler rounds l')

-- While the runs commit no block, the loop restarts at most 64 times: when it is about to start
-- another run after rounds without a callback, their number and the rollbacks counted before them
-- are together within the limit of the guard.
pub loop_rounds_bounded :
    (has_handler : Bool) (rounds : List RoundEnv) (l l' : Loop)
    → l.episode_rollbacks ≤ max_rollbacks_per_run
    → IsBarren has_handler rounds l
    → loop_rounds has_handler rounds l ≡ ok l'
    → length rounds + l.episode_rollbacks ≤ max_rollbacks_per_run
unfolding loop_rounds IsBarren process_blocks_once
loop_rounds_bounded has_handler [] l l' le barren e = omega arith
loop_rounds_bounded has_handler (env ∷ rounds) l l' le barren e =
    let (l1, first, rest) = >>=-eq-ok (loop_round has_handler env l) _ e in
    let restart = loop_round-IsRestart has_handler env l l1 first in
    let idle =
      collect_events_idle env.events l.start l.seed l.episode_rollbacks l.height_rollbacks
        barren.0 in
    let more =
      loop_rounds_bounded has_handler rounds l1 l' restart.within_run (barren.1 l1 first) rest in
    omega (arith, restart.counted, idle.0)

-- the rollbacks from this height on
unfoldable pub rollbacks_to : ℕ → List RollbackCall → ℕ
rollbacks_to height [] = 0
rollbacks_to height (c ∷ calls) =
    if c.first == height then rollbacks_to height calls + 1 else rollbacks_to height calls

-- the loop's counters are those of the rollbacks that it logged, none above the limit of a height
unfoldable pub Tallies : Loop → Type 0
Tallies l =
    (height : ℕ)
    → (rollbacks_to height l.rolled_back ≡ count (find height l.height_rollbacks))
      × (count (find height l.height_rollbacks) ≤ max_rollbacks_per_height)

-- the tally of one height
abbrev TalliesAt : ℕ → List RollbackCall → Heights ℕ → Type 0
TalliesAt height calls m =
    (rollbacks_to height calls ≡ count (find height m))
    × (count (find height m) ≤ max_rollbacks_per_height)

count_here : (k n : ℕ) (m : Heights ℕ) → count (find k (store k n m)) ≡ n
unfolding find count
count_here k n m = rw ((==_iff k k).1 refl) refl

find_there : (k j n : ℕ) (m : Heights ℕ) → (k == j) ≡ false → find j (store k n m) ≡ find j m
unfolding find
find_there k j n m other =
    subst (λ o. o ≡ find j m) (sym beside) (find-remove_ne k j m (λ e. true-ne-false k j e other))
  where
    true-ne-false : (a b : ℕ) → a ≡ b → (a == b) ≡ false → ⊥
    true-ne-false a b same test = ground (arith, same, test)

    beside : find j (store k n m) ≡ find j (remove k m)
    beside = rw other refl

-- a height that is counted once more in the map, as in the log
counted_once_more :
    (start height : ℕ) (m : Heights ℕ) (calls : List RollbackCall) (c : RollbackCall)
    → c.first ≡ start
    → count (find start (store start (count (find start m) + 1) m)) ≤ max_rollbacks_per_height
    → TalliesAt height calls m
    → TalliesAt height (c ∷ calls) (store start (count (find start m) + 1) m)
unfolding rollbacks_to
counted_once_more start height m calls c first within before = elim (Bool-cases (start == height)) [
  | inl same ↦
      subst
        (λ k.
          TalliesAt k calls m → TalliesAt k (c ∷ calls) (store start (count (find start m) + 1) m))
        ((==_iff start height).0 same)
        (λ at_start. (
          rw ((==_iff c.first start).1 first)
              (omega (arith, at_start.0, count_here start (count (find start m) + 1) m)),
          within,
        ))
        before
  | inr other ↦
      let there = ap count (find_there start height (count (find start m) + 1) m other) in
      let apart : (c.first == height) ≡ false = ap (λ k. k == height) first ∙ other in
      (rw apart (omega (arith, there, before.0)), omega (arith, there, before.1))
]

restart-Tallies :
    (l l' : Loop) (r : Run)
    → r.height_rollbacks ≡ l.height_rollbacks
    → IsRestart l r l'
    → Tallies l
    → Tallies l'
unfolding Tallies
restart-Tallies l l' r kept restart tallies height =
    let start = l'.start in
    let grown = restart.tallied ∙ ap (λ m. store start (count (find start m) + 1) m) kept in
    let within =
      subst (λ m. count (find start m) ≤ max_rollbacks_per_height) grown restart.within_height in
    subst (λ calls. TalliesAt height calls l'.height_rollbacks) (sym restart.logged)
      (subst (λ m. TalliesAt height (restart.call ∷ l.rolled_back) m) (sym grown)
        (counted_once_more start height l.height_rollbacks l.rolled_back restart.call
          restart.from_start within (tallies height)))

-- While the runs commit no block, the loop restarts at most three times from any one height: when it
-- is about to start another run after rounds without a callback, every round has logged one
-- rollback, and of these no more than three were from the same height, if that held before.
pub loop_rounds-Tallies :
    (has_handler : Bool) (rounds : List RoundEnv) (l l' : Loop)
    → Tallies l
    → IsBarren has_handler rounds l
    → loop_rounds has_handler rounds l ≡ ok l'
    → Tallies l' × (length l'.rolled_back ≡ length rounds + length l.rolled_back)
unfolding loop_rounds IsBarren process_blocks_once
loop_rounds-Tallies has_handler [] l l' tallies barren e =
    let same = ap (λ (x : Loop). length x.rolled_back) (ok-injective e) in
    (subst Tallies (ok-injective e) tallies, omega (arith, same))
loop_rounds-Tallies has_handler (env ∷ rounds) l l' tallies barren e =
    let (l1, first, rest) = >>=-eq-ok (loop_round has_handler env l) _ e in
    let restart = loop_round-IsRestart has_handler env l l1 first in
    let idle =
      collect_events_idle env.events l.start l.seed l.episode_rollbacks l.height_rollbacks
        barren.0 in
    let more =
      loop_rounds-Tallies has_handler rounds l1 l'
        (restart-Tallies l l1 (process_blocks_once env l) idle.1 restart tallies)
        (barren.1 l1 first) rest in
    (more.0, omega (arith, more.1, ap (λ (calls : List RollbackCall). length calls) restart.logged))
