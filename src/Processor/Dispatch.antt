-- ===== src/Processor/Dispatch.antt =====
-- `dispatchLoop`: the heights that the workers are given, at the pace of the checked frontier and
-- of the rate limit. Durations and the clock are in nanoseconds, and the clock starts one interval
-- after 0, so that the first dispatch need not wait. A timer fires no earlier than it was set for.
pub mod Paced
use shinzo_generator_client.Prelude.{
  ℕ, ◌+◌, ◌-◌, ◌*◌, ◌/◌, List, [], ◌∷◌, Bool, true, false, ◌&&◌, ltb, leb, if◌then◌else◌,
}

abbrev pub default_workers_ahead : ℕ
default_workers_ahead = 2

abbrev pub dispatch_throttle_delay : ℕ
dispatch_throttle_delay = 100000000

-- One pass of the loop: the time before it looks at the clock, the lateness of its timer, the time
-- until its last select is over, `nextToCommit` when it reads it, and in which select it finds that
-- the context is done.
pub record Tick : Type 0 where
  pub before : ℕ
  pub late : ℕ
  pub lag : ℕ
  pub next_to_commit : ℕ
  pub done_in_wait : Bool
  pub done_in_throttle : Bool
  pub done_in_send : Bool

-- a height and when it was sent
pub record Dispatched : Type 0 where
  pub height : ℕ
  pub sent_at : ℕ

pub record Dispatches : Type 0 where
  pub sent : List Dispatched
  pub stopped : Bool

-- `minInterval`, where 0 blocks per minute is no limit
unfoldable pub min_interval : ℕ → ℕ
min_interval blocks_per_minute =
    if ltb 0 blocks_per_minute then 60000000000 / blocks_per_minute else 0

unfoldable pub send : ℕ → ℕ → Dispatches → Dispatches
send height sent_at d = record {
  sent = record { height = height; sent_at = sent_at } ∷ d.sent;
  stopped = d.stopped;
}

unfoldable pub stop : Dispatches
stop = record { sent = []; stopped = true }

module _ (interval limit : ℕ) where
  -- when the rate limit lets a pass go on that looks at the clock at `checked`
  unfoldable pub ready_at : Tick → ℕ → ℕ → ℕ
  ready_at t checked last_dispatch =
      if ltb (checked - last_dispatch) interval
      then checked + (interval - (checked - last_dispatch)) + t.late
      else checked

  -- the two selects behind the rate limit; `next` is the rest of the loop from a clock, the time of
  -- the last dispatch and the next height
  unfoldable pub offer : Tick → ℕ → ℕ → ℕ → (ℕ → ℕ → ℕ → Dispatches) → Dispatches
  unfolding send stop
  offer t ready last_dispatch next_block next =
      if leb (t.next_to_commit + limit) next_block
      then if t.done_in_throttle
        then stop
        else next (ready + dispatch_throttle_delay + t.lag) last_dispatch next_block
      else if t.done_in_send
      then stop
      else send next_block (ready + t.lag) (next (ready + t.lag) (ready + t.lag) (next_block + 1))

  unfoldable pub pass : Tick → ℕ → ℕ → ℕ → (ℕ → ℕ → ℕ → Dispatches) → Dispatches
  unfolding ready_at offer stop
  pass t clock last_dispatch next_block next =
      let checked = clock + t.before in
      if ltb (checked - last_dispatch) interval && t.done_in_wait
      then stop
      else offer t (ready_at t checked last_dispatch) last_dispatch next_block next

  unfoldable pub dispatch_from : List Tick → ℕ → ℕ → ℕ → Dispatches
  unfolding pass
  dispatch_from [] clock last_dispatch next_block = record { sent = []; stopped = false }
  dispatch_from (t ∷ ticks) clock last_dispatch next_block =
      pass t clock last_dispatch next_block (dispatch_from ticks)

-- `dispatchLoop`, over its passes so far
unfoldable pub dispatch_loop : ℕ → ℕ → ℕ → List Tick → Dispatches
unfolding dispatch_from min_interval
dispatch_loop blocks_per_minute workers start_block ticks =
    let interval = min_interval blocks_per_minute in
    dispatch_from interval (workers * default_workers_ahead) ticks interval 0 start_block
