-- ===== src/Processor/Dispatch/Paced.antt =====
-- The pace of the dispatcher.
use shinzo_generator_client.Prelude.{
  ℕ, ◌+◌, ◌-◌, ◌*◌, ◌≤◌, ◌<◌, ◌≡◌, arith, List, [], ◌∷◌, Bool, true, false, ◌&&◌, ◌||◌, inl, inr,
  and-true, ltb, leb, ltb-false→le, leb→le, leb-false→lt, if-cases, Bool-cases,
}
use shinzo_generator_client.Processor.Dispatch.{
  Tick, Dispatches, default_workers_ahead, min_interval, send, stop, ready_at, offer, pass,
  dispatch_from, dispatch_loop,
}

module _ (interval limit : ℕ) where
  -- What the passes dispatch from the height `next`, when the last dispatch was at `last`: each
  -- pass sends the next height, or it is throttled, or it finds that the context is done.
  pub data Paces : List Tick → (last next : ℕ) → Dispatches → Type 0 where
    running : {last next : ℕ} → Paces [] last next (record { sent = []; stopped = false })
    cancelled :
        {t : Tick} {ticks : List Tick} {last next : ℕ}
        → (t.done_in_wait || t.done_in_throttle || t.done_in_send) ≡ true
        → Paces (t ∷ ticks) last next stop
    throttled :
        {t : Tick} {ticks : List Tick} {last next : ℕ} {d : Dispatches}
        → t.next_to_commit + limit ≤ next
        → Paces ticks last next d
        → Paces (t ∷ ticks) last next d
    sends :
        {t : Tick} {ticks : List Tick} {last next sent_at : ℕ} {d : Dispatches}
        → next < t.next_to_commit + limit
        → last + interval ≤ sent_at
        → Paces ticks sent_at (next + 1) d
        → Paces (t ∷ ticks) last next (send next sent_at d)

  ready_at-late :
      (t : Tick) (checked last : ℕ)
      → last ≤ checked
      → (last + interval ≤ ready_at interval limit t checked last)
        × (last ≤ ready_at interval limit t checked last)
  unfolding ready_at
  ready_at-late t checked last le = elim (Bool-cases (ltb (checked - last) interval)) [
    | inl early ↦ rw early (omega arith, omega arith)
    | inr late ↦ rw late (omega (arith, ltb-false→le _ _ late), le)
  ]

  -- the rest of the loop keeps the pace from any clock that is not behind the last dispatch
  RestPaces : List Tick → (ℕ → ℕ → ℕ → Dispatches) → Type 0
  RestPaces ticks rest =
      (clock last next : ℕ) → last ≤ clock → Paces ticks last next (rest clock last next)

  done_first : (a b c : Bool) → a ≡ true → (a || b || c) ≡ true
  done_first a b c done = ground arith

  done_second : (a b c : Bool) → b ≡ true → (a || b || c) ≡ true
  done_second a b c done = ground arith

  done_third : (a b c : Bool) → c ≡ true → (a || b || c) ≡ true
  done_third a b c done = ground arith

  offer-Paces :
      (t : Tick) (ticks : List Tick) (ready last next : ℕ) (rest : ℕ → ℕ → ℕ → Dispatches)
      → last + interval ≤ ready
      → last ≤ ready
      → RestPaces ticks rest
      → Paces (t ∷ ticks) last next (offer interval limit t ready last next rest)
  unfolding offer RestPaces
  offer-Paces t ticks ready last next rest apart after paces =
      if-cases (Paces (t ∷ ticks) last next) (leb (t.next_to_commit + limit) next)
        (λ ahead.
          if-cases (Paces (t ∷ ticks) last next) t.done_in_throttle
            (λ done. cancelled (done_second t.done_in_wait t.done_in_throttle t.done_in_send done))
            (λ alive. throttled (leb→le _ _ ahead) (paces _ last next (omega arith))))
        (λ near.
          if-cases (Paces (t ∷ ticks) last next) t.done_in_send
            (λ done. cancelled (done_third t.done_in_wait t.done_in_throttle t.done_in_send done))
            (λ alive.
              sends (leb-false→lt _ _ near) (omega arith)
                (paces (ready + t.lag) (ready + t.lag) (next + 1) (omega arith))))

  pass-Paces :
      (t : Tick) (ticks : List Tick) (clock last next : ℕ) (rest : ℕ → ℕ → ℕ → Dispatches)
      → last ≤ clock
      → RestPaces ticks rest
      → Paces (t ∷ ticks) last next (pass interval limit t clock last next rest)
  unfolding pass
  pass-Paces t ticks clock last next rest after paces =
      let checked = clock + t.before in
      let late = ready_at-late t checked last (omega arith) in
      if-cases (Paces (t ∷ ticks) last next) (ltb (checked - last) interval && t.done_in_wait)
        (λ done. cancelled (
          done_first t.done_in_wait t.done_in_throttle t.done_in_send
            (and-true (ltb (checked - last) interval) t.done_in_wait done).1))
        (λ on.
          offer-Paces t ticks (ready_at interval limit t checked last) last next rest late.0 late.1
            paces)

  dispatch_from-Paces : (ticks : List Tick) → RestPaces ticks (dispatch_from interval limit ticks)
  unfolding RestPaces dispatch_from
  dispatch_from-Paces [] clock last next after = running
  dispatch_from-Paces (t ∷ ticks) clock last next after =
      pass-Paces t ticks clock last next (dispatch_from interval limit ticks) after
        (dispatch_from-Paces ticks)

-- The dispatcher, over any passes: it starts at the start block and takes the heights one by one;
-- each pass that neither finds the context done sends its height only below the checked frontier
-- of that moment plus twice the number of workers, and no sooner than one interval of the rate
-- limit after the dispatch before it, or else it is throttled because its height is not below it.
pub dispatch_loop-Paces :
    (blocks_per_minute workers start_block : ℕ) (ticks : List Tick)
    → Paces
        (min_interval blocks_per_minute)
        (workers * default_workers_ahead)
        ticks
        0
        start_block
        (dispatch_loop blocks_per_minute workers start_block ticks)
unfolding dispatch_loop
dispatch_loop-Paces blocks_per_minute workers start_block ticks =
    unfold RestPaces in
    (dispatch_from-Paces (min_interval blocks_per_minute) (workers * default_workers_ahead) ticks
      (min_interval blocks_per_minute) 0 start_block (omega arith))
