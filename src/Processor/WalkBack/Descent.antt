-- ===== src/Processor/WalkBack/Descent.antt =====
-- What a fork point that `resolveForkPoint` returns has been checked for.
use shinzo_generator_client.Prelude.{
  ℕ, zero, suc, ◌+◌, ◌≤◌, ◌<◌, ◌≡◌, ◌≢◌, sym, ap, subst, ℕ_discrete, ◌∙◌, String, [], ◌∷◌, true,
  false, not, ◌&&◌, ◌⊎◌, inl, inr, some, Result, ok, err, ok-injective, err-ne-ok, >>=-eq-ok,
  Bool-cases, arith, leb, str_eq, eq_of_test, ne_of_test,
}
use shinzo_generator_client.Processor.Types.{QueryError, Hashes, RollbackPoint, hash_at}
use shinzo_generator_client.Processor.WalkBack.{
  WalkError, WalkEnv, max_walk_back_depth, at_height, of_fetch, stops, walk_round, walk,
  resolve_fork_point,
}

fork_of : RollbackPoint → ℕ
fork_of r = r.fork_point

hashes_of : RollbackPoint → Hashes
hashes_of r = r.chain_hashes

module _ (env : WalkEnv) where
  -- the stored block is the chain's, or there is none and none can be lower
  pub data IsAncestor (n : ℕ) (h : String) : Type 0 where
    same_block : h ≢ "" → env.stored_hash n ≡ ok h → IsAncestor n h
    below_start : env.stored_hash n ≡ ok "" → n < env.configured_start → IsAncestor n h

  -- the stored block is another one, or there is a hole at or above the start
  pub data IsSuspect (n : ℕ) (h : String) : Type 0 where
    orphan : (s : String) → env.stored_hash n ≡ ok s → s ≢ "" → s ≢ h → IsSuspect n h
    hole : env.stored_hash n ≡ ok "" → env.configured_start ≤ n → IsSuspect n h

  -- From the hash `h` at height `n`, and with the hashes `seen` above it, the descent ends in `r`.
  pub data Descends : ℕ → String → Hashes → RollbackPoint → Type 0 where
    ends :
        {n : ℕ} {h : String} {seen : Hashes} {r : RollbackPoint}
        → IsAncestor n h
        → r.fork_point ≡ n
        → r.chain_hashes ≡ (n, h) ∷ seen
        → Descends n h seen r
    goes_down :
        {n : ℕ} {h parent : String} {seen : Hashes} {r : RollbackPoint}
        → IsSuspect (suc n) h
        → env.parent_of h ≡ ok parent
        → parent ≢ ""
        → Descends n parent ((suc n, h) ∷ seen) r
        → Descends (suc n) h seen r

  at_height-ok :
      (n : ℕ) (q : Result QueryError String) (s : String) → at_height n q ≡ ok s → q ≡ ok s
  unfolding at_height
  at_height-ok n (ok t) s h = cc
  at_height-ok n (err e) s h = cc

  of_fetch-ok : (q : Result _ String) (s : String) → of_fetch q ≡ ok s → q ≡ ok s
  unfolding of_fetch
  of_fetch-ok (ok t) s h = cc
  of_fetch-ok (err e) s h = cc

  stops-IsAncestor :
      (n : ℕ) (h s : String) → env.stored_hash n ≡ ok s → stops env n h s ≡ true → IsAncestor n h
  unfolding stops
  stops-IsAncestor n h s q t = elim (Bool-cases (str_eq s "")) [
    | inl none_stored ↦ below_start (q ∙ ap ok (eq_of_test s "" none_stored)) (ground arith)
    | inr some_stored ↦
        let same : s ≡ h = eq_of_test s h (rw some_stored at t) in
        same_block (λ e. ne_of_test s "" some_stored (same ∙ e)) (q ∙ ap ok same)
  ]

  not-stops-IsSuspect :
      (n : ℕ) (h s : String) → env.stored_hash n ≡ ok s → stops env n h s ≡ false → IsSuspect n h
  unfolding stops
  not-stops-IsSuspect n h s q t = elim (Bool-cases (str_eq s "")) [
    | inl none_stored ↦ hole (q ∙ ap ok (eq_of_test s "" none_stored)) (ground arith)
    | inr some_stored ↦
        orphan s q (ne_of_test s "" some_stored) (ne_of_test s h (rw some_stored at t))
  ]

  -- how one round can lead to a result
  data Round (n : ℕ) (h : String) (depth : ℕ) (seen : Hashes)
      (next : String → Result WalkError RollbackPoint) (r : RollbackPoint) : Type 0 where
    stopped :
        IsAncestor n h → r.fork_point ≡ n → r.chain_hashes ≡ seen → Round n h depth seen next r
    went_on :
        (parent : String)
        → IsSuspect n h
        → (env.finalized_known ≡ true) ⊎ (depth < max_walk_back_depth)
        → env.parent_of h ≡ ok parent
        → parent ≢ ""
        → next parent ≡ ok r
        → Round n h depth seen next r

  walk_round-Round :
      (n : ℕ) (h : String) (depth : ℕ) (seen : Hashes)
      (next : String → Result WalkError RollbackPoint) (r : RollbackPoint)
      → walk_round env n h depth seen next ≡ ok r
      → Round n h depth seen next r
  unfolding walk_round fork_of hashes_of
  walk_round-Round n h depth seen next r e =
      let (s, query, body) = >>=-eq-ok (at_height n (env.stored_hash n)) _ e in
      let stored = at_height-ok n (env.stored_hash n) s query in
      elim (Bool-cases (stops env n h s)) [
        | inl halt ↦
            let done = ok-injective (rw halt at body) in
            stopped (stops-IsAncestor n h s stored halt) (ap fork_of (sym done))
              (ap hashes_of (sym done))
        | inr on ↦ elim (Bool-cases (not env.finalized_known && leb max_walk_back_depth depth)) [
          | inl capped ↦ absurd (err-ne-ok (rw (on, capped) at body))
          | inr free ↦
              let (parent, fetched, last) =
                >>=-eq-ok (of_fetch (env.parent_of h)) _ (rw (on, free) at body) in
              elim (Bool-cases (str_eq parent "")) [
                | inl empty ↦ absurd (err-ne-ok (rw empty at last))
                | inr known ↦
                    went_on parent (not-stops-IsSuspect n h s stored on) (ground arith)
                      (of_fetch-ok (env.parent_of h) parent fetched) (ne_of_test parent "" known)
                      (rw known at last)
              ]
        ]
      ]

  pub walk-Descends :
      (n : ℕ) (h : String) (depth : ℕ) (seen : Hashes) (r : RollbackPoint)
      → walk env n h depth seen ≡ ok r
      → Descends n h seen r
  unfolding walk
  walk-Descends zero h depth seen r e =
      elim (walk_round-Round zero h depth ((zero, h) ∷ seen) _ r e) [
        | stopped a at m ↦ ends a at m
        | went_on parent s d q known last ↦ absurd (err-ne-ok last)
      ]
  walk-Descends (suc n) h depth seen r e =
      elim (walk_round-Round (suc n) h depth ((suc n, h) ∷ seen) _ r e) [
        | stopped a at m ↦ ends a at m
        | went_on parent s d q known last ↦
            goes_down s q known (walk-Descends n parent (suc depth) ((suc n, h) ∷ seen) r last)
      ]

  walk_depth :
      (n : ℕ) (h : String) (depth : ℕ) (seen : Hashes) (r : RollbackPoint)
      → walk env n h depth seen ≡ ok r
      → env.finalized_known ≡ false
      → depth ≤ max_walk_back_depth
      → depth + n ≤ max_walk_back_depth + r.fork_point
  unfolding walk
  walk_depth zero h depth seen r e unknown le = omega arith
  walk_depth (suc n) h depth seen r e unknown le =
      elim (walk_round-Round (suc n) h depth ((suc n, h) ∷ seen) _ r e) [
        | stopped a at m ↦ omega arith
        | went_on parent s d q known last ↦ omega (
          arith,
          walk_depth n parent (suc depth) ((suc n, h) ∷ seen) r last unknown (ground arith),
        )
      ]

  Descends-le :
      {n : ℕ} {h : String} {seen : Hashes} {r : RollbackPoint}
      → Descends n h seen r
      → r.fork_point ≤ n
  Descends-le (ends a at m) = omega arith
  Descends-le (goes_down s q known d) = omega (arith, Descends-le d)

  hash_at-cons_ne :
      (k n : ℕ) (h : String) (seen : Hashes) → n ≢ k → hash_at k ((n, h) ∷ seen) ≡ hash_at k seen
  unfolding hash_at
  hash_at-cons_ne k n h seen ne = ground arith

  hash_at-cons_self : (n : ℕ) (h : String) (seen : Hashes) → hash_at n ((n, h) ∷ seen) ≡ some h
  unfolding hash_at
  hash_at-cons_self n h seen = ground arith

  Descends-above :
      {n : ℕ} {h : String} {seen : Hashes} {r : RollbackPoint} (k : ℕ)
      → Descends n h seen r
      → n < k
      → hash_at k r.chain_hashes ≡ hash_at k seen
  Descends-above k (ends {n = n} {h = h} {seen = seen} a at m) lt =
      rw m (hash_at-cons_ne k n h seen (omega arith))
  Descends-above k (goes_down {n = n} {h = h} {seen = seen} s q known d) lt =
      Descends-above k d (omega arith) ∙ hash_at-cons_ne k (suc n) h seen (omega arith)

  -- what the map of verified hashes says of a height
  pub data Verified (r : RollbackPoint) (k : ℕ) : Type 0 where
    ancestor :
        (h : String)
        → k ≡ r.fork_point
        → hash_at k r.chain_hashes ≡ some h
        → IsAncestor k h
        → Verified r k
    suspect :
        (h : String)
        → r.fork_point < k
        → hash_at k r.chain_hashes ≡ some h
        → IsSuspect k h
        → Verified r k

  Descends-Verified :
      {n : ℕ} {h : String} {seen : Hashes} {r : RollbackPoint} (k : ℕ)
      → Descends n h seen r
      → r.fork_point ≤ k
      → k ≤ n
      → Verified r k
  Descends-Verified k (ends {n = n} {h = h} {seen = seen} {r = r} a at m) lo hi =
      let here : n ≡ k = omega arith in
      subst (λ j. Verified r j) here
        (ancestor h (omega arith) (rw m (hash_at-cons_self n h seen)) a)
  Descends-Verified k (goes_down {n = n} {h = h} {seen = seen} {r = r} s q known d) lo hi =
      elim (ℕ_discrete (suc n) k) [
        | yes top ↦
            subst (λ j. Verified r j) top
              (suspect h (omega (arith, Descends-le d))
                (Descends-above (suc n) d (omega arith) ∙ hash_at-cons_self (suc n) h seen) s)
        | no below ↦ Descends-Verified k d lo (omega arith)
      ]

  resolved :
      (start : ℕ) (h : String) (r : RollbackPoint)
      → resolve_fork_point env (suc start) h ≡ ok r
      → walk env start h 0 [] ≡ ok r
  unfolding resolve_fork_point
  resolved start h r e = elim (Bool-cases (str_eq h "")) [
    | inl unknown ↦ absurd (err-ne-ok (rw unknown at e))
    | inr known ↦ rw known at e
  ]

  -- Every height from the fork point that `resolveForkPoint` returns up to the start of the descent
  -- has a chain hash in the returned map. At the fork point the stored hash is that hash, or
  -- nothing is stored and the height is below the configured start; above it the stored hash is
  -- another one, or nothing is stored and the height is not below the configured start.
  pub resolve_fork_point-Verified :
      (start : ℕ) (h : String) (r : RollbackPoint) (k : ℕ)
      → resolve_fork_point env (suc start) h ≡ ok r
      → r.fork_point ≤ k
      → k ≤ start
      → Verified r k
  resolve_fork_point-Verified start h r k e lo hi =
      Descends-Verified k (walk-Descends start h 0 [] r (resolved start h r e)) lo hi

  -- The fork point is never above the start of the descent, and with no finalized height it is at
  -- most 64 heights below it.
  pub resolve_fork_point_bounds :
      (start : ℕ) (h : String) (r : RollbackPoint)
      → resolve_fork_point env (suc start) h ≡ ok r
      → (r.fork_point ≤ start)
        × ((env.finalized_known ≡ true) ⊎ (start ≤ max_walk_back_depth + r.fork_point))
  resolve_fork_point_bounds start h r e =
      let walked = resolved start h r e in
      (
        Descends-le (walk-Descends start h 0 [] r walked),
        elim (Bool-cases env.finalized_known) [
          | inl known ↦ inl known
          | inr unknown ↦
              inr (omega (arith, walk_depth start h 0 [] r walked unknown (omega arith)))
        ],
      )
