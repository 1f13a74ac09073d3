-- ===== src/Handler/Ensures.antt =====
-- What a step of the handler leaves: the collector only grows, and a returned value satisfies a
-- predicate. The rules follow the way that steps are put together.
use shinzo_generator_client.Prelude.{
  ◌≡◌, refl, ◌∙◌, sym, ap, String, List, [], ◌++◌, Option, none, some, Result, ok, err,
  append_assoc, append-nil,
}
use shinzo_generator_client.Processor.Run.{ErrorText}
use shinzo_generator_client.Handler.{
  Env, World, StoreError, Action, ◌>>=◌, pure, throw, wrap, call, collect, open_txn, committed,
  commit_txn, and_then,
}

-- the collector keeps what it has
abbrev pub Grows : {S : Type 0} → World S → World S → Type 0
Grows w w' = (more : List String) × (w'.cids ≡ w.cids ++ more)

abbrev pub Holds : {A : Type 0} → (A → Type 0) → Result StoreError A → Type 0
Holds P (ok a) = P a
Holds P (err e) = Unit

pub record Ensures {S A : Type 0} (P : A → Type 0) (step : Action S A) : Type 0 where
  pub grows : (w : World S) → Grows w (step w).0
  pub holds : (w : World S) → Holds P (step w).1

wrap-Holds : {A : Type 0} (r : Result ErrorText A) → Holds (λ a. r ≡ ok a) (wrap r)
wrap-Holds (ok a) = refl
wrap-Holds (err e) = tt

module _ {A : Type 0} {P Q : A → Type 0} (f : (a : A) → P a → Q a) where
  Holds-imply : (r : Result StoreError A) → Holds P r → Holds Q r
  Holds-imply (ok a) h = f a h
  Holds-imply (err e) h = tt

  pub Ensures-imply : {S : Type 0} {step : Action S A} → Ensures P step → Ensures Q step
  Ensures-imply {step} h = record {
    grows = h.grows;
    holds = λ w. Holds-imply (step w).1 (h.holds w);
  }

module _ {S : Type 0} where
  Grows-refl : (w : World S) → Grows w w
  Grows-refl w = ([], sym (append-nil w.cids))

  Grows-trans : (w w1 w2 : World S) → Grows w w1 → Grows w1 w2 → Grows w w2
  Grows-trans w w1 w2 (more, h) (more', h') =
      (more ++ more', h' ∙ ap (λ cids. cids ++ more') h ∙ append_assoc w.cids more more')

  module _ {A B : Type 0} {Q : A → Type 0} {P : B → Type 0} {step : Action S A}
      {next : A → Action S B} (h : Ensures Q step) (k : (a : A) → Q a → Ensures P (next a)) where
    then-Grows :
        (w : World S) (r : World S × Result StoreError A)
        → Grows w r.0
        → Holds Q r.1
        → Grows w (and_then next r).0
    then-Grows w (w', ok a) g q = Grows-trans w w' (next a w').0 g ((k a q).grows w')
    then-Grows w (w', err e) g q = g

    then-Holds : (r : World S × Result StoreError A) → Holds Q r.1 → Holds P (and_then next r).1
    then-Holds (w', ok a) q = (k a q).holds w'
    then-Holds (w', err e) q = tt

    pub Ensures-then : Ensures P (step >>= next)
    unfolding ◌>>=◌
    Ensures-then = record {
      grows = λ w. then-Grows w (step w) (h.grows w) (h.holds w);
      holds = λ w. then-Holds (step w) (h.holds w);
    }

  pub Ensures-pure : {A : Type 0} {P : A → Type 0} (a : A) → P a → Ensures {S = S} P (pure a)
  Ensures-pure a h = unfold pure in (record { grows = Grows-refl; holds = λ w. h })

  pub Ensures-throw : {A : Type 0} {P : A → Type 0} (e : StoreError) → Ensures {S = S} P (throw e)
  Ensures-throw e = unfold throw in (record { grows = Grows-refl; holds = λ w. tt })

  asked-Holds :
      {A : Type 0} (ask : S → Result ErrorText A) (s : S) (r : Result ErrorText A)
      → ask s ≡ r
      → Holds (λ a. (s' : S) × (ask s' ≡ ok a)) (wrap r)
  asked-Holds ask s (ok a) h = (s, h)
  asked-Holds ask s (err e) h = tt

  pub Ensures-call :
      {A : Type 0} (r : Result ErrorText A) → Ensures {S = S} (λ a. r ≡ ok a) (call r)
  Ensures-call r = unfold call in (record { grows = Grows-refl; holds = λ w. wrap-Holds r })

  -- a call that asks the world outside
  pub Ensures-ask :
      {A : Type 0} (ask : S → Result ErrorText A)
      → Ensures (λ a. (s : S) × (ask s ≡ ok a)) (λ w. call (ask w.outside) w)
  Ensures-ask ask =
      unfold call in
      (record { grows = Grows-refl; holds = λ w. asked-Holds ask w.outside (ask w.outside) refl })

  pub Ensures-collect : (more : List String) → Ensures {S = S} (λ a. Unit {0}) (collect more)
  Ensures-collect more = unfold collect in (record { grows = λ w. (more, refl); holds = λ w. tt })

  pub Ensures-open_txn :
      {T C D : Type 0} (env : Env S T C D)
      → Ensures (λ txn. (s : S) × (env.new_txn s ≡ ok txn)) (open_txn env)
  Ensures-open_txn env =
      unfold open_txn in
      (record {
        grows = Grows-refl;
        holds = λ w. asked-Holds env.new_txn w.outside (env.new_txn w.outside) refl;
      })

  committed-Grows : (w : World S) (r : S × Option ErrorText) → Grows w (committed w r).0
  unfolding committed
  committed-Grows w (s, none) = Grows-refl w
  committed-Grows w (s, some e) = Grows-refl w

  committed-Holds :
      (w : World S) (r : S × Option ErrorText) → Holds (λ a. Unit {0}) (committed w r).1
  unfolding committed
  committed-Holds w (s, none) = tt
  committed-Holds w (s, some e) = tt

  pub Ensures-commit_txn :
      {T C D : Type 0} (env : Env S T C D) (txn : T) → Ensures (λ a. Unit {0}) (commit_txn env txn)
  Ensures-commit_txn env txn =
      unfold commit_txn in
      (record {
        grows = λ w. committed-Grows w (env.commit txn w.outside);
        holds = λ w. committed-Holds w (env.commit txn w.outside);
      })
