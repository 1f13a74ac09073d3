-- ===== src/Config/Usable.antt =====
-- The settings that are accepted.
use shinzo_generator_client.Prelude.{
  ℕ, zero, suc, ◌*◌, ◌%◌, ◌^◌, ◌≤◌, ◌≡◌, ◌≢◌, refl, sym, ◌∙◌, ap, subst, ◌⊎◌, inl, inr, String,
  Bool, true, false, ◌&&◌, ◌||◌, not, Option, none, some, some-ne-none, ok, ok-injective, err-ne-ok,
  lt→ltb, str_eq, arith, ltb-false→le, Bool-cases, if◌then◌else◌, eq_of_test, ne_of_test,
}
use native.Mathlib.Nat.{mod-le}
use shinzo_generator_client.Config.{
  ℤ, pos, negsuc, lt_int, wrap_int64, mul_int64, at_least_one_or, if_zero, PrunerConfig,
  SnapshotConfig, Config, ConfigError, set_pruner_defaults, set_snapshot_defaults, apply_defaults,
  refuse_if, is_auth_mode, uncovered, validate_config, accepted, configure,
}

-- a setting of one or more
pub IsPositive : ℤ → Type 0
IsPositive x = (n : ℕ) × (x ≡ pos (suc n))

pub IsAuthMode : String → Type 0
IsAuthMode mode = (mode ≡ "none") ⊎ (mode ≡ "token") ⊎ (mode ≡ "mtls")

-- The snapshots that are kept hold at least as many blocks as the pruner keeps, without wrapping.
pub Covers : SnapshotConfig → PrunerConfig → Type 0
Covers s p =
    (m : ℕ) × (b : ℕ) × (k : ℕ) × (s.max_snapshots ≡ pos m)
    × (s.blocks_per_file ≡ pos b)
    × (p.max_blocks ≡ pos k)
    × (k ≤ m * b)

pub record IsUsable (trim_space : String → String) (c : Config) : Type 0 where
  pub adapter : c.chain.adapter ≡ "evm"
  pub start_height : (n : ℕ) × (c.indexer.start_height ≡ pos n)
  pub concurrent_blocks : IsPositive c.indexer.concurrent_blocks
  pub receipt_workers : IsPositive c.indexer.receipt_workers
  pub max_docs_per_txn : IsPositive c.indexer.max_docs_per_txn
  pub start_buffer : IsPositive c.indexer.start_buffer
  pub auth_mode : IsAuthMode c.indexer.schema_auth_mode
  pub url : (c.defra_db.embedded ≡ true) ⊎ (trim_space c.defra_db.url ≢ "")
  pub max_blocks : IsPositive c.pruner.max_blocks
  pub blocks_per_file : IsPositive c.snapshot.blocks_per_file
  pub max_snapshots : (c.snapshot.max_snapshots ≡ negsuc 0) ⊎ IsPositive c.snapshot.max_snapshots
  pub covers :
      (c.snapshot.enabled ≡ false)
      ⊎ (c.pruner.enabled ≡ false)
      ⊎ (c.snapshot.max_snapshots ≡ negsuc 0)
      ⊎ Covers c.snapshot c.pruner

at_least_one_or-IsPositive : (d : ℕ) (x : ℤ) → IsPositive (at_least_one_or (suc d) x)
unfolding IsPositive at_least_one_or
at_least_one_or-IsPositive d (pos zero) = (d, refl)
at_least_one_or-IsPositive d (pos (suc n)) = (n, refl)
at_least_one_or-IsPositive d (negsuc n) = (d, refl)

refuse_if-none :
    (b : Bool) (e : ConfigError) (later : Option ConfigError)
    → refuse_if b e later ≡ none
    → (b ≡ false) × (later ≡ none)
unfolding refuse_if
refuse_if-none true e later accepts = absurd (some-ne-none accepts)
refuse_if-none false e later accepts = (refl, accepts)

not_negative : (x : ℤ) → lt_int x (pos 0) ≡ false → (n : ℕ) × (x ≡ pos n)
unfolding lt_int
not_negative (pos n) test = (n, refl)
not_negative (negsuc n) test = ground arith

limit_cases :
    (x : ℤ)
    → lt_int (if_zero 100 x) (negsuc 0) ≡ false
    → (if_zero 100 x ≡ negsuc 0) ⊎ IsPositive (if_zero 100 x)
unfolding lt_int if_zero IsPositive
limit_cases (pos zero) test = inr (99, refl)
limit_cases (pos (suc n)) test = inr (n, refl)
limit_cases (negsuc zero) test = inl refl
limit_cases (negsuc (suc n)) test = ground arith

kept_low :
    (k n low top : ℕ) (small : Bool)
    → low ≤ n
    → lt_int (if small then pos low else negsuc top) (pos k) ≡ false
    → k ≤ n
unfolding lt_int
kept_low k n low top true le test = omega (arith, ltb-false→le _ _ test)
kept_low k n low top false le test = ground arith

-- a product that is not below a natural number when it is cut to 64 bits is not below it at all
wrap_int64-le : (k n : ℕ) → lt_int (wrap_int64 n) (pos k) ≡ false → k ≤ n
unfolding wrap_int64
wrap_int64-le k n test = kept_low k n (n % 2 ^ 64) _ _ (mod-le n (2 ^ 64)) test

mul_int64-le :
    (x y z : ℤ) (m b k : ℕ)
    → x ≡ pos m
    → y ≡ pos b
    → z ≡ pos k
    → lt_int (mul_int64 x y) z ≡ false
    → k ≤ m * b
unfolding mul_int64
mul_int64-le x y z m b k ex ey ez test = wrap_int64-le k (m * b) (
    sym (
      ap (λ a. lt_int (mul_int64 a y) z) ex
      ∙ ap (λ a. lt_int (mul_int64 (pos m) a) z) ey
      ∙ ap (lt_int (mul_int64 (pos m) (pos b))) ez)
    ∙ test)

last_test :
    (a b c d : Bool) → a ≡ true → b ≡ true → c ≡ true → ((a && b && c) && d) ≡ false → d ≡ false
last_test a b c d is_a is_b is_c test = ground arith

positive_test : (x : ℤ) (n : ℕ) → x ≡ pos (suc n) → lt_int (pos 0) x ≡ true
unfolding lt_int
positive_test x n is_x = ap (lt_int (pos 0)) is_x ∙ lt→ltb 0 (suc n) (omega arith)

covered :
    (s : SnapshotConfig) (p : PrunerConfig)
    → (s.max_snapshots ≡ negsuc 0) ⊎ IsPositive s.max_snapshots
    → IsPositive s.blocks_per_file
    → IsPositive p.max_blocks
    → uncovered s p ≡ false
    → (s.enabled ≡ false) ⊎ (p.enabled ≡ false) ⊎ (s.max_snapshots ≡ negsuc 0) ⊎ Covers s p
unfolding IsPositive uncovered Covers
covered s p (inl unlimited) blocks kept test = inr (inr (inl unlimited))
covered s p (inr (m, is_m)) (b, is_b) (k, is_k) test = elim (Bool-cases s.enabled) [
  | inr off ↦ inl off
  | inl on ↦ elim (Bool-cases p.enabled) [
    | inr off ↦ inr (inl off)
    | inl kept ↦ inr (
        inr (
          inr (
            suc m,
            suc b,
            suc k,
            is_m,
            is_b,
            is_k,
            mul_int64-le _ _ _ (suc m) (suc b) (suc k) is_m is_b is_k
                (last_test s.enabled p.enabled _ _ on kept (positive_test _ m is_m) test),
          )))
  ]
]

third_test : (a b c : Bool) → a ≡ false → b ≡ false → not (a || b || c) ≡ false → c ≡ true
third_test a b c not_a not_b test = ground arith

not-false : (b : Bool) → not b ≡ false → b ≡ true
not-false b test = ground arith

mode_cases : (mode : String) → not (is_auth_mode mode) ≡ false → IsAuthMode mode
unfolding is_auth_mode IsAuthMode
mode_cases mode test = elim (Bool-cases (str_eq mode "none")) [
  | inl is_none ↦ inl (eq_of_test mode "none" is_none)
  | inr other ↦ elim (Bool-cases (str_eq mode "token")) [
    | inl is_token ↦ inr (inl (eq_of_test mode "token" is_token))
    | inr third ↦ inr (inr (eq_of_test mode "mtls" (third_test _ _ _ other third test)))
  ]
]

url_cases :
    (embedded : Bool) (url : String)
    → (not embedded && str_eq url "") ≡ false
    → (embedded ≡ true) ⊎ (url ≢ "")
url_cases true url test = inl refl
url_cases false url test = inr (ne_of_test url "" test)

adapter_of : (adapter : String) → not (str_eq adapter "evm") ≡ false → adapter ≡ "evm"
adapter_of adapter test = eq_of_test adapter "evm" (not-false (str_eq adapter "evm") test)

limit_of :
    (cfg : Config)
    → lt_int (apply_defaults cfg).snapshot.max_snapshots (negsuc 0) ≡ false
    → ((apply_defaults cfg).snapshot.max_snapshots ≡ negsuc 0)
      ⊎ IsPositive (apply_defaults cfg).snapshot.max_snapshots
unfolding apply_defaults set_snapshot_defaults
limit_of cfg test = limit_cases cfg.snapshot.max_snapshots test

positive_settings :
    (cfg : Config)
    → IsPositive (apply_defaults cfg).indexer.concurrent_blocks
      × IsPositive (apply_defaults cfg).indexer.receipt_workers
      × IsPositive (apply_defaults cfg).indexer.max_docs_per_txn
      × IsPositive (apply_defaults cfg).indexer.start_buffer
      × IsPositive (apply_defaults cfg).pruner.max_blocks
      × IsPositive (apply_defaults cfg).snapshot.blocks_per_file
unfolding apply_defaults set_snapshot_defaults set_pruner_defaults
positive_settings cfg = (
  at_least_one_or-IsPositive 7 cfg.indexer.concurrent_blocks,
  at_least_one_or-IsPositive 15 cfg.indexer.receipt_workers,
  at_least_one_or-IsPositive 999 cfg.indexer.max_docs_per_txn,
  at_least_one_or-IsPositive 99 cfg.indexer.start_buffer,
  at_least_one_or-IsPositive 9999 cfg.pruner.max_blocks,
  at_least_one_or-IsPositive 999 cfg.snapshot.blocks_per_file,
)

module _ (trim_space : String → String) where
  validated-IsUsable :
      (cfg : Config)
      → validate_config trim_space (apply_defaults cfg) ≡ none
      → IsUsable trim_space (apply_defaults cfg)
  unfolding validate_config
  validated-IsUsable cfg accepts =
      let c = apply_defaults cfg in
      let adapter = refuse_if-none _ _ _ accepts in
      let height = refuse_if-none _ _ _ adapter.1 in
      let mode = refuse_if-none _ _ _ height.1 in
      let url = refuse_if-none _ _ _ mode.1 in
      let limit = refuse_if-none _ _ _ url.1 in
      let cover = refuse_if-none _ _ _ limit.1 in
      let snapshots = limit_of cfg limit.0 in
      record {
        adapter = adapter_of c.chain.adapter adapter.0;
        start_height = not_negative c.indexer.start_height height.0;
        concurrent_blocks = (positive_settings cfg).0;
        receipt_workers = (positive_settings cfg).1;
        max_docs_per_txn = (positive_settings cfg).2;
        start_buffer = (positive_settings cfg).3;
        auth_mode = mode_cases c.indexer.schema_auth_mode mode.0;
        url = url_cases c.defra_db.embedded (trim_space c.defra_db.url) url.0;
        max_blocks = (positive_settings cfg).4;
        blocks_per_file = (positive_settings cfg).5;
        max_snapshots = snapshots;
        covers =
            covered c.snapshot c.pruner snapshots (positive_settings cfg).5
              (positive_settings cfg).4 cover.0;
      }

  accepted-none :
      (cfg c : Config) (refusal : Option ConfigError)
      → accepted trim_space cfg refusal ≡ ok c
      → (refusal ≡ none) × (cfg ≡ c)
  unfolding accepted
  accepted-none cfg c none same = (refl, ok-injective {E = ConfigError} same)
  accepted-none cfg c (some e) same = absurd (err-ne-ok same)

  -- Settings that are loaded without an error are usable: the EVM adapter, a start height that is
  -- not negative, positive numbers of concurrent blocks, receipt workers, documents in a
  -- transaction, buffered and kept blocks and blocks in a snapshot, a known mode of authentication,
  -- and a URL unless the database is embedded; the snapshots are unlimited or a positive number,
  -- and with the snapshots and the pruner enabled, a limited number of snapshots holds at least as
  -- many blocks as the pruner keeps, although the code's product wraps at 64 bits.
  pub configure-IsUsable :
      (cfg c : Config) → configure trim_space cfg ≡ ok c → IsUsable trim_space c
  configure-IsUsable cfg c loaded =
      let both =
        accepted-none (apply_defaults cfg) c (validate_config trim_space (apply_defaults cfg))
          (unfold configure in loaded) in
      subst (IsUsable trim_space) both.1 (validated-IsUsable cfg both.0)
