-- ===== src/Snapshot/Ranges.antt =====
-- Which range of blocks the next snapshot takes.
use native.Mathlib.Nat.{lt-div-mul-add, div-lt_iff_lt-mul, mul-le-mul_right, add-mul, one-mul}
use shinzo_generator_client.Prelude.{
  ℕ, ◌+◌, ◌-◌, ◌*◌, ◌/◌, ◌≤◌, ◌<◌, ◌≡◌, ◌≢◌, ◌⊎◌, inl, inr, refl, Bool-cases, ==_iff, none, some,
  arith, ltb, ltb→lt, ltb-false→le, ◌==◌, if◌then◌else◌,
}
use shinzo_generator_client.Snapshot.{align, skip_ahead, next_snapshot_range}

module _ (b lowest : ℕ) (pos : 0 < b) where
  align-le : lowest ≤ align b lowest
  unfolding align
  align-le = omega (arith, lt-div-mul-add {a = lowest + b - 1} {b = b} pos)

  align-least : (k : ℕ) → lowest ≤ k * b → align b lowest ≤ k * b
  unfolding align
  align-least k le =
      let under : lowest + b - 1 < (k + 1) * b = omega (arith, add-mul k 1 b, one-mul b) in
      mul-le-mul_right b
        (omega (arith, (div-lt_iff_lt-mul {x = lowest + b - 1} {y = k + 1} pos).1 under))

-- The least start of a range that is aligned, stored from its first block, and above the last
-- snapshot, where there is one.
pub record IsNext (blocks_per_file last_snapshot lowest start : ℕ) : Type 0 where
  pub aligned : (k : ℕ) × (start ≡ k * blocks_per_file)
  pub is_stored : lowest ≤ start
  pub is_new : (last_snapshot ≡ 0) ⊎ (last_snapshot < start)
  pub is_least :
      (k : ℕ)
      → lowest ≤ k * blocks_per_file
      → (last_snapshot ≡ 0) ⊎ (last_snapshot < k * blocks_per_file)
      → start ≤ k * blocks_per_file

-- a snapshot already taken ends just below a multiple
abbrev pub EndsAligned : ℕ → ℕ → Type 0
EndsAligned blocks_per_file last_snapshot =
    (last_snapshot ≡ 0) ⊎ ((k : ℕ) × (last_snapshot + 1 ≡ k * blocks_per_file))

first_start : ℕ → ℕ → ℕ → ℕ
first_start b last lowest = if last == 0 then align b lowest else last + 1

align-IsNext :
    (b last lowest : ℕ)
    → 0 < b
    → (last ≡ 0) ⊎ (last < lowest)
    → IsNext b last lowest (align b lowest)
align-IsNext b last lowest pos below = record {
  aligned = unfold align in ((lowest + b - 1) / b, refl);
  is_stored = align-le b lowest pos;
  is_new = elim below [
    | inl none_yet ↦ inl none_yet
    | inr lt ↦ inr (omega (arith, align-le b lowest pos))
  ];
  is_least = λ k le _. align-least b lowest pos k le;
}

start-IsNext :
    (b last lowest : ℕ)
    → 0 < b
    → EndsAligned b last
    → IsNext b last lowest (skip_ahead b lowest (first_start b last lowest))
unfolding skip_ahead first_start
start-IsNext b last lowest pos ends = elim (Bool-cases (last == 0)) [
  | inl zero_last ↦
      let none_yet = (==_iff last 0).0 zero_last in
      elim (Bool-cases (ltb (align b lowest) lowest)) [
        | inl low ↦ rw (zero_last, low) (align-IsNext b last lowest pos (inl none_yet))
        | inr fine ↦ rw (zero_last, fine) (align-IsNext b last lowest pos (inl none_yet))
      ]
  | inr some_last ↦
      let some_zero : last ≢ 0 = λ e. cc (some_last, (==_iff last 0).1 e) in
      elim (Bool-cases (ltb (last + 1) lowest)) [
        | inl gap ↦
            rw (some_last, gap)
              (align-IsNext b last lowest pos (inr (omega (arith, ltb→lt (last + 1) lowest gap))))
        | inr fine ↦
            rw (some_last, fine)
              (record {
                aligned = elim ends [
                  | inl none_yet ↦ absurd (some_zero none_yet)
                  | inr multiple ↦ multiple
                ];
                is_stored = ltb-false→le (last + 1) lowest fine;
                is_new = inr (omega arith);
                is_least = λ k le new. elim new [
                  | inl none_yet ↦ absurd (some_zero none_yet)
                  | inr lt ↦ omega arith
                ];
              })
      ]
]

-- With a positive file size and the last snapshot, if any, ending just below a multiple of it: the
-- next range is the least aligned one that is stored from its first block on and above the last
-- snapshot, and it is taken exactly if the store reaches its last block.
pub next_snapshot_range_lem :
    (b last lowest highest : ℕ)
    → 0 < b
    → EndsAligned b last
    → (start : ℕ) × IsNext b last lowest start
      × (((start + b ≤ highest + 1)
            × (next_snapshot_range b last lowest highest ≡ some (start, start + b - 1)))
          ⊎ ((highest + 1 < start + b) × (next_snapshot_range b last lowest highest ≡ none)))
unfolding next_snapshot_range first_start
next_snapshot_range_lem b last lowest highest pos ends =
    let start = skip_ahead b lowest (first_start b last lowest) in
    (
      start,
      start-IsNext b last lowest pos ends,
      elim (Bool-cases (ltb highest (start + b - 1))) [
        | inl short ↦ inr (omega (arith, ltb→lt highest (start + b - 1) short), rw short refl)
        | inr reaches ↦
            inl (omega (arith, ltb-false→le highest (start + b - 1) reaches), rw reaches refl)
      ],
    )
