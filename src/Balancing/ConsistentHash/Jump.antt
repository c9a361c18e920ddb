-- ===== src/Balancing/ConsistentHash/Jump.antt =====
-- Jump consistent hashing: it ends, in range, and moves as few keys as can be.
use apigate.Prelude.{
  ℕ, zero, suc, ◌+◌, ◌*◌, ◌/◌, ◌<◌, ◌≤◌, ◌≡◌, sym, ◌∙◌, ◌⊎◌, inl, inr, some, arith, ltb, lt→ltb,
  ltb-eq-false, ltb→lt, ltb-false→le, ==_ne, Bool-cases, Run, done, panic, out_of_fuel, run_bind,
}
use native.Mathlib.Nat.{le-div_iff_mul-le}
use apigate.Balancing.Words.{word_max}
use apigate.Balancing.ConsistentHash.{next_key, divisor, jump_loop, jump_consistent_hash}

-- The variable `j` in the next round.
abbrev next_j : ℕ → ℕ → ℕ
next_j key j = (j + 1) * 2147483648 / divisor (next_key key)

divisor-le : (key : ℕ) → divisor (next_key key) ≤ 2147483648
unfolding next_key
divisor-le key = omega arith

div-ge : (x m d : ℕ) → 0 < d → d ≤ m → x ≤ x * m / d
div-ge x m d pos h = (le-div_iff_mul-le pos).1 (mul-le-mul_left' x d m h)
  where
    mul-le-mul_left' : (x d m : ℕ) → d ≤ m → x * d ≤ x * m
    mul-le-mul_left' x d m h = grind arith

next_j-gt : (key j : ℕ) → j < next_j key j
next_j-gt key j =
    omega (arith, div-ge (j + 1) 2147483648 (divisor (next_key key)) (omega arith) (divisor-le key))

module _ (fuel key b j buckets : ℕ) where
  jump_loop-next :
      j < buckets
      → buckets < 4294967296
      → jump_loop (suc fuel) key b j buckets
        ≡ jump_loop fuel (next_key key) j (next_j key j) buckets
  unfolding jump_loop
  jump_loop-next h low =
      rw (lt→ltb j buckets h, lt→ltb ((j + 1) * 2147483648) 9223372036854775808 (omega arith))

  jump_loop-stop : buckets ≤ j → jump_loop (suc fuel) key b j buckets ≡ done b
  unfolding jump_loop
  jump_loop-stop h = rw (ltb-eq-false j buckets h)

-- From a state whose last jump is in range, the loop ends in range.
jump_loop-lt :
    (fuel key b j buckets : ℕ)
    → buckets < 4294967296
    → b < buckets
    → 0 < fuel
    → buckets < fuel + j
    → (r : ℕ) × (jump_loop fuel key b j buckets ≡ done r) × (r < buckets)
jump_loop-lt zero key b j buckets low inside some_fuel enough = elim some_fuel [ ]
jump_loop-lt (suc fuel) key b j buckets low inside some_fuel enough =
    elim (Bool-cases (ltb j buckets)) [
      | inl more ↦
          let h = ltb→lt j buckets more in
          let (r, later, in_range) =
            jump_loop-lt fuel (next_key key) j (next_j key j) buckets low h (omega arith)
              (omega (arith, next_j-gt key j)) in
          (r, jump_loop-next fuel key b j buckets h low ∙ later, in_range)
      | inr ended ↦ (b, jump_loop-stop fuel key b j buckets (ltb-false→le j buckets ended), inside)
    ]

-- The first round always jumps to bucket 0.
jump_loop-first :
    (fuel key buckets : ℕ)
    → 0 < buckets
    → buckets < 4294967296
    → jump_loop (suc fuel) key word_max 0 buckets
      ≡ jump_loop fuel (next_key key) 0 (next_j key 0) buckets
jump_loop-first fuel key buckets h low = jump_loop-next fuel key word_max 0 buckets h low

-- For a positive number of buckets below 2^32 the loop ends within its fuel, the product does not
-- overflow, and the bucket is in range.
pub jump_consistent_hash-lt :
    (key buckets : ℕ)
    → 0 < buckets
    → buckets < 4294967296
    → (r : ℕ) × (jump_consistent_hash key buckets ≡ done (some r)) × (r < buckets)
unfolding jump_consistent_hash
jump_consistent_hash-lt key buckets h low =
    let fuel : buckets + 1 ≡ suc buckets = omega arith in
    let (r, later, in_range) =
      jump_loop-lt buckets (next_key key) 0 (next_j key 0) buckets low h h
        (omega (arith, next_j-gt key 0)) in
    (
      r,
      rw (==_ne buckets 0 (omega arith), fuel)
          (rw (jump_loop-first buckets key buckets h low) (rw later)),
      in_range,
    )

-- With one more bucket, the loop from the same state ends in the same bucket or in the new one.
jump_loop-grow :
    (fuel key b j buckets r : ℕ)
    → buckets + 1 < 4294967296
    → jump_loop fuel key b j buckets ≡ done r
    → (q : ℕ) × (jump_loop (suc fuel) key b j (buckets + 1) ≡ done q) × ((q ≡ r) ⊎ (q ≡ buckets))
jump_loop-grow zero key b j buckets r low e = unfold jump_loop in cc
jump_loop-grow (suc fuel) key b j buckets r low e = elim (Bool-cases (ltb j buckets)) [
  | inl more ↦
      let h = ltb→lt j buckets more in
      let e' = sym (jump_loop-next fuel key b j buckets h (omega arith)) ∙ e in
      let (q, later, where_) =
        jump_loop-grow fuel (next_key key) j (next_j key j) buckets r low e' in
      (q, jump_loop-next (suc fuel) key b j (buckets + 1) (omega arith) low ∙ later, where_)
  | inr ended ↦
      let h = ltb-false→le j buckets ended in
      let same : r ≡ b = let e' = sym (jump_loop-stop fuel key b j buckets h) ∙ e in cc in
      elim (Bool-cases (ltb j (buckets + 1))) [
        | inl last ↦
            let at : j ≡ buckets = omega (arith, ltb→lt j (buckets + 1) last) in
            (
              j,
              jump_loop-next (suc fuel) key b j (buckets + 1) (omega arith) low
                  ∙ jump_loop-stop fuel (next_key key) j (next_j key j) (buckets + 1)
                      (omega (arith, next_j-gt key j)),
              inr at,
            )
        | inr past ↦ (
          b,
          jump_loop-stop (suc fuel) key b j (buckets + 1) (ltb-false→le j (buckets + 1) past),
          inl (sym same),
        )
      ]
]

jump_eq_loop :
    (key buckets : ℕ)
    → 0 < buckets
    → jump_consistent_hash key buckets
      ≡ run_bind (jump_loop (buckets + 1) key word_max 0 buckets) (λ b. done (some b))
unfolding jump_consistent_hash
jump_eq_loop key buckets h = rw (==_ne buckets 0 (omega arith))

loop_of_found : (m : Run ℕ) (r : ℕ) → run_bind m (λ b. done (some b)) ≡ done (some r) → m ≡ done r
loop_of_found (done b) r e = cc
loop_of_found panic r e = cc
loop_of_found out_of_fuel r e = cc

-- Consistency: when one bucket is added to a positive number of them, and there are less than 2^32
-- then, a key that had a bucket stays there or moves to the new one.
pub jump_consistent_hash_grow :
    (key buckets r : ℕ)
    → 0 < buckets
    → buckets + 1 < 4294967296
    → jump_consistent_hash key buckets ≡ done (some r)
    → (jump_consistent_hash key (buckets + 1) ≡ done (some r))
      ⊎ (jump_consistent_hash key (buckets + 1) ≡ done (some buckets))
jump_consistent_hash_grow key buckets r h low e =
    let small = loop_of_found _ r (sym (jump_eq_loop key buckets h) ∙ e) in
    let (q, large, where_) = jump_loop-grow (buckets + 1) key word_max 0 buckets r low small in
    let fuel : buckets + 1 + 1 ≡ suc (buckets + 1) = omega arith in
    let found : jump_consistent_hash key (buckets + 1) ≡ done (some q) =
      jump_eq_loop key (buckets + 1) (omega arith) ∙ rw fuel (rw large) in
    elim where_ [ inl same ↦ inl (rw same at found) | inr new ↦ inr (rw new at found) ]
