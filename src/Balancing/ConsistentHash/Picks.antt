-- ===== src/Balancing/ConsistentHash/Picks.antt =====
-- The picks of the consistent-hash balancer.
use apigate.Prelude.{
  ℕ, zero, suc, ◌-◌, ◌/◌, ◌<◌, ◌≤◌, ◌≡◌, refl, ap, Option, none, some, true, arith, ==_ne, ◌==◌,
  Bool-cases, done, inl, inr, min,
}
use Prim.Native.Nat.{bit_and, bit_and-bitwise, digits}
use native.Mathlib.Nat.{mod-lt}
use apigate.Str.{Str}
use apigate.Balancing.{AffinityKey, BalanceCtx, candidate_len, is_candidate}
use apigate.Balancing.Words.{candidate_index-some, is_candidate-candidate_index}
use apigate.Balancing.ConsistentHash.{
  ConsistentHash, pick_candidate, is_power_of_two, rotated, pick_by, pick,
}
use apigate.Balancing.ConsistentHash.Jump.{jump_consistent_hash-lt}

-- A masked number is at most the mask.
digits-le : (n a b : ℕ) → digits (λ b. zero) min n a b ≤ b
digits-le zero zero b = omega arith
digits-le zero (suc a) b = omega arith
digits-le (suc n) zero b = omega arith
digits-le (suc n) (suc a) b = omega (arith, digits-le n (suc a / 2) (b / 2))

bit_and-le_right : (a b : ℕ) → bit_and a b ≤ b
bit_and-le_right a b = rw (bit_and-bitwise a b) (digits-le a a b)

rotated-lt : (n len : ℕ) → 0 < len → rotated n len < len
unfolding rotated
rotated-lt n len h = elim (Bool-cases (is_power_of_two len)) [
  | inl power ↦ rw power (omega (arith, bit_and-le_right n (len - 1)))
  | inr other ↦ rw other (mod-lt n h)
]

pick_candidate-is_candidate :
    (hash : ℕ) (ctx : BalanceCtx)
    → 0 < candidate_len ctx
    → candidate_len ctx < 4294967296
    → (i : ℕ) × (pick_candidate hash ctx ≡ done (some i)) × (is_candidate ctx i ≡ true)
unfolding pick_candidate
pick_candidate-is_candidate hash ctx h low =
    let (bucket, found, inside) = jump_consistent_hash-lt hash (candidate_len ctx) h low in
    let (i, there) = candidate_index-some ctx bucket inside in
    (i, rw found (rw there), is_candidate-candidate_index ctx bucket i there)

module _ (xxh3_64 : Str → ℕ) where
  pick_by-is_candidate :
      (ctx : BalanceCtx) (s : ConsistentHash) (affinity : Option AffinityKey)
      → 0 < candidate_len ctx
      → candidate_len ctx < 4294967296
      → (i : ℕ) × ((pick_by xxh3_64 ctx s affinity).0 ≡ done (some i)) × (is_candidate ctx i ≡ true)
  unfolding pick_by
  pick_by-is_candidate ctx s (some key) h low =
      pick_candidate-is_candidate (xxh3_64 key.text) ctx h low
  pick_by-is_candidate ctx s none h low =
      let nth = rotated s.offset (candidate_len ctx) in
      let (i, there) = candidate_index-some ctx nth (rotated-lt s.offset (candidate_len ctx) h) in
      (i, ap done there, is_candidate-candidate_index ctx nth i there)

  -- With a positive number of candidates below 2^32, the consistent-hash balancer picks one of the
  -- candidates, with an affinity key and without.
  pub pick-is_candidate_hash :
      (ctx : BalanceCtx) (s : ConsistentHash)
      → 0 < candidate_len ctx
      → candidate_len ctx < 4294967296
      → (i : ℕ) × ((pick xxh3_64 ctx s).0 ≡ done (some i)) × (is_candidate ctx i ≡ true)
  unfolding pick
  pick-is_candidate_hash ctx s h low =
      rw (==_ne (candidate_len ctx) 0 (omega arith)) (pick_by-is_candidate ctx s ctx.affinity h low)

  -- A request with an affinity key leaves the state alone and its pick does not depend on the state,
  -- so equal keys are sent to the same backend, whatever requests come between.
  pub pick_sticky :
      (ctx : BalanceCtx) (s s' : ConsistentHash) (key : AffinityKey)
      → ctx.affinity ≡ some key
      → ((pick xxh3_64 ctx s).0 ≡ (pick xxh3_64 ctx s').0) × ((pick xxh3_64 ctx s).1 ≡ s)
  unfolding pick pick_by
  pick_sticky ctx s s' key a = elim (Bool-cases (candidate_len ctx == 0)) [
    | inl empty ↦ rw empty (refl, refl)
    | inr some_ ↦ rw some_ (rw a (refl, refl))
  ]
