-- ===== src/Balancing/LeastRequest/Minimal.antt =====
-- The scan finds a candidate with the least value.
use apigate.Prelude.{
  ℕ, zero, suc, ◌+◌, ◌%◌, ◌<◌, ◌≤◌, ◌≡◌, refl, ap, ◌∙◌, ◌⊎◌, inl, inr, List, Option, none, some,
  true, arith, ltb, ==_ne, get_elem?, Bool-cases,
}
use native.Mathlib.Nat.{mod-eq_of_lt, le_trans, zero-add}
use apigate.Balancing.{BalanceCtx, candidate_len, candidate_index, is_candidate}
use apigate.Balancing.Words.{
  word, word_max, candidate_index-some, turn, turn-lt, turn_lem, is_candidate-candidate_index,
}
use apigate.Balancing.LeastRequest.{
  Best, load_or_zero, consider, scan, best_of, LeastRequest, counters, pick,
}

-- What the scan reads for a backend.
unfoldable pub cost : List ℕ → ℕ → ℕ
cost slots idx = load_or_zero (get_elem? slots idx)

module _ (ctx : BalanceCtx) (slots : List ℕ) (offset : ℕ) where
  -- The best is none yet, or a candidate with its value.
  IsBest : Best → Type 0
  IsBest best =
      ((best.index ≡ none) × (best.count ≡ word_max))
      ⊎ ((b : ℕ) × (best.index ≡ some b)
          × (best.count ≡ cost slots b)
          × (is_candidate ctx b ≡ true))

  consider_lem :
      (best : Best) (idx : ℕ)
      → (consider slots best (some idx)).count ≤ best.count
        × ((consider slots best (some idx)).count ≤ cost slots idx)
  unfolding consider cost
  consider_lem best idx = ground arith

  consider-le : (best : Best) (o : Option ℕ) → (consider slots best o).count ≤ best.count
  unfolding consider
  consider-le best none = omega arith
  consider-le best (some idx) = unfold cost in (consider_lem best idx).0

  consider-IsBest :
      (best : Best) (o : Option ℕ)
      → ((idx : ℕ) → o ≡ some idx → is_candidate ctx idx ≡ true)
      → IsBest best
      → IsBest (consider slots best o)
  unfolding consider IsBest cost
  consider-IsBest best none c h = h
  consider-IsBest best (some idx) c h =
      elim (Bool-cases (ltb (load_or_zero (get_elem? slots idx)) best.count)) [
        | inl less ↦ rw less (inr (idx, refl, refl, c idx refl))
        | inr more ↦ rw more h
      ]

  -- The candidate of round `i`.
  at : ℕ → Option ℕ
  at i = candidate_index ctx ((offset + i) % word % candidate_len ctx)

  scan-le : (rounds i : ℕ) (best : Best) → (scan ctx slots offset rounds i best).count ≤ best.count
  unfolding scan
  scan-le zero i best = omega arith
  scan-le (suc rounds) i best =
      le_trans (scan-le rounds (i + 1) (consider slots best _)) (consider-le best _)

  scan-step :
      (rounds i : ℕ) (best : Best)
      → scan ctx slots offset (suc rounds) i best
        ≡ scan ctx slots offset rounds (i + 1) (consider slots best (at i))
  unfolding scan at
  scan-step rounds i best = refl

  scan-le_at :
      (rounds i k : ℕ) (best : Best) (idx : ℕ)
      → k < rounds
      → at (i + k) ≡ some idx
      → (scan ctx slots offset rounds i best).count ≤ cost slots idx
  scan-le_at zero i k best idx h e = elim h [ ]
  scan-le_at (suc rounds) i zero best idx h e =
      let here : at i ≡ some idx = let start : i + 0 ≡ i = omega arith in rw start at e in
      rw (scan-step rounds i best) (
        rw here (
          le_trans (scan-le rounds (i + 1) (consider slots best (some idx)))
            (consider_lem best idx).1))
  scan-le_at (suc rounds) i (suc k) best idx h e =
      let later : i + suc k ≡ i + 1 + k = omega arith in
      rw (scan-step rounds i best)
        (scan-le_at rounds (i + 1) k (consider slots best (at i)) idx (omega arith) (rw later at e))

  scan-IsBest :
      (rounds i : ℕ) (best : Best) → IsBest best → IsBest (scan ctx slots offset rounds i best)
  unfolding scan
  scan-IsBest zero i best h = h
  scan-IsBest (suc rounds) i best h =
      scan-IsBest rounds (i + 1) _
        (consider-IsBest best _ (λ idx e. is_candidate-candidate_index ctx _ idx e) h)

  start : Best
  start = record { index = none; count = word_max }

  IsBest-some :
      (best : Best)
      → IsBest best
      → best.count < word_max
      → (b : ℕ) × (best.index ≡ some b) × (best.count ≡ cost slots b) × (is_candidate ctx b ≡ true)
  unfolding IsBest
  IsBest-some best (inl (_, full)) low = absurd (omega arith)
  IsBest-some best (inr h) low = h

  at-turn :
      (p : ℕ)
      → p < candidate_len ctx
      → offset + candidate_len ctx ≤ word
      → at (0 + turn offset (candidate_len ctx) p) ≡ candidate_index ctx p
  unfolding at
  at-turn p h low =
      let len = candidate_len ctx in
      let k = turn offset len p in
      let below = turn-lt offset len p (omega arith) in
      let plain : (offset + (0 + k)) % word ≡ offset + k =
        mod-eq_of_lt (omega arith) ∙ ap (λ n. offset + n) (zero-add k) in
      rw plain (ap (candidate_index ctx) (turn_lem offset len p h))

  -- The candidate that `best_of` finds has the least value of all.
  pub best_of_lem :
      0 < candidate_len ctx
      → offset + candidate_len ctx ≤ word
      → ((idx : ℕ) → is_candidate ctx idx ≡ true → cost slots idx < word_max)
      → (b : ℕ) × (best_of ctx slots offset ≡ some b)
        × (is_candidate ctx b ≡ true)
        × ((p idx : ℕ)
            → p < candidate_len ctx
            → candidate_index ctx p ≡ some idx
            → cost slots b ≤ cost slots idx)
  unfolding best_of
  best_of_lem h low small =
      let len = candidate_len ctx in
      let final = scan ctx slots offset len 0 start in
      let good : IsBest final = scan-IsBest len 0 start (unfold IsBest start in inl (refl, refl)) in
      let least : (p idx : ℕ)
          → p < len
          → candidate_index ctx p ≡ some idx
          → final.count ≤ cost slots idx =
        λ p idx hp e.
          scan-le_at len 0 (turn offset len p) start idx (turn-lt offset len p h)
            (at-turn p hp low ∙ e) in
      let (i0, there) = candidate_index-some ctx 0 h in
      let (b, found, value, member) =
        IsBest-some final good
          (le_lt (least 0 i0 h there) (small i0 (is_candidate-candidate_index ctx 0 i0 there))) in
      (b, unfold start in found, member, λ p idx hp e. rw (← value) (least p idx hp e))
    where
      le_lt : {a b c : ℕ} → a ≤ b → b < c → a < c
      le_lt h k = omega arith

-- Least request picks a candidate with the fewest requests in flight: with at least one candidate,
-- an offset that does not wrap during the scan and counters below the largest word, the pick is a
-- candidate whose counter is at most that of every candidate.
pub pick_minimal :
    (ctx : BalanceCtx) (s : LeastRequest)
    → 0 < candidate_len ctx
    → s.offset + candidate_len ctx ≤ word
    → ((idx : ℕ)
        → is_candidate ctx idx ≡ true
        → cost (counters s.in_flight ctx.pool_len) idx < word_max)
    → (b : ℕ) × ((pick ctx s).0 ≡ some b)
      × (is_candidate ctx b ≡ true)
      × ((p idx : ℕ)
          → p < candidate_len ctx
          → candidate_index ctx p ≡ some idx
          → cost (counters s.in_flight ctx.pool_len) b
            ≤ cost (counters s.in_flight ctx.pool_len) idx)
unfolding pick
pick_minimal ctx s h low small =
    rw (==_ne (candidate_len ctx) 0 (omega arith))
      (best_of_lem ctx (counters s.in_flight ctx.pool_len) s.offset h low small)
