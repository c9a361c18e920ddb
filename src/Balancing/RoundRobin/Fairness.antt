-- ===== src/Balancing/RoundRobin/Fairness.antt =====
-- Round robin picks candidates in turn.
use apigate.Prelude.{
  ℕ, zero, suc, ◌+◌, ◌%◌, ◌<◌, ◌≤◌, ◌≡◌, sym, ap, List, [], ◌∷◌, Option, some, true, arith, ==_ne,
  get_elem?, ◌∙◌,
}
use native.Mathlib.Nat.{mod-lt, mod-eq_of_lt}
use apigate.Balancing.{BalanceCtx, candidate_len, candidate_index, is_candidate}
use apigate.Balancing.Words.{
  turn, turn-lt, turn_lem, turn_unique, word, incr, candidate_index-some,
  is_candidate-candidate_index,
}
use apigate.Balancing.RoundRobin.{RoundRobin, pick}

pick-some :
    (ctx : BalanceCtx) (s : RoundRobin)
    → 0 < candidate_len ctx
    → pick ctx s
      ≡ (candidate_index ctx (s.next % candidate_len ctx), record s { next = incr s.next })
unfolding pick
pick-some ctx s h = rw (==_ne (candidate_len ctx) 0 (omega arith))

-- Where there is a candidate, round robin picks an index of the candidate set, whatever its counter
-- is.
pub pick-is_candidate :
    (ctx : BalanceCtx) (s : RoundRobin)
    → 0 < candidate_len ctx
    → (i : ℕ) × ((pick ctx s).0 ≡ some i) × (is_candidate ctx i ≡ true)
pick-is_candidate ctx s h =
    let (i, there) = candidate_index-some ctx (s.next % candidate_len ctx) (mod-lt s.next h) in
    (i, ap (λ p. p.0) (pick-some ctx s h) ∙ there, is_candidate-candidate_index ctx _ i there)

-- The picks of `n` requests in a row.
pub picks : BalanceCtx → RoundRobin → ℕ → List (Option ℕ)
unfolding pick
picks ctx s zero = []
picks ctx s (suc n) = (pick ctx s).0 ∷ picks ctx (pick ctx s).1 n

-- While the counter does not wrap, the pick number `k` is the candidate at the position
-- `(next + k) % len`.
get_elem?-picks :
    (ctx : BalanceCtx) (s : RoundRobin) (n k : ℕ)
    → 0 < candidate_len ctx
    → s.next + n ≤ word
    → k < n
    → get_elem? (picks ctx s n) k ≡ some (candidate_index ctx ((s.next + k) % candidate_len ctx))
unfolding picks
get_elem?-picks ctx s zero k h low less = elim less [ ]
get_elem?-picks ctx s (suc n) zero h low less =
    let at : s.next + 0 ≡ s.next = omega arith in rw at (ap (λ p. some (p.0)) (pick-some ctx s h))
get_elem?-picks ctx s (suc n) (suc k) h low less =
    let step : (pick ctx s).1 ≡ record s { next = s.next + 1 } =
      ap (λ p. p.1) (pick-some ctx s h)
      ∙ ap (λ m. record s { next = m }) (last s n low (omega arith)) in
    let at : s.next + suc k ≡ s.next + 1 + k = omega arith in
    rw step (
      rw at
        (get_elem?-picks ctx (record s { next = s.next + 1 }) n k h (omega arith) (omega arith)))
  where
    last : (s : RoundRobin) (n : ℕ) → s.next + suc n ≤ word → 0 < n → incr s.next ≡ s.next + 1
    last s n low less = mod-eq_of_lt (omega arith)

-- Round robin is fair: while the counter does not wrap, in as many requests in a row as there are
-- candidates each position is picked at one round and at no other.
pub picks_fair :
    (ctx : BalanceCtx) (s : RoundRobin) (p : ℕ)
    → p < candidate_len ctx
    → s.next + candidate_len ctx ≤ word
    → (k : ℕ) × (k < candidate_len ctx)
      × (get_elem? (picks ctx s (candidate_len ctx)) k ≡ some (candidate_index ctx p))
      × ((j : ℕ) → j < candidate_len ctx → (s.next + j) % candidate_len ctx ≡ p → j ≡ k)
picks_fair ctx s p h low =
    let len = candidate_len ctx in
    let k = turn s.next len p in
    let below : k < len = turn-lt s.next len p (omega arith) in
    let round = turn_lem s.next len p h in
    (
      k,
      below,
      get_elem?-picks ctx s len k (omega arith) low below ∙ rw round,
      λ j hj e. turn_unique s.next len j k hj below (e ∙ sym round),
    )
