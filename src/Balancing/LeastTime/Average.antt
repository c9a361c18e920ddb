-- ===== src/Balancing/LeastTime/Average.antt =====
-- The running average, and the pick of the backend with the lowest one.
use apigate.Prelude.{
  ℕ, zero, suc, ◌+◌, ◌-◌, ◌/◌, ◌%◌, ◌⊎◌, ==_refl, ◌<◌, ◌≤◌, ◌≡◌, refl, ap, ◌∙◌, List, [], ◌∷◌,
  Option, none, some, true, arith, ◌==◌, ==_ne, if◌then◌else◌, get_elem?, min, max, Bool-cases, inl,
  inr, get_elem?-some→lt, get_elem?-set_self, get_elem?-set_ne, ==_iff,
}
use apigate.Balancing.{BalanceCtx, ResultEvent, candidate_len, candidate_index, is_candidate}
use apigate.Balancing.Words.{word, word_max}
use apigate.Balancing.LeastRequest.{counters}
use apigate.Balancing.LeastRequest.Minimal.{cost, best_of_lem}
use apigate.Balancing.LeastTime.{LeastTime, pick, average, exchange, store_sample, on_result}

-- The average of words lies between a positive old average and the sample, and does not overflow; the
-- first sample of a backend is taken as it is.
pub average_bounds :
    (old sample : ℕ)
    → old < word
    → sample < word
    → 0 < old
    → (min old sample ≤ average old sample)
      × (average old sample ≤ max old sample)
      × (average 0 sample ≡ sample)
unfolding average
average_bounds old sample h k pos = (ground arith, ground arith, refl)

-- The value in the slot when the exchange succeeds.
abbrev pub last_seen : ℕ → List ℕ → ℕ
last_seen old [] = old
last_seen old (actual ∷ seen) = last_seen actual seen

exchange_lem :
    (old sample : ℕ) (seen : List ℕ)
    → exchange old sample seen ≡ average (last_seen old seen) sample
unfolding exchange
exchange_lem old sample [] = refl
exchange_lem old sample (actual ∷ seen) = exchange_lem actual sample seen

store_sample_lem :
    (slots : List ℕ) (idx j sample : ℕ) (seen : List ℕ) (o : Option ℕ)
    → get_elem? slots idx ≡ o
    → get_elem? (store_sample slots idx sample seen o) j ≡ (
        if idx == j
        then mathlib.Core.Option.map (λ old. average (last_seen old seen) sample) o
        else get_elem? slots j)
unfolding store_sample
store_sample_lem slots idx j sample seen none e = elim (Bool-cases (idx == j)) [
  | inl same ↦ let here = (==_iff idx j).0 same in rw same (rw (← here) e)
  | inr other ↦ rw other
]
store_sample_lem slots idx j sample seen (some old) e = elim (Bool-cases (idx == j)) [
  | inl same ↦
      let here = (==_iff idx j).0 same in
      rw same (
        rw (← here) (
          get_elem?-set_self slots idx _ (get_elem?-some→lt slots idx e)
          ∙ ap some (exchange_lem old sample seen)))
  | inr other ↦ rw other (get_elem?-set_ne slots idx j _ (λ h. ground arith))
]

-- The new average of a sample: a first sample is taken as it is, and a later one moves the old
-- average by a tenth of both, each rounded down, which stays between the two.
abbrev pub IsAverage : ℕ → ℕ → ℕ → Type 0
IsAverage old sample new =
    ((old ≡ 0) × (new ≡ sample))
    ⊎ ((0 < old)
        × (new ≡ old - old / 10 + sample / 10)
        × (min old sample ≤ new)
        × (new ≤ max old sample))

average-IsAverage :
    (old sample : ℕ) → old < word → sample < word → IsAverage old sample (average old sample)
unfolding average
average-IsAverage zero sample h k = inl (refl, refl)
average-IsAverage (suc n) sample h k =
    let (low, high, _) = average_bounds (suc n) sample h k (omega arith) in
    inr (omega arith, ground arith, low, high)

-- A success replaces the average of its backend, as the last failed exchange saw it, by the new
-- one, and no other, whatever exchanges fail before its own, if what is in the slot is a word.
pub on_result_slots :
    (event : ResultEvent) (seen : List ℕ) (slots : List ℕ) (offset old : ℕ)
    → event.error ≡ none
    → get_elem? slots event.backend_index ≡ some old
    → last_seen old seen < word
    → (after : List ℕ) × (on_result event seen (record { ewma_us = some slots; offset = offset })
        ≡ record { ewma_us = some after; offset = offset })
      × ((new : ℕ) × (get_elem? after event.backend_index ≡ some new)
          × IsAverage (last_seen old seen) (event.head_latency % word) new)
      × ((j : ℕ) → (event.backend_index ≡ j) ⊎ (get_elem? after j ≡ get_elem? slots j))
unfolding on_result
on_result_slots event seen slots offset old fine there small =
    let idx = event.backend_index in
    let sample = event.head_latency % word in
    let at = λ (j : ℕ). store_sample_lem slots idx j sample seen (get_elem? slots idx) refl in
    (
      store_sample slots idx sample seen (get_elem? slots idx),
      rw fine refl,
      (
        average (last_seen old seen) sample,
        at idx ∙ rw (==_refl idx) (rw there refl),
        average-IsAverage (last_seen old seen) sample small (omega arith),
      ),
      λ j. elim (Bool-cases (idx == j)) [
        | inl same ↦ inl ((==_iff idx j).0 same)
        | inr other ↦ inr (at j ∙ rw other)
      ],
    )

-- Least time picks a candidate with the lowest average, where a backend that was never observed
-- counts as 0: with at least one candidate, an offset that does not wrap during the scan and
-- averages below the largest word.
pub pick_lowest :
    (ctx : BalanceCtx) (s : LeastTime)
    → 0 < candidate_len ctx
    → s.offset + candidate_len ctx ≤ word
    → ((idx : ℕ)
        → is_candidate ctx idx ≡ true
        → cost (counters s.ewma_us ctx.pool_len) idx < word_max)
    → (b : ℕ) × ((pick ctx s).0 ≡ some b)
      × (is_candidate ctx b ≡ true)
      × ((p idx : ℕ)
          → p < candidate_len ctx
          → candidate_index ctx p ≡ some idx
          → cost (counters s.ewma_us ctx.pool_len) b ≤ cost (counters s.ewma_us ctx.pool_len) idx)
unfolding pick
pick_lowest ctx s h low small =
    rw (==_ne (candidate_len ctx) 0 (omega arith))
      (best_of_lem ctx (counters s.ewma_us ctx.pool_len) s.offset h low small)
