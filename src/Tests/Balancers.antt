-- ===== src/Tests/Balancers.antt =====
-- The balancers.
use apigate.Prelude.{
  ℕ, zero, suc, ◌≡◌, ◌<◌, ◌≤◌, ◌+◌, ◌%◌, refl, List, [], ◌∷◌, true, none, some, done, arith,
  get_elem?, ◌⊎◌,
}
use apigate.Str.{Str, codes}
use apigate.Balancing.{
  BalanceCtx, CandidateSet, ResultEvent, candidate_len, candidate_index, is_candidate,
}
use apigate.Balancing.Words.{word, word_max}
use apigate.Balancing.RoundRobin.Fairness.{picks, picks_fair}
use apigate.Balancing.ConsistentHash.{jump_consistent_hash}
use apigate.Balancing.ConsistentHash.Jump.{jump_consistent_hash-lt, jump_consistent_hash_grow}
use apigate.Balancing.LeastRequest
use apigate.Balancing.LeastRequest.{LeastRequest, counters, load_or_zero}
use apigate.Balancing.LeastRequest.Minimal.{cost, pick_minimal}
use apigate.Balancing.LeastRequest.Tracking.{started, finished, report, report_in_flight, in_slots}
use apigate.Balancing.LeastTime
use apigate.Balancing.LeastTime.{LeastTime, average}
use apigate.Balancing.LeastTime.Average.{IsAverage, last_seen, on_result_slots, pick_lowest}

-- Three backends, of which the last two are candidates.
abbrev shop : BalanceCtx
shop = record {
  service = codes "shop";
  affinity = some (record { text = codes "user-7" });
  pool_len = 3;
  candidates = CandidateSet.indices (2 ∷ 1 ∷ []);
}

abbrev hash : Str → ℕ
hash s = 77

two_candidates : candidate_len shop ≡ 2
unfolding candidate_len
two_candidates = refl

picks_fair_example :
    (k : ℕ) × (k < candidate_len shop)
    × (get_elem? (picks shop (record { next = 5 }) (candidate_len shop)) k
        ≡ some (candidate_index shop 1))
    × ((j : ℕ) → j < candidate_len shop → (5 + j) % candidate_len shop ≡ 1 → j ≡ k)
unfolding candidate_len
picks_fair_example = picks_fair shop (record { next = 5 }) 1 (omega arith) (omega arith)

jump_consistent_hash-lt_example : (r : ℕ) × (jump_consistent_hash 77 3 ≡ done (some r)) × (r < 3)
jump_consistent_hash-lt_example = jump_consistent_hash-lt 77 3 (omega arith) (omega arith)

jump_consistent_hash_grow_example :
    (jump_consistent_hash 77 4 ≡ done (some 1)) ⊎ (jump_consistent_hash 77 4 ≡ done (some 3))
unfolding jump_consistent_hash
jump_consistent_hash_grow_example =
    jump_consistent_hash_grow 77 3 1 (omega arith) (omega arith) refl

report_in_flight_example :
    (slots : List ℕ) × (report
        (started (record { service = codes "shop"; backend_index = 1 })
          ∷ started (record { service = codes "shop"; backend_index = 1 })
          ∷ finished (record {
            service = codes "shop";
            backend_index = 1;
            status = some 200;
            error = none;
            head_latency = 5;
          })
          ∷ [])
        (in_slots (0 ∷ 0 ∷ []) 0)
      ≡ in_slots slots 0)
    × (get_elem? slots 1 ≡ some 1)
report_in_flight_example =
    report_in_flight
      (started (record { service = codes "shop"; backend_index = 1 })
        ∷ started (record { service = codes "shop"; backend_index = 1 })
        ∷ finished (record {
          service = codes "shop";
          backend_index = 1;
          status = some 200;
          error = none;
          head_latency = 5;
        })
        ∷ [])
      (0 ∷ 0 ∷ []) 0 1 refl (omega arith) (omega arith)

small : (idx : ℕ) → cost (counters (some (3 ∷ 5 ∷ 4 ∷ [])) 3) idx < word_max
unfolding counters cost load_or_zero
small zero = omega arith
small (suc zero) = omega arith
small (suc (suc zero)) = omega arith
small (suc (suc (suc idx))) = omega arith

pick_minimal_example :
    (b : ℕ) × ((LeastRequest.pick shop (record { in_flight = some (3 ∷ 5 ∷ 4 ∷ []); offset = 6 })).0
      ≡ some b)
    × (is_candidate shop b ≡ true)
    × ((p idx : ℕ)
        → p < candidate_len shop
        → candidate_index shop p ≡ some idx
        → cost (counters (some (3 ∷ 5 ∷ 4 ∷ [])) 3) b
          ≤ cost (counters (some (3 ∷ 5 ∷ 4 ∷ [])) 3) idx)
unfolding candidate_len
pick_minimal_example =
    pick_minimal shop (record { in_flight = some (3 ∷ 5 ∷ 4 ∷ []); offset = 6 }) (omega arith)
      (omega arith) (λ idx h. small idx)

pick_lowest_example :
    (b : ℕ) × ((LeastTime.pick shop (record { ewma_us = some (3 ∷ 5 ∷ 4 ∷ []); offset = 6 })).0
      ≡ some b)
    × (is_candidate shop b ≡ true)
    × ((p idx : ℕ)
        → p < candidate_len shop
        → candidate_index shop p ≡ some idx
        → cost (counters (some (3 ∷ 5 ∷ 4 ∷ [])) 3) b
          ≤ cost (counters (some (3 ∷ 5 ∷ 4 ∷ [])) 3) idx)
unfolding candidate_len
pick_lowest_example =
    pick_lowest shop (record { ewma_us = some (3 ∷ 5 ∷ 4 ∷ []); offset = 6 }) (omega arith)
      (omega arith) (λ idx h. small idx)

abbrev fast : ResultEvent
fast = record {
  service = codes "shop";
  backend_index = 1;
  status = some 200;
  error = none;
  head_latency = 100;
}

on_result_slots_example :
    (after : List ℕ) × (LeastTime.on_result fast
        (7 ∷ [])
        (record { ewma_us = some (3 ∷ 5 ∷ 4 ∷ []); offset = 6 })
      ≡ record { ewma_us = some after; offset = 6 })
    × ((new : ℕ) × (get_elem? after 1 ≡ some new)
        × IsAverage (last_seen 5 (7 ∷ [])) (fast.head_latency % word) new)
    × ((j : ℕ) → (1 ≡ j) ⊎ (get_elem? after j ≡ get_elem? (3 ∷ 5 ∷ 4 ∷ []) j))
on_result_slots_example = on_result_slots fast (7 ∷ []) (3 ∷ 5 ∷ 4 ∷ []) 6 5 refl refl (omega arith)
