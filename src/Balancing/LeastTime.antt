-- ===== src/Balancing/LeastTime.antt =====
-- apigate-core/src/balancing/least_time.rs. Latencies are in microseconds, in 64-bit words; `0`
-- stands for a backend with no observed response.
pub mod Average
use apigate.Prelude.{
  done, ℕ, zero, suc, ◌+◌, ◌-◌, ◌/◌, ◌%◌, List, [], ◌∷◌, Option, none, some, ◌==◌, if◌then◌else◌,
  length, get_elem?, set, replicate,
}
use apigate.Balancing.{
  BalanceCtx, ProxyErrorKind, StartEvent, ResultEvent, Balancer, candidate_len, candidate_index,
}
use apigate.Balancing.Words.{word, incr}
use apigate.Balancing.LeastRequest.{best_of, counters}

abbrev ewma_weight : ℕ
ewma_weight = 10

pub record LeastTime : Type 0 where
  pub ewma_us : Option (List ℕ)
  pub offset : ℕ

unfoldable pub new : LeastTime
new = record { ewma_us = none; offset = 0 }

unfoldable pub pick : BalanceCtx → LeastTime → Option ℕ × LeastTime
unfolding best_of counters
pick ctx s =
    if candidate_len ctx == 0
    then (none, s)
    else (let slots = counters s.ewma_us ctx.pool_len in
        (best_of ctx slots s.offset, record { ewma_us = some slots; offset = incr s.offset }))

-- The new average, in `u64`.
pub average : ℕ → ℕ → ℕ
average old sample =
    if old == 0 then sample else (old - old / ewma_weight + sample / ewma_weight) % word

-- The loop of `compare_exchange_weak`. `seen` lists the values that the failed exchanges return;
-- the exchange after them succeeds, with `old` still in the slot.
pub exchange : (old sample : ℕ) → (seen : List ℕ) → ℕ
unfolding average
exchange old sample [] = average old sample
exchange old sample (actual ∷ seen) = exchange actual sample seen

pub store_sample : List ℕ → ℕ → ℕ → List ℕ → Option ℕ → List ℕ
unfolding exchange
store_sample slots idx sample seen none = slots
store_sample slots idx sample seen (some old) = set slots idx (exchange old sample seen)

store_slots : Option (List ℕ) → ℕ → ℕ → List ℕ → Option (List ℕ)
unfolding store_sample
store_slots none idx sample seen = none
store_slots (some slots) idx sample seen =
    some (store_sample slots idx sample seen (get_elem? slots idx))

pub record_result : Option ProxyErrorKind → ResultEvent → List ℕ → LeastTime → LeastTime
unfolding store_slots
record_result (some error) event seen s = s
record_result none event seen s = record s {
  ewma_us = store_slots s.ewma_us event.backend_index (event.head_latency % word) seen;
}

unfoldable pub on_result : ResultEvent → List ℕ → LeastTime → LeastTime
unfolding record_result
on_result event seen s = record_result event.error event seen s

-- With no thread in between, the first exchange succeeds.
unfoldable pub balancer : Balancer
unfolding pick on_result
balancer = record {
  State = LeastTime;
  pick = λ ctx s. (done (pick ctx s).0, (pick ctx s).1);
  on_start = λ _ s. s;
  on_result = λ event s. on_result event [] s;
}
