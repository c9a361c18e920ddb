-- ===== src/Balancing/LeastRequest.antt =====
-- apigate-core/src/balancing/least_request.rs, and the scan that it shares with
-- apigate-core/src/balancing/least_time.rs: `latencies` and `counters` are read the same way. The
-- reads of one scan see one state of the counters.
pub mod Minimal
pub mod Tracking
use apigate.Prelude.{
  done, ℕ, zero, suc, ◌+◌, ◌-◌, ◌%◌, List, [], ◌∷◌, Option, none, some, ltb, ◌==◌, if◌then◌else◌,
  length, get_elem?, set, replicate,
}
use apigate.Balancing.{
  BalanceCtx, StartEvent, ResultEvent, Balancer, candidate_len, candidate_index,
}
use apigate.Balancing.Words.{word, word_max, incr}

-- `slots.get(idx).map(load).unwrap_or(0)`
unfoldable pub load_or_zero : Option ℕ → ℕ
load_or_zero none = 0
load_or_zero (some n) = n

-- The two variables of the scan.
pub record Best : Type 0 where
  pub index : Option ℕ
  pub count : ℕ

-- One candidate of the scan: `if count < best_count`.
pub consider : List ℕ → Best → Option ℕ → Best
unfolding load_or_zero
consider counters best none = best
consider counters best (some idx) =
    let count = load_or_zero (get_elem? counters idx) in
    if ltb count best.count then record { index = some idx; count = count } else best

-- `for i in 0..len`: `rounds` of them are left, and `i` counts up; `offset + i` wraps.
pub scan : BalanceCtx → List ℕ → (offset rounds i : ℕ) → Best → Best
unfolding consider candidate_index candidate_len
scan ctx counters offset zero i best = best
scan ctx counters offset (suc rounds) i best =
    scan ctx counters offset rounds (i + 1)
      (consider counters best (candidate_index ctx ((offset + i) % word % candidate_len ctx)))

unfoldable pub best_of : BalanceCtx → List ℕ → ℕ → Option ℕ
unfolding scan
best_of ctx counters offset =
    (scan ctx counters offset (candidate_len ctx) 0
      (record { index = none; count = word_max })).index

-- `in_flight` is filled once, with a zero for each backend of the pool.
pub record LeastRequest : Type 0 where
  pub in_flight : Option (List ℕ)
  pub offset : ℕ

unfoldable pub new : LeastRequest
new = record { in_flight = none; offset = 0 }

-- `in_flight.get_or_init(…)`
unfoldable pub counters : Option (List ℕ) → ℕ → List ℕ
counters none pool_len = replicate pool_len 0
counters (some slots) pool_len = slots

unfoldable pub pick : BalanceCtx → LeastRequest → Option ℕ × LeastRequest
unfolding best_of counters
pick ctx s =
    if candidate_len ctx == 0
    then (none, s)
    else (let slots = counters s.in_flight ctx.pool_len in
        (best_of ctx slots s.offset, record { in_flight = some slots; offset = incr s.offset }))

-- `counter.fetch_add(1)` and `counter.fetch_sub(1)`, which wrap around.
pub bump : (ℕ → ℕ) → List ℕ → ℕ → Option ℕ → List ℕ
bump f slots idx none = slots
bump f slots idx (some n) = set slots idx (f n)

bump_slots : (ℕ → ℕ) → Option (List ℕ) → ℕ → Option (List ℕ)
unfolding bump
bump_slots f none idx = none
bump_slots f (some slots) idx = some (bump f slots idx (get_elem? slots idx))

abbrev pub decr : ℕ → ℕ
decr n = (n + word_max) % word

pub on_start : StartEvent → LeastRequest → LeastRequest
unfolding bump_slots
on_start event s = record s { in_flight = bump_slots incr s.in_flight event.backend_index }

unfoldable pub on_result : ResultEvent → LeastRequest → LeastRequest
unfolding bump_slots
on_result event s = record s { in_flight = bump_slots decr s.in_flight event.backend_index }

unfoldable pub balancer : Balancer
unfolding pick on_start on_result
balancer = record {
  State = LeastRequest;
  pick = λ ctx s. (done (pick ctx s).0, (pick ctx s).1);
  on_start = on_start;
  on_result = on_result;
}
