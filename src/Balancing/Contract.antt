-- ===== src/Balancing/Contract.antt =====
-- What a balancer promises to the dispatcher, whatever requests come and go: an abstract balancer
-- that the round robin and the consistent hash of apigate-core/src/balancing implement.
use apigate.Prelude.{
  ℕ, ◌≡◌, refl, ◌<◌, List, [], ◌∷◌, Option, none, some, Run, done, true, ◌==◌, All, Bool-cases,
  ==_iff, ap, false, arith, inl, inr,
}
use apigate.Str.{Str}
use apigate.Balancing.{BalanceCtx, StartEvent, ResultEvent, Balancer, candidate_len, is_candidate}
use apigate.Balancing.RoundRobin
use apigate.Balancing.RoundRobin.Fairness.{pick-is_candidate}
use apigate.Balancing.ConsistentHash
use apigate.Balancing.ConsistentHash.Picks.{pick-is_candidate_hash}

-- What may be picked: any candidate, and nothing only where there is none. Never a panic.
pub data Allowed (ctx : BalanceCtx) : Run (Option ℕ) → Type 0 where
  nothing : candidate_len ctx ≡ 0 → Allowed ctx (done none)
  candidate : (i : ℕ) → is_candidate ctx i ≡ true → Allowed ctx (done (some i))

-- The laws of a balancer that keeps the promise for pools of less than 2^32 candidates.
pub record Chooser (b : Balancer) : Type 1 where
  pub IsValid : b.State → Type 0
  pub picks :
      (ctx : BalanceCtx) (s : b.State)
      → candidate_len ctx < 4294967296
      → IsValid s
      → Allowed ctx (b.pick ctx s).0
  pub pick-IsValid : (ctx : BalanceCtx) (s : b.State) → IsValid s → IsValid (b.pick ctx s).1
  pub start-IsValid : (e : StartEvent) (s : b.State) → IsValid s → IsValid (b.on_start e s)
  pub result-IsValid : (e : ResultEvent) (s : b.State) → IsValid s → IsValid (b.on_result e s)

-- What the dispatcher does to a balancer, in any order.
pub data Op : Type 0 where
  choose : BalanceCtx → Op
  start : StartEvent → Op
  result : ResultEvent → Op

abbrev pub IsSmall : Op → Type 0
IsSmall (choose ctx) = candidate_len ctx < 4294967296
IsSmall (start e) = Unit
IsSmall (result e) = Unit

-- Each choice of a run, with what was picked.
abbrev pub Picked : Type 0
Picked = BalanceCtx × Run (Option ℕ)

pub run_ops : (b : Balancer) → b.State → List Op → List Picked
run_ops b s [] = []
run_ops b s (choose ctx ∷ ops) = (ctx, (b.pick ctx s).0) ∷ run_ops b (b.pick ctx s).1 ops
run_ops b s (start e ∷ ops) = run_ops b (b.on_start e s) ops
run_ops b s (result e ∷ ops) = run_ops b (b.on_result e s) ops

abbrev pub IsAllowed : Picked → Type 0
IsAllowed p = Allowed p.0 p.1

-- A balancer with the laws keeps the promise over every run.
pub run_ops-IsAllowed :
    (b : Balancer) (c : Chooser b) (s : b.State) (ops : List Op)
    → c.IsValid s
    → All IsSmall ops
    → All IsAllowed (run_ops b s ops)
unfolding run_ops
run_ops-IsAllowed b c s [] valid small = tt
run_ops-IsAllowed b c s (choose ctx ∷ ops) valid (low, small) = (
  c.picks ctx s low valid,
  run_ops-IsAllowed b c (b.pick ctx s).1 ops (c.pick-IsValid ctx s valid) small,
)
run_ops-IsAllowed b c s (start e ∷ ops) valid (_, small) =
    run_ops-IsAllowed b c (b.on_start e s) ops (c.start-IsValid e s valid) small
run_ops-IsAllowed b c s (result e ∷ ops) valid (_, small) =
    run_ops-IsAllowed b c (b.on_result e s) ops (c.result-IsValid e s valid) small

Allowed-some :
    (ctx : BalanceCtx) {r : Run (Option ℕ)} (i : ℕ)
    → r ≡ done (some i)
    → is_candidate ctx i ≡ true
    → Allowed ctx r
Allowed-some ctx i e h = rw e (candidate i h)

Allowed-none :
    (ctx : BalanceCtx) {r : Run (Option ℕ)} → r ≡ done none → candidate_len ctx ≡ 0 → Allowed ctx r
Allowed-none ctx e h = rw e (nothing h)

round_robin_none :
    (ctx : BalanceCtx) (s : RoundRobin.RoundRobin)
    → (candidate_len ctx == 0) ≡ true
    → (RoundRobin.pick ctx s).0 ≡ none
unfolding RoundRobin.pick
round_robin_none ctx s h = rw h refl

consistent_hash_none :
    (xxh3_64 : Str → ℕ) (ctx : BalanceCtx) (s : ConsistentHash.ConsistentHash)
    → (candidate_len ctx == 0) ≡ true
    → (ConsistentHash.pick xxh3_64 ctx s).0 ≡ done none
unfolding ConsistentHash.pick
consistent_hash_none xxh3_64 ctx s h = rw h refl

some_left : (ctx : BalanceCtx) → (candidate_len ctx == 0) ≡ false → 0 < candidate_len ctx
some_left ctx h = ground arith

round_robin_picks :
    (ctx : BalanceCtx) (s : RoundRobin.RoundRobin) → Allowed ctx (done (RoundRobin.pick ctx s).0)
round_robin_picks ctx s = elim (Bool-cases (candidate_len ctx == 0)) [
  | inl empty ↦
      Allowed-none ctx (ap done (round_robin_none ctx s empty))
        ((==_iff (candidate_len ctx) 0).0 empty)
  | inr more ↦
      let (i, e, h) = pick-is_candidate ctx s (some_left ctx more) in
      Allowed-some ctx i (ap done e) h
]

consistent_hash_picks :
    (xxh3_64 : Str → ℕ) (ctx : BalanceCtx) (s : ConsistentHash.ConsistentHash)
    → candidate_len ctx < 4294967296
    → Allowed ctx (ConsistentHash.pick xxh3_64 ctx s).0
consistent_hash_picks xxh3_64 ctx s low = elim (Bool-cases (candidate_len ctx == 0)) [
  | inl empty ↦
      Allowed-none ctx (consistent_hash_none xxh3_64 ctx s empty)
        ((==_iff (candidate_len ctx) 0).0 empty)
  | inr more ↦
      let (i, e, h) = pick-is_candidate_hash xxh3_64 ctx s (some_left ctx more) low in
      Allowed-some ctx i e h
]

abbrev round_robin_chooser : Chooser RoundRobin.balancer
unfolding RoundRobin.balancer
round_robin_chooser = record {
  IsValid = λ s. Unit {0};
  picks = λ ctx s low valid. round_robin_picks ctx s;
  pick-IsValid = λ ctx s valid. tt;
  start-IsValid = λ e s valid. tt;
  result-IsValid = λ e s valid. tt;
}

abbrev consistent_hash_chooser : (xxh3_64 : Str → ℕ) → Chooser (ConsistentHash.balancer xxh3_64)
unfolding ConsistentHash.balancer
consistent_hash_chooser xxh3_64 = record {
  IsValid = λ s. Unit {0};
  picks = λ ctx s low valid. consistent_hash_picks xxh3_64 ctx s low;
  pick-IsValid = λ ctx s valid. tt;
  start-IsValid = λ e s valid. tt;
  result-IsValid = λ e s valid. tt;
}

-- Over every run of choices, starts and results, from any state, the round robin and the consistent
-- hash do what the abstract balancer allows, on pools of less than 2^32 candidates: they pick a
-- candidate where there is one and nothing where there is none, without a panic.
pub balancers-IsAllowed :
    (xxh3_64 : Str → ℕ) (s : (RoundRobin.balancer).State)
    (t : (ConsistentHash.balancer xxh3_64).State) (ops : List Op)
    → All IsSmall ops
    → All IsAllowed (run_ops RoundRobin.balancer s ops)
      × All IsAllowed (run_ops (ConsistentHash.balancer xxh3_64) t ops)
unfolding RoundRobin.balancer ConsistentHash.balancer
balancers-IsAllowed xxh3_64 s t ops small = (
  run_ops-IsAllowed RoundRobin.balancer round_robin_chooser s ops tt small,
  run_ops-IsAllowed (ConsistentHash.balancer xxh3_64) (consistent_hash_chooser xxh3_64) t ops tt
      small,
)
