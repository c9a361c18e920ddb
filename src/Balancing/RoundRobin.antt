-- ===== src/Balancing/RoundRobin.antt =====
-- apigate-core/src/balancing/round_robin.rs
pub mod Fairness
use apigate.Prelude.{done, ℕ, ◌%◌, Option, none, some, ◌==◌, if◌then◌else◌}
use apigate.Balancing.{
  BalanceCtx, StartEvent, ResultEvent, Balancer, candidate_len, candidate_index,
}
use apigate.Balancing.Words.{incr}

pub record RoundRobin : Type 0 where
  pub next : ℕ

unfoldable pub new : RoundRobin
new = record { next = 0 }

unfoldable pub pick : BalanceCtx → RoundRobin → Option ℕ × RoundRobin
unfolding candidate_len candidate_index
pick ctx s =
    if candidate_len ctx == 0
    then (none, s)
    else (candidate_index ctx (s.next % candidate_len ctx), record s { next = incr s.next })

-- The trait's default `on_start` and `on_result` do nothing.
unfoldable pub balancer : Balancer
unfolding pick
balancer = record {
  State = RoundRobin;
  pick = λ ctx s. (done (pick ctx s).0, (pick ctx s).1);
  on_start = λ _ s. s;
  on_result = λ _ s. s;
}
