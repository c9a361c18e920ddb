-- ===== src/Tests/Serving.antt =====
-- The listener, the default observer and runs of balancers.
use apigate.Prelude.{
  In, min, ℕ, ◌≡◌, refl, List, [], ◌∷◌, ◌++◌, true, Option, none, some, All, arith,
}
use apigate.Str.{Str, codes}
use apigate.Error.{FrameworkError, CoreError}
use apigate.Balancing.{BalanceCtx, CandidateSet, candidate_len}
use apigate.Balancing.RoundRobin
use apigate.Balancing.ConsistentHash
use apigate.Balancing.Contract.{Op, choose, start, IsAllowed, run_ops, balancers-IsAllowed}
use apigate.App.Serve.{
  ℤ, pos, ServeConfig, SocketAddr, Domain, Os, Call, bind, listen, from_std, set_nonblocking,
  bind_listener, new_config,
}
use apigate.App.Serve.Listener.{IsPlaced, IsBacklog, Requested, bind_listener-Requested}
use apigate.Observability.{RuntimeEvent, RuntimeEventKind}
use apigate.Observability.Default.{default_tracing_observer}
use apigate.Observability.Default.Levels.{IsDiscreet, default_tracing_observer-IsDiscreet}

abbrev local : SocketAddr
local = record { family = Domain.ipv6; port = 8080 }

abbrev long_queue : ServeConfig
long_queue = record new_config { backlog = some 4294967295 }

abbrev never : Call → Option ℕ
never c = none

bind_listener-Requested_example :
    (before : List Call) × (z : ℤ) × IsPlaced (listen (pos (min 4294967295 2147483647))) before z
    × IsBacklog Os.linux (some 4294967295) z
    × ((b : SocketAddr) → ¬ In (bind b) before)
    × ((bind_listener never Os.linux local long_queue).0
        ≡ before ++ (set_nonblocking true ∷ bind local ∷ listen z ∷ from_std ∷ []))
unfolding bind_listener
bind_listener-Requested_example =
    bind_listener-Requested never Os.linux local long_queue
      (listen (pos (min 4294967295 2147483647))) (Requested.queue 4294967295 refl) refl

abbrev failed : RuntimeEvent Str
failed = record {
  service = codes "shop";
  route_path = codes "/items";
  kind = RuntimeEventKind.dispatch_failed (FrameworkError.core CoreError.no_backends);
}

default_tracing_observer-IsDiscreet_example :
    All
      (IsDiscreet (λ u. u) (λ u. none) (λ t. true))
      (default_tracing_observer (λ (u : Str). u) (λ u. none) (λ t. true) failed)
default_tracing_observer-IsDiscreet_example =
    default_tracing_observer-IsDiscreet (λ (u : Str). u) (λ u. none) (λ t. true) failed

abbrev pair : BalanceCtx
pair = record {
  service = codes "shop";
  affinity = none;
  pool_len = 2;
  candidates = CandidateSet.all;
}

abbrev ops : List Op
ops = choose pair ∷ start (record { service = codes "shop"; backend_index = 0 }) ∷ choose pair ∷ []

abbrev first_turn : (RoundRobin.balancer).State
unfolding RoundRobin.balancer
first_turn = record { next = 0 }

abbrev first_offset : (ConsistentHash.balancer (λ s. 77)).State
unfolding ConsistentHash.balancer
first_offset = record { offset = 0 }

balancers-IsAllowed_example :
    All IsAllowed (run_ops RoundRobin.balancer first_turn ops)
    × All IsAllowed (run_ops (ConsistentHash.balancer (λ s. 77)) first_offset ops)
unfolding candidate_len
balancers-IsAllowed_example =
    balancers-IsAllowed (λ s. 77) first_turn first_offset ops (omega arith)
