-- ===== src/Policy.antt =====
-- apigate-core/src/policy.rs: a policy is a routing strategy with a balancer.
use apigate.Prelude.{ℕ}
use apigate.Str.{Str}
use apigate.Http.{Http}
use apigate.Balancing.{Balancer}
use apigate.Balancing.RoundRobin
use apigate.Balancing.ConsistentHash
use apigate.Balancing.LeastRequest
use apigate.Balancing.LeastTime
use apigate.Routing.{RouteStrategy, no_route_key, header_sticky, path_sticky}

module _ (http : Http) (xxh3_64 : Str → ℕ) where
  pub record Policy : Type 1 where
    pub router : RouteStrategy http
    pub balancer : Balancer

  abbrev pub new : Policy
  new = record { router = no_route_key http; balancer = RoundRobin.balancer }

  abbrev with_router : Policy → RouteStrategy http → Policy
  with_router policy router = record { router = router; balancer = policy.balancer }

  abbrev with_balancer : Policy → Balancer → Policy
  with_balancer policy balancer = record { router = policy.router; balancer = balancer }

  abbrev pub sticky_by_header : Str → Policy
  sticky_by_header header =
      with_balancer (with_router new (header_sticky http header)) (ConsistentHash.balancer xxh3_64)

  abbrev pub sticky_by_path : Str → Policy
  sticky_by_path param =
      with_balancer (with_router new (path_sticky http param)) (ConsistentHash.balancer xxh3_64)

  abbrev pub consistent_hash : Policy
  consistent_hash = with_balancer new (ConsistentHash.balancer xxh3_64)

  abbrev pub least_request : Policy
  least_request = with_balancer new LeastRequest.balancer

  abbrev pub least_time : Policy
  least_time = with_balancer new LeastTime.balancer

  abbrev pub round_robin : Policy
  round_robin = with_balancer new RoundRobin.balancer
