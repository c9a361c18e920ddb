-- ===== src/Route.antt =====
-- apigate-core/src/route.rs: the metadata of a mounted route. The type of its generated pipeline is
-- a parameter; the policy is shared, so its balancer's state is not part of the metadata.
use apigate.Prelude.{ℕ, Option}
use apigate.Str.{Str}
use apigate.Http.{Http}
use apigate.Backend.{BackendPool}
use apigate.Rewrite.{Rewrite}
use apigate.Policy.{Policy}

module _ (http : Http) (xxh3_64 : Str → ℕ) (Pipeline : Type 0) where
  pub record RouteMeta : Type 1 where
    pub service : Str
    pub route_path : Str
    pub prefix : Str
    pub rewrite : Rewrite http.PathAndQuery
    pub pool : BackendPool http
    pub policy : Policy http xxh3_64
    pub pipeline : Option Pipeline
