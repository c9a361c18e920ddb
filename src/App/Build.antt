-- ===== src/App/Build.antt =====
-- apigate-core/src/app/build.rs: `build`, the mounting of routes, and the fallback of policies. The
-- router of axum is the list of what is mounted on it, and which paths it takes is a parameter. `PathAndQuery::from_static` panics on a target that is none.
pub mod Paths
pub mod Mounting
pub mod Registered
pub mod Causes
pub mod Expanded
use apigate.Prelude.{
  ℕ, ◌≡◌, Bool, true, false, List, [], ◌∷◌, ◌++◌, Option, none, some, Result, ok, err, ok_or,
  map_err, ◌>>=◌, Run, done, panic, out_of_fuel, run_bind, run_then, or_panic, length, or_else,
  if◌then◌else◌,
}
use apigate.Str
use apigate.Str.{Str}
use apigate.Http.{Http}
use apigate.Backend.{BaseUri, BaseUriParseError, BackendPool, new_pool, parse}
use apigate.Rewrite.{RewriteSpec, Rewrite, FixedRewrite}
use apigate.Policy.{Policy}
use apigate.Route.{RouteMeta}
use apigate.App.{Method, RouteDef, Routes, AppBuilder, lookup}

pub data BuildError : Type 0 where
  invalid_backend_uri : (service url : Str) (source : BaseUriParseError) → BuildError
  backend_not_registered : (service : Str) → BuildError
  policy_not_registered : (name : Str) → BuildError

pub join : Str → Str → Str
unfolding Str.ends_with Str.starts_with Str.trim_end_matches
join prefix path =
    (if Str.ends_with prefix b'/' then Str.trim_end_matches b'/' prefix else prefix)
    ++ (if Str.starts_with path b'/' then path else b'/' ∷ path)

module _ {ℓ} {P : Type ℓ} where
  unfoldable pub named_policy : Option Str → List (Str × P) → P → Result BuildError P
  unfolding lookup
  named_policy none registry fallback = ok fallback
  named_policy (some name) registry fallback =
      ok_or (lookup registry name) (policy_not_registered name)

  unfoldable pub resolve_policy : Option Str → Option Str → List (Str × P) → P → Result BuildError P
  unfolding named_policy
  resolve_policy service_policy route_policy registry fallback =
      named_policy (or_else route_policy service_policy) registry fallback

-- What is mounted on the router: the index is the one that the handler closes over.
pub record Mount : Type 0 where
  pub full_path : Str
  pub method : Method
  pub route_idx : ℕ

module _ (http : Http) (xxh3_64 : Str → ℕ) (Pipeline : Type 0) where
  abbrev pub P : Type 1
  P = Policy http xxh3_64

  abbrev pub Meta : Type 1
  Meta = RouteMeta http xxh3_64 Pipeline

  -- `FixedRewrite::new`
  new_fixed : Str → Run (FixedRewrite http.PathAndQuery)
  new_fixed raw =
      run_bind (or_panic (http.parse_path_and_query raw))
        λ pq. done (record { raw = raw; no_query = pq })

  unfoldable pub rewrite_of : RewriteSpec → Run (Rewrite http.PathAndQuery)
  unfolding new_fixed
  rewrite_of RewriteSpec.strip_prefix = done Rewrite.strip_prefix
  rewrite_of (RewriteSpec.fixed to) = run_bind (new_fixed to) λ f. done (Rewrite.fixed f)
  rewrite_of (RewriteSpec.template tpl) = done (Rewrite.template tpl)

  -- The router and the table of routes, which `mount_routes` extends.
  pub record Table : Type 1 where
    pub mounts : List Mount
    pub route_metas : List Meta

  pub meta_of :
      Routes Pipeline → RouteDef Pipeline → BackendPool http → P → Rewrite http.PathAndQuery → Meta
  meta_of routes rd pool policy rewrite = record {
    service = routes.service;
    route_path = rd.path;
    prefix = routes.prefix;
    rewrite = rewrite;
    pool = pool;
    policy = policy;
    pipeline = rd.pipeline;
  }

  pub mount_of : Table → Routes Pipeline → RouteDef Pipeline → Mount
  unfolding join
  mount_of table routes rd = record {
    full_path = join routes.prefix rd.path;
    method = rd.method;
    route_idx = length table.route_metas;
  }

  pub push_route : Table → Routes Pipeline → RouteDef Pipeline → Meta → Table
  unfolding mount_of
  push_route table routes rd meta = record {
    mounts = table.mounts ++ mount_of table routes rd ∷ [];
    route_metas = table.route_metas ++ meta ∷ [];
  }

  unfoldable pub parse_all : Str → List Str → Result BuildError (List (BaseUri http))
  unfolding parse
  parse_all svc [] = ok []
  parse_all svc (url ∷ urls) = do
    base ← map_err (invalid_backend_uri svc url) (parse http url)
    bases ← parse_all svc urls
    ok (base ∷ bases)

  -- The pools, in the order in which the map is walked.
  unfoldable pub build_pools :
      List (Str × List Str) → Result BuildError (List (Str × BackendPool http))
  unfolding parse_all new_pool
  build_pools [] = ok []
  build_pools ((svc, urls) ∷ backends) = do
    bases ← parse_all svc urls
    pools ← build_pools backends
    ok ((svc, new_pool http bases) ∷ pools)

  -- `router.route(..)`
  pub routed : Bool → Table → Run (Result BuildError Table)
  routed true table = done (ok table)
  routed false table = panic

  pub routed-ok :
      (b : Bool) (table table' : Table) → routed b table ≡ done (ok table') → table ≡ table'
  unfolding routed
  routed-ok true table table' h = cc
  routed-ok false table table' h = cc

-- Whether the router of axum, with what is mounted on it, takes a path and its method: its `route`
-- panics on a path that it cannot parse, and on one that is there already with the method.
module _ (http : Http) (xxh3_64 : Str → ℕ) (Pipeline : Type 0)
    (accepts : List Mount → Mount → Bool) where
  abbrev T : Type 1
  T = Table http xxh3_64 Pipeline

  abbrev Q : Type 1
  Q = P http xxh3_64 Pipeline

  -- One turn of the loop, from the policy on.
  pub mount_route :
      Routes Pipeline
      → RouteDef Pipeline
      → BackendPool http
      → T
      → Result BuildError Q
      → Run (Result BuildError T)
  unfolding rewrite_of meta_of push_route mount_of routed
  mount_route routes rd pool table (err e) = done (err e)
  mount_route routes rd pool table (ok policy) =
      run_bind (rewrite_of http xxh3_64 Pipeline rd.rewrite) (λ rewrite.
        routed http xxh3_64 Pipeline
          (accepts table.mounts (mount_of http xxh3_64 Pipeline table routes rd))
          (push_route http xxh3_64 Pipeline table routes rd
            (meta_of http xxh3_64 Pipeline routes rd pool policy rewrite)))

  pub mount_each :
      Routes Pipeline
      → List (RouteDef Pipeline)
      → List (Str × Q)
      → Q
      → BackendPool http
      → T
      → Run (Result BuildError T)
  unfolding mount_route resolve_policy
  mount_each routes [] policies fallback pool table = done (ok table)
  mount_each routes (rd ∷ rds) policies fallback pool table =
      run_then
        (mount_route routes rd pool table
          (resolve_policy routes.policy rd.policy policies fallback))
        (λ table'. mount_each routes rds policies fallback pool table')

  pub mount_routes :
      T → Routes Pipeline → List (Str × Q) → Q → BackendPool http → Run (Result BuildError T)
  unfolding mount_each
  mount_routes table routes policies fallback pool =
      mount_each routes routes.routes policies fallback pool table

  pub mount_service_routes :
      Routes Pipeline
      → Option (BackendPool http)
      → List (Str × Q)
      → Q
      → T
      → Run (Result BuildError T)
  unfolding mount_routes
  mount_service_routes routes none policies fallback table =
      done (err (backend_not_registered routes.service))
  mount_service_routes routes (some pool) policies fallback table =
      mount_routes table routes policies fallback pool

  pub mount_all :
      List (Routes Pipeline)
      → List (Str × BackendPool http)
      → List (Str × Q)
      → Q
      → T
      → Run (Result BuildError T)
  unfolding mount_service_routes lookup
  mount_all [] pools policies fallback table = done (ok table)
  mount_all (routes ∷ mounted) pools policies fallback table =
      run_then (mount_service_routes routes (lookup pools routes.service) policies fallback table)
        (λ table'. mount_all mounted pools policies fallback table')

  pub mount_on_pools :
      AppBuilder Q Pipeline
      → Result BuildError (List (Str × BackendPool http))
      → Run (Result BuildError T)
  unfolding mount_all
  mount_on_pools b (err e) = done (err e)
  mount_on_pools b (ok pools) =
      mount_all b.mounted pools b.policies b.default_policy
        (record { mounts = []; route_metas = [] })

  unfoldable pub build : AppBuilder Q Pipeline → Run (Result BuildError T)
  unfolding mount_on_pools build_pools
  build b = mount_on_pools b (build_pools http xxh3_64 Pipeline b.backends)
