-- ===== src/App/Build/Mounting.antt =====
-- The table of routes that a build makes.
use apigate.Prelude.{
  Bool, ℕ, ◌≡◌, refl, List, [], ◌∷◌, Option, none, some, Result, ok, err, done, run_then-ok,
  run_bind-done, done-ok_inj, get_elem?, All, All-append, All-map, get_elem?-append_left,
  get_elem?-append_last,
}
use mathlib.Core.Path.{subst}
use apigate.Str.{Str}
use apigate.Http.{Http}
use apigate.Backend.{BackendPool}
use apigate.App.{RouteDef, Routes, AppBuilder, lookup}
use apigate.App.Build.{
  BuildError, join, resolve_policy, Mount, P, Meta, Table, rewrite_of, meta_of, mount_of,
  push_route, routed-ok, mount_route, mount_each, mount_routes, mount_service_routes, mount_all,
  mount_on_pools, build, build_pools,
}

module _ (http : Http) (xxh3_64 : Str → ℕ) (Pipeline : Type 0)
    (accepts : List Mount → Mount → Bool) where
  abbrev M : Type 1
  M = Meta http xxh3_64 Pipeline

  abbrev T : Type 1
  T = Table http xxh3_64 Pipeline

  abbrev Q : Type 1
  Q = P http xxh3_64 Pipeline

  abbrev Pools : Type 0
  Pools = List (Str × BackendPool http)

  -- What is mounted has the metadata of its route at its index.
  abbrev IsMounted : List M → Mount → Type 1
  IsMounted metas m =
      (meta : M) × (get_elem? metas m.route_idx ≡ some meta)
      × (m.full_path ≡ join meta.prefix meta.route_path)

  -- A route has the pool of its service.
  abbrev HasPool : Pools → M → Type 0
  HasPool pools meta = lookup pools meta.service ≡ some meta.pool

  pub record IsTable (pools : Pools) (table : T) : Type 1 where
    pub mounted : All (IsMounted table.route_metas) table.mounts
    pub pooled : All (HasPool pools) table.route_metas

  push_route-IsTable :
      (pools : Pools) (table : T) (routes : Routes Pipeline) (rd : RouteDef Pipeline) (meta : M)
      → meta.prefix ≡ routes.prefix
      → meta.route_path ≡ rd.path
      → HasPool pools meta
      → IsTable pools table
      → IsTable pools (push_route http xxh3_64 Pipeline table routes rd meta)
  unfolding push_route mount_of
  push_route-IsTable pools table routes rd meta prefix path pool h = record {
    mounted =
        All-append _ _ _
          (All-map _ _ table.mounts
            (λ m (meta', there, at).
              (meta', get_elem?-append_left table.route_metas _ m.route_idx there, at))
            h.mounted)
          ((meta, get_elem?-append_last table.route_metas meta, rw (prefix, path) refl), tt);
    pooled = All-append _ _ _ h.pooled (pool, tt);
  }

  mount_route-IsTable :
      (pools : Pools) (routes : Routes Pipeline) (rd : RouteDef Pipeline) (pool : BackendPool http)
      (table table' : T) (policy : Result BuildError Q)
      → lookup pools routes.service ≡ some pool
      → IsTable pools table
      → mount_route http xxh3_64 Pipeline accepts routes rd pool table policy ≡ done (ok table')
      → IsTable pools table'
  unfolding mount_route meta_of
  mount_route-IsTable pools routes rd pool table table' (err e) found h made = cc
  mount_route-IsTable pools routes rd pool table table' (ok policy) found h made =
      let (rewrite, _, made') =
        run_bind-done (rewrite_of http xxh3_64 Pipeline rd.rewrite) _ _ made in
      let meta = meta_of http xxh3_64 Pipeline routes rd pool policy rewrite in
      subst (IsTable pools) (routed-ok http xxh3_64 Pipeline _ _ _ made')
        (push_route-IsTable pools table routes rd meta refl refl found h)

  mount_each-IsTable :
      (pools : Pools) (routes : Routes Pipeline) (rds : List (RouteDef Pipeline))
      (policies : List (Str × Q)) (fallback : Q) (pool : BackendPool http) (table table' : T)
      → lookup pools routes.service ≡ some pool
      → IsTable pools table
      → mount_each http xxh3_64 Pipeline accepts routes rds policies fallback pool table
        ≡ done (ok table')
      → IsTable pools table'
  unfolding mount_each
  mount_each-IsTable pools routes [] policies fallback pool table table' found h made =
      subst (IsTable pools) (done-ok_inj _ _ made) h
  mount_each-IsTable pools routes (rd ∷ rds) policies fallback pool table table' found h made =
      let policy = resolve_policy routes.policy rd.policy policies fallback in
      let (next, here, later) =
        run_then-ok (mount_route http xxh3_64 Pipeline accepts routes rd pool table policy) _ _
          made in
      mount_each-IsTable pools routes rds policies fallback pool next table' found
        (mount_route-IsTable pools routes rd pool table next policy found h here) later

  mount_service-IsTable :
      (pools : Pools) (routes : Routes Pipeline) (found : Option (BackendPool http))
      (policies : List (Str × Q)) (fallback : Q) (table table' : T)
      → lookup pools routes.service ≡ found
      → IsTable pools table
      → mount_service_routes http xxh3_64 Pipeline accepts routes found policies fallback table
        ≡ done (ok table')
      → IsTable pools table'
  unfolding mount_service_routes mount_routes
  mount_service-IsTable pools routes none policies fallback table table' e h made = cc
  mount_service-IsTable pools routes (some pool) policies fallback table table' e h made =
      mount_each-IsTable pools routes routes.routes policies fallback pool table table' e h made

  mount_all-IsTable :
      (pools : Pools) (mounted : List (Routes Pipeline)) (policies : List (Str × Q)) (fallback : Q)
      (table table' : T)
      → IsTable pools table
      → mount_all http xxh3_64 Pipeline accepts mounted pools policies fallback table
        ≡ done (ok table')
      → IsTable pools table'
  unfolding mount_all
  mount_all-IsTable pools [] policies fallback table table' h made =
      subst (IsTable pools) (done-ok_inj _ _ made) h
  mount_all-IsTable pools (routes ∷ mounted) policies fallback table table' h made =
      let found = lookup pools routes.service in
      let (next, here, later) =
        run_then-ok
          (mount_service_routes http xxh3_64 Pipeline accepts routes found policies fallback table)
          _ _ made in
      mount_all-IsTable pools mounted policies fallback next table'
        (mount_service-IsTable pools routes found policies fallback table next refl h here) later

  mount_on_pools-IsTable :
      (b : AppBuilder Q Pipeline) (r : Result BuildError Pools) (table : T)
      → mount_on_pools http xxh3_64 Pipeline accepts b r ≡ done (ok table)
      → (pools : Pools) × (r ≡ ok pools) × IsTable pools table
  unfolding mount_on_pools
  mount_on_pools-IsTable b (err e) table made = cc
  mount_on_pools-IsTable b (ok pools) table made = (
    pools,
    refl,
    mount_all-IsTable pools b.mounted b.policies b.default_policy _ table
        (record { mounted = tt; pooled = tt }) made,
  )

  -- A build that succeeds made the pools, and its table is sound: what is mounted on the router
  -- closes over an index of the table, it is mounted at the joined prefix and path of the route
  -- there, and each route has the pool of its service.
  pub build-IsTable :
      (b : AppBuilder Q Pipeline) (table : T)
      → build http xxh3_64 Pipeline accepts b ≡ done (ok table)
      → (pools : Pools) × (build_pools http xxh3_64 Pipeline b.backends ≡ ok pools)
        × IsTable pools table
  unfolding build
  build-IsTable b table made =
      mount_on_pools-IsTable b (build_pools http xxh3_64 Pipeline b.backends) table made
