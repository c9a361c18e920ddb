-- ===== src/App/Build/Expanded.antt =====
-- The rewrites of a table that is built of services which the macro expanded.
use apigate.Prelude.{
  Bool, ℕ, ◌≡◌, sym, ◌∙◌, List, [], ◌∷◌, Option, none, some, Result, ok, err, Run, done, run_bind,
  run_then-ok, run_bind-done, done-ok_inj, done_inj, All, All-append, All-map,
}
use mathlib.Core.Path.{subst}
use apigate.Str.{Str}
use apigate.Http.{Http}
use apigate.Backend.{BackendPool}
use apigate.Pipeline.{TypeMap}
use apigate.Facade.{Serde}
use apigate.Rewrite.{RewriteSpec, Rewrite, FixedRewrite}
use apigate.App.{RouteDef, Routes, AppBuilder, lookup}
use apigate.App.Build.{
  BuildError, Mount, resolve_policy, P, Meta, Table, rewrite_of, meta_of, push_route, routed-ok,
  mount_route, mount_each, mount_routes, mount_service_routes, mount_all, mount_on_pools, build,
  build_pools,
}
use apigate.Proxy.Forward.Rewriting.{HasTemplate}
use apigate.Macros.Args.{Syn}
use apigate.Macros.Codegen.{Env}
use apigate.Macros.Service.{ItemMod, Pipeline, expand_service}
use apigate.Macros.Service.Sound.{IsSoundSpec, expand_service-IsSound}

fixed-HasTemplate :
    {P : Type 0} (r : Run (FixedRewrite P)) (rewrite : Rewrite P)
    → run_bind r (λ f. done (Rewrite.fixed f)) ≡ done rewrite
    → HasTemplate rewrite
fixed-HasTemplate r rewrite made =
    let (f, _, made') = run_bind-done r _ _ made in
    subst HasTemplate (done_inj {a = Rewrite.fixed f} made') tt

rewrite_of-HasTemplate :
    (http : Http) (xxh3_64 : Str → ℕ) (Pipe : Type 0) (spec : RewriteSpec)
    (rewrite : Rewrite http.PathAndQuery)
    → IsSoundSpec spec
    → rewrite_of http xxh3_64 Pipe spec ≡ done rewrite
    → HasTemplate rewrite
unfolding rewrite_of
rewrite_of-HasTemplate http xxh3_64 Pipe RewriteSpec.strip_prefix rewrite h made =
    subst HasTemplate (done_inj {a = Rewrite.strip_prefix} made) tt
rewrite_of-HasTemplate http xxh3_64 Pipe (RewriteSpec.fixed to) rewrite h made =
    fixed-HasTemplate _ rewrite made
rewrite_of-HasTemplate http xxh3_64 Pipe (RewriteSpec.template tpl) rewrite h made =
    subst HasTemplate (done_inj made) h

module _ (http : Http) (xxh3_64 : Str → ℕ) (Pipe : Type 0)
    (accepts : List Mount → Mount → Bool) where
  abbrev M : Type 1
  M = Meta http xxh3_64 Pipe

  abbrev T : Type 1
  T = Table http xxh3_64 Pipe

  abbrev IsSafe : M → Type 0
  IsSafe meta = HasTemplate meta.rewrite

  abbrev AreSafe : T → Type 0
  AreSafe table = All IsSafe table.route_metas

  abbrev IsSoundDef : RouteDef Pipe → Type 0
  IsSoundDef rd = IsSoundSpec rd.rewrite

  abbrev pub AreSoundDefs : Routes Pipe → Type 0
  AreSoundDefs routes = All IsSoundDef routes.routes

  mount_route-AreSafe :
      (routes : Routes Pipe) (rd : RouteDef Pipe) (pool : BackendPool http) (table table' : T)
      (policy : Result BuildError (P http xxh3_64 Pipe))
      → IsSoundDef rd
      → AreSafe table
      → mount_route http xxh3_64 Pipe accepts routes rd pool table policy ≡ done (ok table')
      → AreSafe table'
  unfolding mount_route push_route meta_of
  mount_route-AreSafe routes rd pool table table' (err e) sound h made = cc
  mount_route-AreSafe routes rd pool table table' (ok policy) sound h made =
      let (rewrite, here, made') =
        run_bind-done (rewrite_of http xxh3_64 Pipe rd.rewrite) _ _ made in
      subst AreSafe (routed-ok http xxh3_64 Pipe _ _ _ made') (
        All-append IsSafe table.route_metas _ h
          (rewrite_of-HasTemplate http xxh3_64 Pipe rd.rewrite rewrite sound here, tt))

  mount_each-AreSafe :
      (routes : Routes Pipe) (rds : List (RouteDef Pipe))
      (policies : List (Str × P http xxh3_64 Pipe)) (fallback : P http xxh3_64 Pipe)
      (pool : BackendPool http) (table table' : T)
      → All IsSoundDef rds
      → AreSafe table
      → mount_each http xxh3_64 Pipe accepts routes rds policies fallback pool table
        ≡ done (ok table')
      → AreSafe table'
  unfolding mount_each
  mount_each-AreSafe routes [] policies fallback pool table table' sound h made =
      subst AreSafe (done-ok_inj _ _ made) h
  mount_each-AreSafe routes (rd ∷ rds) policies fallback pool table table' sound h made =
      let policy = resolve_policy routes.policy rd.policy policies fallback in
      let (next, here, later) =
        run_then-ok (mount_route http xxh3_64 Pipe accepts routes rd pool table policy) _ _ made in
      mount_each-AreSafe routes rds policies fallback pool next table' sound.1
        (mount_route-AreSafe routes rd pool table next policy sound.0 h here) later

  mount_service-AreSafe :
      (routes : Routes Pipe) (found : Option (BackendPool http))
      (policies : List (Str × P http xxh3_64 Pipe)) (fallback : P http xxh3_64 Pipe)
      (table table' : T)
      → AreSoundDefs routes
      → AreSafe table
      → mount_service_routes http xxh3_64 Pipe accepts routes found policies fallback table
        ≡ done (ok table')
      → AreSafe table'
  unfolding mount_service_routes mount_routes
  mount_service-AreSafe routes none policies fallback table table' sound h made = cc
  mount_service-AreSafe routes (some pool) policies fallback table table' sound h made =
      mount_each-AreSafe routes routes.routes policies fallback pool table table' sound h made

  mount_all-AreSafe :
      (pools : List (Str × BackendPool http)) (mounted : List (Routes Pipe))
      (policies : List (Str × P http xxh3_64 Pipe)) (fallback : P http xxh3_64 Pipe)
      (table table' : T)
      → All AreSoundDefs mounted
      → AreSafe table
      → mount_all http xxh3_64 Pipe accepts mounted pools policies fallback table ≡ done (ok table')
      → AreSafe table'
  unfolding mount_all
  mount_all-AreSafe pools [] policies fallback table table' sound h made =
      subst AreSafe (done-ok_inj _ _ made) h
  mount_all-AreSafe pools (routes ∷ mounted) policies fallback table table' sound h made =
      let found = lookup pools routes.service in
      let (next, here, later) =
        run_then-ok
          (mount_service_routes http xxh3_64 Pipe accepts routes found policies fallback table) _ _
          made in
      mount_all-AreSafe pools mounted policies fallback next table' sound.1
        (mount_service-AreSafe routes found policies fallback table next sound.0 h here) later

  mount_on_pools-AreSafe :
      (b : AppBuilder (P http xxh3_64 Pipe) Pipe)
      (r : Result BuildError (List (Str × BackendPool http))) (table : T)
      → All AreSoundDefs b.mounted
      → mount_on_pools http xxh3_64 Pipe accepts b r ≡ done (ok table)
      → AreSafe table
  unfolding mount_on_pools
  mount_on_pools-AreSafe b (err e) table sound made = cc
  mount_on_pools-AreSafe b (ok pools) table sound made =
      mount_all-AreSafe pools b.mounted b.policies b.default_policy _ table sound tt made

module _ (http : Http) (xxh3_64 : Str → ℕ) (map_ : TypeMap) (serde : Serde) {Body Custom : Type 0}
    (env : Env http map_ serde Body Custom) (syn : Syn) (path_of : syn.ItemPath → env.ItemPath)
    (type_of : syn.Type_ → serde.Ty) (accepts : List Mount → Mount → Bool) where
  abbrev Pipe : Type 0
  Pipe = Pipeline http map_ serde env syn path_of type_of

  -- Routes that the macro made of some module.
  abbrev pub IsExpansion : Routes Pipe → Type 0
  IsExpansion routes =
      (raws : List (Str × syn.Tokens)) × (m : ItemMod syn.Tokens) × (expand_service http map_ serde
          env syn path_of type_of raws m
        ≡ done (ok routes))

  IsExpansion-AreSoundDefs :
      (routes : Routes Pipe) → IsExpansion routes → AreSoundDefs http xxh3_64 Pipe accepts routes
  IsExpansion-AreSoundDefs routes (raws, m, made) =
      let (q, ends, sound) =
        expand_service-IsSound http map_ serde env syn path_of type_of raws m in
      sound routes (done_inj (sym ends ∙ made))

  -- In the table of a build that succeeds, of services that the macro expanded, the template of
  -- every route with one refers only to captures that its source makes and records its static
  -- length.
  pub build-HasTemplate :
      (b : AppBuilder (P http xxh3_64 Pipe) Pipe) (table : Table http xxh3_64 Pipe)
      → All IsExpansion b.mounted
      → build http xxh3_64 Pipe accepts b ≡ done (ok table)
      → All (λ meta. HasTemplate meta.rewrite) table.route_metas
  unfolding build
  build-HasTemplate b table expanded made =
      mount_on_pools-AreSafe http xxh3_64 Pipe accepts b (build_pools http xxh3_64 Pipe b.backends)
        table (All-map IsExpansion _ b.mounted IsExpansion-AreSoundDefs expanded) made
