-- ===== src/Gateway.antt =====
-- The parts together: services that the macro expands (apigate-macros/src/lib.rs, route.rs), the
-- table that `build` makes of them (apigate-core/src/app/build.rs), and a request that the router
-- hands to a route of that table (apigate-core/src/app/dispatch.rs, `route_metas[route_idx]`). What
-- a pipeline of the macro may answer itself is a response, and its request scope is the dispatcher's.
use apigate.Prelude.{Bool, List, ℕ, ◌≡◌, Option, some, ok, done, All, All-get_elem?, get_elem?}
use apigate.Str.{Str}
use apigate.Http.{Http, Response}
use apigate.Pipeline.{TypeMap}
use apigate.Facade.{Serde}
use apigate.App.{AppBuilder}
use apigate.App.Build.{Mount, P, Table, build}
use apigate.App.Build.Expanded.{IsExpansion, build-HasTemplate}
use apigate.Dispatch.{
  Meta, Inner, Upstream, Request, balance_ctx, run_pipeline_if_needed, proxy_handler,
}
use apigate.Dispatch.Reports.{Way, proxy_handler-Way, Way-answered}
use apigate.Macros.Args.{Syn}
use apigate.Macros.Codegen.{Env}
use apigate.Macros.Service.{Pipeline}

module _ (http : Http) (xxh3_64 : Str → ℕ) (map_ : TypeMap) (serde : Serde) {Body : Type 0}
    (env : Env http map_ serde Body (Response http.Headers Body)) (syn : Syn)
    (path_of : syn.ItemPath → env.ItemPath) (type_of : syn.Type_ → serde.Ty)
    (accepts : List Mount → Mount → Bool) where
  abbrev Pipe : Type 0
  Pipe = Pipeline http map_ serde env syn path_of type_of

  abbrev M : Type 1
  M = Meta http xxh3_64 Body map_.Extensions

  -- In an application whose services the macro expanded and whose build succeeds, every request to
  -- a route of the table goes one of the ways of the dispatcher and is answered, if the balancer's
  -- pick for it does not panic.
  pub proxy_handler-Way_built :
      (b : AppBuilder (P http xxh3_64 Pipe) Pipe) (table : Table http xxh3_64 Pipe) (route_idx : ℕ)
      (meta : M) (inner : Inner http xxh3_64 Body map_.Extensions)
      (up : Upstream http xxh3_64 Body map_.Extensions meta.policy.balancer.State)
      (parts : Request http xxh3_64 Body map_.Extensions) (body : Body)
      (s : meta.policy.balancer.State) (o : Option ℕ)
      → All (IsExpansion http xxh3_64 map_ serde env syn path_of type_of accepts) b.mounted
      → build http xxh3_64 Pipe accepts b ≡ done (ok table)
      → get_elem? table.route_metas route_idx ≡ some meta
      → (meta.policy.balancer.pick
          (balance_ctx http xxh3_64 Body map_.Extensions meta
            (run_pipeline_if_needed http xxh3_64 Body map_.Extensions inner meta parts body).0)
          s).0
        ≡ done o
      → Way http xxh3_64 Body map_.Extensions inner meta up parts body s o
        × ((a : Response http.Headers Body) × ((proxy_handler http xxh3_64 Body map_.Extensions
                inner meta up parts body s).response
              ≡ done a))
  proxy_handler-Way_built b table i meta inner up parts body s o expanded made there picked =
      let safe =
        build-HasTemplate http xxh3_64 map_ serde env syn path_of type_of accepts b table expanded
          made in
      let way =
        proxy_handler-Way http xxh3_64 Body map_.Extensions inner meta up parts body s o
          (All-get_elem? _ table.route_metas i safe there) picked in
      (way, Way-answered http xxh3_64 Body map_.Extensions inner meta up parts body s o way)
