-- ===== src/Tests/Assembly.antt =====
-- A service that the macro expands, mounted and built.
use apigate.Prelude.{
  List, Bool, true, ℕ, ◌≡◌, refl, [], ◌∷◌, All, Option, none, some, ok, done, length, get_elem?,
  false,
}
use apigate.Str.{Str, codes}
use apigate.Policy.{new}
use apigate.App.{AppBuilder, Routes, new_builder}
use apigate.App.Build
use apigate.App.Build.{Mount, Table, build}
use apigate.App.Build.Expanded.{build-HasTemplate}
use apigate.Macros.Args.{assigned}
use apigate.Macros.Service
use apigate.Macros.Service.{ItemMod, Item, expand_service}
use apigate.Proxy.Forward.Rewriting.{HasTemplate}
use apigate.Balancing.RoundRobin
use apigate.Dispatch.{
  Meta, Upstream, balance_ctx, run_pipeline_if_needed, proxy_handler, run_pipeline, PipelineFn,
}
use apigate.Routing.{no_route_key}
use apigate.Dispatch.Reports.{Way}
use apigate.Gateway.{proxy_handler-Way_built}
use apigate.Pipeline
use apigate.Pipeline.{RequestScope}
use apigate.App.Inner.{Shared, new_shared, state, build_inner}
use apigate.App.Inner.State.{register, run_pipeline-state}
use apigate.Tests.Instance.{small_http, parse_address}
use apigate.Tests.Pipelines.{small_map, ctx}
use apigate.Tests.Gateway.{hash}
use apigate.Tests.Expansions.{texts}
use apigate.Tests.Generated.{small_serde, env, small_inner, Answer}

-- `mod shop { #[apigate::get("/items/{id}", to = "/internal/{id}")] async fn item() {} }`
abbrev shop : ItemMod Str
shop = record {
  ident = codes "shop";
  content = some (
      Item.function (codes "item") (
        record {
          segments = codes "apigate" ∷ codes "get" ∷ [];
          literal = some (codes "/items/{id}");
          raws = assigned (codes "to") (codes "/internal/{id}") ∷ [];
        }
        ∷ [])
      ∷ []);
}

abbrev Pipe : Type 0
Pipe = Service.Pipeline small_http small_map small_serde env texts length length

expanded :
    (routes : Routes Pipe) × (expand_service small_http small_map small_serde env texts length
        length [] shop
      ≡ done (ok routes))
unfolding expand_service
expanded = (_, refl)

abbrev builder : AppBuilder (Build.P small_http hash Pipe) Pipe
builder = record (new_builder (Build.P small_http hash Pipe) Pipe (new small_http hash)) {
  backends = (codes "shop", codes "10.0.0.1" ∷ []) ∷ [];
  mounted = expanded.0 ∷ [];
}

-- A router that takes every path.
abbrev takes_all : List Mount → Mount → Bool
takes_all mounts m = true

built :
    (table : Table small_http hash Pipe) × (build small_http hash Pipe takes_all builder
      ≡ done (ok table))
unfolding build parse_address expanded
built = (_, refl)

build-HasTemplate_example : All (λ meta. HasTemplate meta.rewrite) built.0.route_metas
build-HasTemplate_example =
    build-HasTemplate small_http hash small_map small_serde env texts length length takes_all
      builder built.0 (([], shop, expanded.1), tt) built.1

abbrev M : Type 1
M = Meta small_http hash Str (ℕ → Option ℕ)

found : (meta : M) × (get_elem? built.0.route_metas 0 ≡ some meta)
unfolding built expanded build parse_address
found = (_, refl)

abbrev up : Upstream small_http hash Str (ℕ → Option ℕ) found.0.policy.balancer.State
up = record {
  client = λ p b. some (record { status = 200; headers = []; body = codes "ok" });
  is_late = λ p b. false;
  elapsed = 12;
  meanwhile = λ s. s;
}

abbrev turn_state : found.0.policy.balancer.State
unfolding RoundRobin.balancer found built expanded build parse_address
turn_state = record { next = 5 }

picked :
    (found.0.policy.balancer.pick
      (balance_ctx small_http hash Str
        (ℕ → Option ℕ)
        found.0
        (run_pipeline_if_needed small_http hash Str
          (ℕ → Option ℕ)
          small_inner
          found.0
          ctx.parts
          (codes "{}")).0)
      turn_state).0
    ≡ done (some 0)
unfolding RoundRobin.balancer turn_state found balance_ctx no_route_key
picked = refl

proxy_handler-Way_built_example :
    Way small_http hash Str
      (ℕ → Option ℕ)
      small_inner
      found.0
      up
      ctx.parts
      (codes "{}")
      turn_state
      (some 0)
    × ((a : Answer) × ((proxy_handler small_http hash Str
            (ℕ → Option ℕ)
            small_inner
            found.0
            up
            ctx.parts
            (codes "{}")
            turn_state).response
          ≡ done a))
proxy_handler-Way_built_example =
    proxy_handler-Way_built small_http hash small_map small_serde env texts length length takes_all
      builder built.0 0 found.0 small_inner up ctx.parts (codes "{}") turn_state (some 0)
      (([], shop, expanded.1), tt) built.1 found.1 picked

-- A pipeline whose hook passes when it finds the value of type 4, with it for a body.
abbrev reads_state : PipelineFn small_http hash Str (ℕ → Option ℕ)
reads_state c sc =
    (c.parts, ok (elim (Pipeline.get small_map sc 4) [ none ↦ [] | some v ↦ v ∷ [] ]))

abbrev at_start : Shared small_http hash small_map Str
at_start = new_shared small_http hash small_map Str (λ k. none) small_inner.error_renderer

run_pipeline-state_example :
    (sc : RequestScope Str (ℕ → Option ℕ)) × (run_pipeline small_http hash Str
        (ℕ → Option ℕ)
        (build_inner small_http hash small_map Str
          (λ k. none)
          builder
          (register small_http hash small_map Str
            ((5, 1) ∷ [])
            (state small_http hash small_map Str 4 9 at_start)))
        found.0
        (some reads_state)
        ctx.parts
        (codes "{}")
      ≡ reads_state
          (record { service = found.0.service; route_path = found.0.route_path; parts = ctx.parts })
          sc)
    × (Pipeline.get small_map sc 4 ≡ some 9)
    × (sc.body ≡ some (codes "{}"))
    × (sc.body_limit ≡ builder.map_body_limit)
run_pipeline-state_example =
    run_pipeline-state small_http hash small_map Str (λ k. none) builder at_start 4 9 ((5, 1) ∷ [])
      found.0 reads_state ctx.parts (codes "{}") refl refl (refl, tt)
