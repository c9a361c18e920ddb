-- ===== src/App/Inner.antt =====
-- apigate-core/src/app: what else the builder keeps (mod.rs, build.rs), the shared state and the
-- renderer of errors, and the `Inner` that `build` makes of both parts of the builder, less the
-- client and the table of routes.
pub mod State
use apigate.Prelude.{ℕ}
use apigate.Str.{Str}
use apigate.Http.{Http}
use apigate.Error.{FrameworkError}
use apigate.Pipeline.{TypeMap}
use apigate.App.{AppBuilder}
use apigate.Dispatch
use apigate.Dispatch.{Answer}

module _ (http : Http) (xxh3_64 : Str → ℕ) (map : TypeMap) (Body : Type 0) where
  abbrev A : Type 0
  A = Answer http xxh3_64 Body map.Extensions

  pub record Shared : Type 0 where
    pub state : map.Extensions
    pub error_renderer : FrameworkError → A

  -- `http::Extensions::new()`, and the default renderer
  abbrev pub new_shared : map.Extensions → (FrameworkError → A) → Shared
  new_shared empty default_error_renderer = record {
    state = empty;
    error_renderer = default_error_renderer;
  }

  unfoldable pub state : map.Key → map.Value → Shared → Shared
  state key val b = record b { state = map.insert b.state key val }

  abbrev error_renderer : (FrameworkError → A) → Shared → Shared
  error_renderer renderer b = record b { error_renderer = renderer }

  abbrev pub build_inner {ℓ} :
      {Policy : Type ℓ} {Pipeline : Type 0}
      → map.Extensions
      → AppBuilder Policy Pipeline
      → Shared
      → Dispatch.Inner http xxh3_64 Body map.Extensions
  build_inner empty b shared = record {
    state = shared.state;
    empty = empty;
    map_body_limit = b.map_body_limit;
    error_renderer = shared.error_renderer;
    has_observer = b.has_observer;
  }
