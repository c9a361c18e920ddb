-- ===== src/App.antt =====
-- apigate-core/src/app: the route tables that the macros emit (lib.rs), the builder with its setters
-- (build.rs), and `UpstreamConfig` (upstream.rs) less its hooks into the client library. Durations
-- are in milliseconds. A hash map is an association list with one entry for a key.
pub mod Build
pub mod Serve
pub mod Client
pub mod Inner
use apigate.Prelude.{
  ℕ, ◌*◌, ◌+◌, List, [], ◌∷◌, ◌++◌, Bool, true, false, Option, none, some, if◌then◌else◌,
}
use apigate.Str
use apigate.Str.{Str}
use apigate.Rewrite.{RewriteSpec}

pub data Method : Type 0 where
  get post put delete patch head options : Method

pub record RouteDef (Pipeline : Type 0) : Type 0 where
  pub method : Method
  pub path : Str
  pub rewrite : RewriteSpec
  pub policy : Option Str
  pub pipeline : Option Pipeline

pub record Routes (Pipeline : Type 0) : Type 0 where
  pub service : Str
  pub prefix : Str
  pub policy : Option Str
  pub routes : List (RouteDef Pipeline)

pub record UpstreamConfig : Type 0 where
  pub connect_timeout : ℕ
  pub pool_idle_timeout : ℕ
  pub pool_max_idle_per_host : ℕ
  pub tcp_nodelay : Bool

abbrev new_upstream : UpstreamConfig
new_upstream = record {
  connect_timeout = 5000;
  pool_idle_timeout = 90000;
  pool_max_idle_per_host = 18446744073709551615;
  tcp_nodelay = true;
}

-- `map.get(key)` and `map.insert(key, value)`
unfoldable pub lookup {ℓ} : {A : Type ℓ} → List (Str × A) → Str → Option A
unfolding Str.eq
lookup [] key = none
lookup ((k, a) ∷ entries) key =
    let rest = lookup entries key in if Str.eq k key then some a else rest

unfoldable pub insert {ℓ} : {A : Type ℓ} → List (Str × A) → Str → A → List (Str × A)
unfolding Str.eq
insert [] key a = (key, a) ∷ []
insert ((k, b) ∷ entries) key a =
    let rest = insert entries key a in if Str.eq k key then (k, a) ∷ entries else (k, b) ∷ rest

-- The builder; the policies, the shared state and the renderer are of types that are parameters.
module _ {ℓ} (Policy : Type ℓ) (Pipeline : Type 0) where
  pub record AppBuilder : Type ℓ where
    pub backends : List (Str × List Str)
    pub mounted : List (Routes Pipeline)
    pub policies : List (Str × Policy)
    pub default_policy : Policy
    pub request_timeout : ℕ
    pub upstream : UpstreamConfig
    pub map_body_limit : ℕ
    pub has_observer : Bool

  -- `AppBuilder::new`, at the round-robin policy
  abbrev pub new_builder : Policy → AppBuilder
  new_builder round_robin = record {
    backends = [];
    mounted = [];
    policies = [];
    default_policy = round_robin;
    request_timeout = 30000;
    upstream = new_upstream;
    map_body_limit = 2 * 1024 * 1024;
    has_observer = false;
  }

  unfoldable pub backend : Str → List Str → AppBuilder → AppBuilder
  unfolding insert
  backend service urls b = record b { backends = insert b.backends service urls }

  unfoldable pub policy : Str → Policy → AppBuilder → AppBuilder
  unfolding insert
  policy name p b = record b { policies = insert b.policies name p }

  abbrev pub default_policy : Policy → AppBuilder → AppBuilder
  default_policy p b = record b { default_policy = p }

  abbrev pub request_timeout : ℕ → AppBuilder → AppBuilder
  request_timeout d b = record b { request_timeout = d }

  abbrev connect_timeout : ℕ → AppBuilder → AppBuilder
  connect_timeout d b = record b { upstream = record b.upstream { connect_timeout = d } }

  abbrev pool_idle_timeout : ℕ → AppBuilder → AppBuilder
  pool_idle_timeout d b = record b { upstream = record b.upstream { pool_idle_timeout = d } }

  abbrev pool_max_idle_per_host : ℕ → AppBuilder → AppBuilder
  pool_max_idle_per_host n b = record b {
    upstream = record b.upstream { pool_max_idle_per_host = n };
  }

  abbrev pub upstream : UpstreamConfig → AppBuilder → AppBuilder
  upstream config b = record b { upstream = config }

  abbrev pub map_body_limit : ℕ → AppBuilder → AppBuilder
  map_body_limit bytes b = record b { map_body_limit = bytes }

  abbrev enable_default_tracing : AppBuilder → AppBuilder
  enable_default_tracing b = record b { has_observer = true }

  -- The observer itself is not kept.
  abbrev runtime_observer : AppBuilder → AppBuilder
  runtime_observer b = record b { has_observer = true }

  abbrev disable_runtime_observer : AppBuilder → AppBuilder
  disable_runtime_observer b = record b { has_observer = false }

  abbrev mount : Routes Pipeline → AppBuilder → AppBuilder
  mount routes b = record b { mounted = b.mounted ++ routes ∷ [] }

  unfoldable mount_service : Routes Pipeline → List Str → AppBuilder → AppBuilder
  unfolding insert
  mount_service routes urls b = record b {
    backends = insert b.backends routes.service urls;
    mounted = b.mounted ++ routes ∷ [];
  }
