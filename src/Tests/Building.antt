-- ===== src/Tests/Building.antt =====
-- The builder.
use apigate.Prelude.{some, Bool, true, ℕ, ◌≡◌, refl, List, [], ◌∷◌, none, ok, done}
use apigate.Str.{Str, codes}
use apigate.Backend.{BackendPool}
use apigate.Rewrite.{RewriteSpec}
use apigate.Policy.{new}
use apigate.App.{RouteDef, AppBuilder, Routes, Method, new_builder}
use apigate.App.Build
use apigate.App.Build.{
  BuildError, Mount, Table, resolve_policy, named_policy, rewrite_of, parse_all, build, build_pools,
}
use apigate.App.Build.Causes.{IsCause, build-IsCause}
use apigate.App.Build.Mounting.{IsTable, build-IsTable}
use apigate.Tests.Instance.{small_http, parse_address}
use apigate.Tests.Gateway.{hash}

abbrev shop_routes : Routes ℕ
shop_routes = record {
  service = codes "shop";
  prefix = codes "/shop";
  policy = none;
  routes =
      record {
        method = Method.get;
        path = codes "/items/{id}";
        rewrite = RewriteSpec.strip_prefix;
        policy = none;
        pipeline = none;
      }
      ∷ [];
}

abbrev builder : AppBuilder (Build.P small_http hash ℕ) ℕ
builder = record (new_builder (Build.P small_http hash ℕ) ℕ (new small_http hash)) {
  backends = (codes "shop", codes "10.0.0.1" ∷ []) ∷ [];
  mounted = shop_routes ∷ [];
}

abbrev pools : List (Str × BackendPool small_http)
pools =
    (
      codes "shop",
      record {
        backends =
            record {
              base = record {
                scheme = codes "http";
                authority = codes "10.0.0.1";
                prefix = codes "http://10.0.0.1";
                host_header = codes "10.0.0.1";
              };
            }
            ∷ [];
      },
    )
    ∷ []

-- A router that takes every path.
abbrev takes_all : List Mount → Mount → Bool
takes_all mounts m = true

built :
    (table : Table small_http hash ℕ) × (build small_http hash ℕ takes_all builder
      ≡ done (ok table))
unfolding build parse_address
built = (_, refl)

build-IsTable_example :
    (made : List (Str × BackendPool small_http)) × (build_pools small_http hash ℕ builder.backends
      ≡ ok made)
    × IsTable small_http hash ℕ takes_all made built.0
build-IsTable_example = build-IsTable small_http hash ℕ takes_all builder built.0 built.1

abbrev asking : RouteDef ℕ
asking = record {
  method = Method.get;
  path = codes "/items";
  rewrite = RewriteSpec.strip_prefix;
  policy = some (codes "unknown");
  pipeline = none;
}

-- The route asks for a policy that is not registered, though its service asks for one that is.
abbrev asking_routes : Routes ℕ
asking_routes = record {
  service = codes "shop";
  prefix = codes "/shop";
  policy = some (codes "known");
  routes = asking ∷ [];
}

abbrev failing : AppBuilder (Build.P small_http hash ℕ) ℕ
failing = record builder {
  policies = (codes "known", new small_http hash) ∷ [];
  mounted = asking_routes ∷ [];
}

build-IsCause_example :
    IsCause small_http hash ℕ failing (BuildError.policy_not_registered (codes "unknown"))
unfolding build parse_address
build-IsCause_example =
    build-IsCause small_http hash ℕ takes_all failing
      (BuildError.policy_not_registered (codes "unknown")) refl
