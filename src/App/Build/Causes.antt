-- ===== src/App/Build/Causes.antt =====
-- Why a build fails.
use apigate.Prelude.{
  ℕ, ◌≡◌, refl, ◌∙◌, ap, List, [], ◌∷◌, Bool, true, false, Option, none, some, sym, or_else,
  In-append_left, Result, ok, err, Run, done, ◌⊎◌, inl, inr, In, run_then-err, run_bind-done,
}
use mathlib.Core.Path.{subst}
use apigate.Str.{Str}
use apigate.Http.{Http}
use apigate.Backend.{BackendPool, parse}
use apigate.App.Build.Registered.{keys, lookup-none, ok_or-err, build_pools-err, build_pools-keys}
use apigate.App.{RouteDef, Routes, AppBuilder, lookup}
use apigate.App.Build.{
  BuildError, Mount, invalid_backend_uri, backend_not_registered, policy_not_registered,
  resolve_policy, named_policy, P, Table, rewrite_of, routed, mount_route, mount_each, mount_routes,
  mount_service_routes, mount_all, mount_on_pools, build, build_pools,
}

done-err_inj {ℓ} :
    {A : Type ℓ} {d e : BuildError}
    → ◌≡◌ {A = Run (Result BuildError A)} (done (err d)) (done (err e))
    → d ≡ e
done-err_inj h = cc

-- The policy that a route asks for by name: its own, or else the one of its service.
abbrev pub Asks : {Pipeline : Type 0} → Routes Pipeline → RouteDef Pipeline → Str → Type 0
Asks routes rd name = (rd.policy ≡ some name) ⊎ ((rd.policy ≡ none) × (routes.policy ≡ some name))

module _ (http : Http) (xxh3_64 : Str → ℕ) (Pipeline : Type 0) where
  abbrev Q : Type 1
  Q = P http xxh3_64 Pipeline

  abbrev T : Type 1
  T = Table http xxh3_64 Pipeline

  abbrev Pools : Type 0
  Pools = List (Str × BackendPool http)

  -- Why a build of this builder fails with the error: a URL of a service that does not parse; a
  -- mounted service for which no backends are registered; or a route of a mounted service that asks
  -- for a policy which is not registered.
  abbrev pub IsCause : AppBuilder Q Pipeline → BuildError → Type 0
  IsCause b (invalid_backend_uri service url source) =
      (urls : List Str) × In (service, urls) b.backends
      × In url urls
      × (parse http url ≡ err source)
  IsCause b (backend_not_registered service) =
      (routes : Routes Pipeline) × In routes b.mounted
      × (routes.service ≡ service)
      × ¬ In service (keys b.backends)
  IsCause b (policy_not_registered name) =
      (routes : Routes Pipeline) × In routes b.mounted
      × (rd : RouteDef Pipeline) × In rd routes.routes
      × Asks routes rd name
      × ¬ In name (keys b.policies)

  named_policy-err :
      (name : Option Str) (registry : List (Str × Q)) (fallback : Q) (e : BuildError)
      → named_policy name registry fallback ≡ err e
      → (asked : Str) × (name ≡ some asked)
        × (¬ In asked (keys registry))
        × (e ≡ policy_not_registered asked)
  unfolding named_policy
  named_policy-err none registry fallback e h = cc
  named_policy-err (some name) registry fallback e h =
      let (absent, same) = ok_or-err (lookup registry name) _ h in
      (name, refl, lookup-none registry name absent, same)

  or_else-Asks :
      (routes : Routes Pipeline) (rd : RouteDef Pipeline) (name : Str) (own : Option Str)
      → rd.policy ≡ own
      → or_else own routes.policy ≡ some name
      → Asks routes rd name
  or_else-Asks routes rd name none plain asked = inr (plain, asked)
  or_else-Asks routes rd name (some own) its asked = inl (its ∙ asked)

  -- A route that asks for a policy which is not registered.
  abbrev IsUnregistered :
      List (Str × Q) → Routes Pipeline → List (RouteDef Pipeline) → BuildError → Type 0
  IsUnregistered policies routes rds e =
      (name : Str) × (rd : RouteDef Pipeline) × In rd rds
      × Asks routes rd name
      × (¬ In name (keys policies))
      × (e ≡ policy_not_registered name)

  resolve_policy-err :
      (routes : Routes Pipeline) (rd : RouteDef Pipeline) (policies : List (Str × Q)) (fallback : Q)
      (e : BuildError)
      → resolve_policy routes.policy rd.policy policies fallback ≡ err e
      → IsUnregistered policies routes (rd ∷ []) e
  unfolding resolve_policy
  resolve_policy-err routes rd policies fallback e h =
      let (name, asked, absent, same) = named_policy-err _ policies fallback e h in
      (name, rd, inl refl, or_else-Asks routes rd name rd.policy refl asked, absent, same)

  module _ (accepts : List Mount → Mount → Bool) where
    routed-err :
        (b : Bool) (table : T) (e : BuildError)
        → ¬ (routed http xxh3_64 Pipeline b table ≡ done (err e))
    unfolding routed
    routed-err true table e h = cc
    routed-err false table e h = cc

    mount_route-err :
        (routes : Routes Pipeline) (rd : RouteDef Pipeline) (pool : BackendPool http) (table : T)
        (policy : Result BuildError Q) (e : BuildError)
        → mount_route http xxh3_64 Pipeline accepts routes rd pool table policy ≡ done (err e)
        → policy ≡ err e
    unfolding mount_route
    mount_route-err routes rd pool table (err d) e h = cc
    mount_route-err routes rd pool table (ok policy) e h =
        let (rewrite, _, h') = run_bind-done (rewrite_of http xxh3_64 Pipeline rd.rewrite) _ _ h in
        absurd (routed-err _ _ e h')

    mount_each-err :
        (routes : Routes Pipeline) (rds : List (RouteDef Pipeline)) (policies : List (Str × Q))
        (fallback : Q) (pool : BackendPool http) (table : T) (e : BuildError)
        → mount_each http xxh3_64 Pipeline accepts routes rds policies fallback pool table
          ≡ done (err e)
        → IsUnregistered policies routes rds e
    unfolding mount_each
    mount_each-err routes [] policies fallback pool table e h = cc
    mount_each-err routes (rd ∷ rds) policies fallback pool table e h =
        let policy = resolve_policy routes.policy rd.policy policies fallback in
        elim (run_then-err (mount_route http xxh3_64 Pipeline accepts routes rd pool table policy) _
          e h) [
            | inl here ↦
                let (name, r, i, asks, absent, same) =
                  resolve_policy-err routes rd policies fallback e
                    (mount_route-err routes rd pool table policy e here) in
                (name, r, In-append_left r (rd ∷ []) rds i, asks, absent, same)
            | inr (next, _, later) ↦
                let (name, r, i, asks, absent, same) =
                  mount_each-err routes rds policies fallback pool next e later in
                (name, r, inr i, asks, absent, same)
          ]

    -- Why services are not mounted.
    abbrev IsUnmounted : Pools → List (Str × Q) → List (Routes Pipeline) → BuildError → Type 0
    IsUnmounted pools policies mounted e =
        (routes : Routes Pipeline) × In routes mounted
        × (((e ≡ backend_not_registered routes.service) × ¬ In routes.service (keys pools))
            ⊎ IsUnregistered policies routes routes.routes e)

    mount_service-err :
        (pools : Pools) (routes : Routes Pipeline) (found : Option (BackendPool http))
        (policies : List (Str × Q)) (fallback : Q) (table : T) (e : BuildError)
        → lookup pools routes.service ≡ found
        → mount_service_routes http xxh3_64 Pipeline accepts routes found policies fallback table
          ≡ done (err e)
        → ((e ≡ backend_not_registered routes.service) × ¬ In routes.service (keys pools))
          ⊎ IsUnregistered policies routes routes.routes e
    unfolding mount_service_routes mount_routes
    mount_service-err pools routes none policies fallback table e absent h =
        inl (cc, lookup-none pools routes.service absent)
    mount_service-err pools routes (some pool) policies fallback table e there h =
        inr (mount_each-err routes routes.routes policies fallback pool table e h)

    mount_all-err :
        (pools : Pools) (mounted : List (Routes Pipeline)) (policies : List (Str × Q))
        (fallback : Q) (table : T) (e : BuildError)
        → mount_all http xxh3_64 Pipeline accepts mounted pools policies fallback table
          ≡ done (err e)
        → IsUnmounted pools policies mounted e
    unfolding mount_all
    mount_all-err pools [] policies fallback table e h = cc
    mount_all-err pools (routes ∷ mounted) policies fallback table e h =
        let found = lookup pools routes.service in
        elim (run_then-err
          (mount_service_routes http xxh3_64 Pipeline accepts routes found policies fallback table)
          _ e h) [
            | inl here ↦ (
              routes,
              inl refl,
              mount_service-err pools routes found policies fallback table e refl here,
            )
            | inr (next, _, later) ↦
                let (r, i, why) = mount_all-err pools mounted policies fallback next e later in
                (r, inr i, why)
          ]

    unmounted-IsCause :
        (b : AppBuilder Q Pipeline) (pools : Pools) (e : BuildError)
        → keys pools ≡ keys b.backends
        → IsUnmounted pools b.policies b.mounted e
        → IsCause b e
    unmounted-IsCause b pools e same (routes, i, inl (is, absent)) =
        subst (IsCause b) (sym is) (routes, i, refl, subst (λ k. ¬ In routes.service k) same absent)
    unmounted-IsCause b pools e same (routes, i, inr (name, rd, j, asks, absent, is)) =
        subst (IsCause b) (sym is) (routes, i, rd, j, asks, absent)

    mount_on_pools-err :
        (b : AppBuilder Q Pipeline) (r : Result BuildError Pools) (e : BuildError)
        → build_pools http xxh3_64 Pipeline b.backends ≡ r
        → mount_on_pools http xxh3_64 Pipeline accepts b r ≡ done (err e)
        → IsCause b e
    unfolding mount_on_pools
    mount_on_pools-err b (err d) e parsed h =
        let (service, url, source, urls, i, j, bad, is) =
          build_pools-err http xxh3_64 Pipeline b.backends e (parsed ∙ ap err (done-err_inj h)) in
        subst (IsCause b) (sym is) (urls, i, j, bad)
    mount_on_pools-err b (ok pools) e parsed h =
        unmounted-IsCause b pools e (build_pools-keys http xxh3_64 Pipeline b.backends pools parsed)
          (mount_all-err pools b.mounted b.policies b.default_policy _ e h)

    -- A build that fails has a cause: a URL that is registered for a service and does not parse,
    -- which the error names with the failure; a mounted service with no registered backends; or a
    -- route of a mounted service that asks for a policy which is not registered, by its own name
    -- of one or, if it has none, by that of its service.
    pub build-IsCause :
        (b : AppBuilder Q Pipeline) (e : BuildError)
        → build http xxh3_64 Pipeline accepts b ≡ done (err e)
        → IsCause b e
    unfolding build
    build-IsCause b e h = mount_on_pools-err b _ e refl h
