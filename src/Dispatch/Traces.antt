-- ===== src/Dispatch/Traces.antt =====
-- The events of a request, in order.
use apigate.Prelude.{
  ℕ, ◌≡◌, refl, inl, inr, List, [], ◌∷◌, ◌++◌, Option, none, some, is_some, Result, ok, err, Run,
  done, panic, out_of_fuel, true, false, Bool, map, if◌then◌else◌, Bool-cases,
}
use apigate.Str.{Str}
use apigate.Http.{Http}
use apigate.Backend.{Backend}
use apigate.Balancing.{ProxyErrorKind}
use apigate.Error.{
  CoreError, FrameworkError, core, ApigateError, framework_error, status_code_for_log,
}
use apigate.Observability.{RuntimeEvent, RuntimeEventKind}
use apigate.Dispatch.{
  Request, Answer, Meta, Inner, Upstream, Outcome, emit, proxy_handler, proxy_to_backend, finish,
  dispatch, after_pipeline, emit_pipeline_failure, pipeline_failure, run_pipeline_if_needed,
  upstream_kind, PipelineFn, run_pipeline,
}

-- The kinds of events of a request that answers, in the order in which they are emitted.
pub data IsTrace (Uri : Type 0) : List (RuntimeEventKind Uri) → Type 0 where
  refused_by_pipeline :
      (method : Str) (uri : Uri) (error : FrameworkError)
      → IsTrace Uri (
          RuntimeEventKind.request_start method uri true
          ∷ RuntimeEventKind.pipeline_failed_framework error
          ∷ [])
  answered_by_pipeline :
      (method : Str) (uri : Uri) (status : ℕ)
      → IsTrace Uri (
          RuntimeEventKind.request_start method uri true
          ∷ RuntimeEventKind.pipeline_failed_custom status
          ∷ [])
  not_dispatched :
      (method : Str) (uri : Uri) (has_pipeline : Bool) (error : CoreError)
      → IsTrace Uri (
          RuntimeEventKind.request_start method uri has_pipeline
          ∷ RuntimeEventKind.dispatch_failed (core error)
          ∷ [])
  succeeded :
      (method : Str) (uri : Uri) (has_pipeline : Bool) (i status latency : ℕ)
      → IsTrace Uri (
          RuntimeEventKind.request_start method uri has_pipeline
          ∷ RuntimeEventKind.backend_selected i
          ∷ RuntimeEventKind.upstream_succeeded i status latency
          ∷ [])
  failed :
      (method : Str) (uri : Uri) (has_pipeline : Bool) (i : ℕ) (error : ProxyErrorKind)
      (latency : ℕ)
      → IsTrace Uri (
          RuntimeEventKind.request_start method uri has_pipeline
          ∷ RuntimeEventKind.backend_selected i
          ∷ RuntimeEventKind.upstream_failed i error latency
          ∷ [])

module _ (http : Http) (xxh3_64 : Str → ℕ) (Body Extensions : Type 0) where
  abbrev M : Type 1
  M = Meta http xxh3_64 Body Extensions

  abbrev I : Type 0
  I = Inner http xxh3_64 Body Extensions

  abbrev Kinds : Type 0
  Kinds = List (RuntimeEventKind http.Uri)

  abbrev stamp : M → RuntimeEventKind http.Uri → RuntimeEvent http.Uri
  stamp meta kind = record { service = meta.service; route_path = meta.route_path; kind = kind }

  -- What the observer sees of the kinds: all with the service and the route, or nothing.
  abbrev pub observed : I → M → Kinds → List (RuntimeEvent http.Uri)
  observed inner meta kinds = if inner.has_observer then map (stamp meta) kinds else []

  emit-observed :
      (inner : I) (meta : M) (kind : RuntimeEventKind http.Uri)
      → emit http xxh3_64 Body Extensions inner meta kind ≡ observed inner meta (kind ∷ [])
  unfolding emit
  emit-observed inner meta kind = refl

  observed-cons :
      (inner : I) (meta : M) (kind : RuntimeEventKind http.Uri) (kinds : Kinds)
      → emit http xxh3_64 Body Extensions inner meta kind ++ observed inner meta kinds
        ≡ observed inner meta (kind ∷ kinds)
  unfolding emit
  observed-cons inner meta kind kinds = elim (Bool-cases inner.has_observer) [
    | inl seen ↦ rw seen refl
    | inr unseen ↦ rw unseen refl
  ]

  abbrev O : M → Type 0
  O meta = Outcome http xxh3_64 Body Extensions meta.policy.balancer.State

  -- The events after the start of a request, if the request is answered.
  abbrev Goes : I → (meta : M) → Bool → O meta → Type 0
  Goes inner meta has_pipeline o =
      (a : Answer http xxh3_64 Body Extensions)
      → o.response ≡ done a
      → (kinds : Kinds) × (o.events ≡ observed inner meta kinds)
        × ((method : Str) (uri : http.Uri)
            → IsTrace http.Uri (RuntimeEventKind.request_start method uri has_pipeline ∷ kinds))

  finish-kind :
      (inner : I) (meta : M) (up : Upstream http xxh3_64 Body Extensions meta.policy.balancer.State)
      (i : ℕ) (s : meta.policy.balancer.State)
      (w : Run (Result ProxyErrorKind (Answer http xxh3_64 Body Extensions)))
      (a : Answer http xxh3_64 Body Extensions)
      → (finish http xxh3_64 Body Extensions inner meta up i s w).response ≡ done a
      → (r : Result ProxyErrorKind (Answer http xxh3_64 Body Extensions)) × ((finish http xxh3_64
            Body Extensions inner meta up i s w).events
          ≡ observed inner meta (upstream_kind http xxh3_64 Body Extensions i up.elapsed r ∷ []))
  unfolding finish
  finish-kind inner meta up i s (done r) a h = (r, emit-observed inner meta _)
  finish-kind inner meta up i s panic a h = cc
  finish-kind inner meta up i s out_of_fuel a h = cc

  upstream-IsTrace :
      (method : Str) (uri : http.Uri) (has_pipeline : Bool) (i latency : ℕ)
      (r : Result ProxyErrorKind (Answer http xxh3_64 Body Extensions))
      → IsTrace http.Uri (
          RuntimeEventKind.request_start method uri has_pipeline
          ∷ RuntimeEventKind.backend_selected i
          ∷ upstream_kind http xxh3_64 Body Extensions i latency r
          ∷ [])
  unfolding upstream_kind
  upstream-IsTrace method uri has_pipeline i latency (ok response) =
      succeeded method uri has_pipeline i response.status latency
  upstream-IsTrace method uri has_pipeline i latency (err error) =
      failed method uri has_pipeline i error latency

  dispatch-Goes :
      (inner : I) (meta : M) (up : Upstream http xxh3_64 Body Extensions meta.policy.balancer.State)
      (parts : Request http xxh3_64 Body Extensions) (body : Body) (has_pipeline : Bool)
      (chosen : Run (Result CoreError (ℕ × Backend http)) × meta.policy.balancer.State)
      → Goes inner meta has_pipeline
          (dispatch http xxh3_64 Body Extensions inner meta up parts body chosen)
  unfolding dispatch proxy_to_backend
  dispatch-Goes inner meta up parts body p (done (ok (i, backend)), s) a h =
      let (r, seen) = finish-kind inner meta up i _ _ a h in
      (
        RuntimeEventKind.backend_selected i
            ∷ upstream_kind http xxh3_64 Body Extensions i up.elapsed r
            ∷ [],
        rw seen (
            observed-cons inner meta (RuntimeEventKind.backend_selected i)
              (upstream_kind http xxh3_64 Body Extensions i up.elapsed r ∷ [])),
        λ method uri. upstream-IsTrace method uri p i up.elapsed r,
      )
  dispatch-Goes inner meta up parts body p (done (err error), s) a h = (
    RuntimeEventKind.dispatch_failed (core error) ∷ [],
    emit-observed inner meta _,
    λ method uri. not_dispatched method uri p error,
  )
  dispatch-Goes inner meta up parts body p (panic, s) a h = cc
  dispatch-Goes inner meta up parts body p (out_of_fuel, s) a h = cc

  failure-Goes :
      (inner : I) (meta : M) (e : ApigateError (Answer http xxh3_64 Body Extensions))
      (o : Option FrameworkError)
      → (kinds : Kinds) × (emit http xxh3_64 Body Extensions inner meta
            (pipeline_failure http xxh3_64 Body Extensions e o)
          ≡ observed inner meta kinds)
        × ((method : Str) (uri : http.Uri)
            → IsTrace http.Uri (RuntimeEventKind.request_start method uri true ∷ kinds))
  unfolding pipeline_failure
  failure-Goes inner meta e (some error) =
      (_, emit-observed inner meta _, λ method uri. refused_by_pipeline method uri error)
  failure-Goes inner meta e none =
      let status =
        status_code_for_log (λ (response : Answer http xxh3_64 Body Extensions). response.status)
          e in
      (
        RuntimeEventKind.pipeline_failed_custom status ∷ [],
        emit-observed inner meta _,
        λ method uri. answered_by_pipeline method uri status,
      )

  after_pipeline-Goes :
      (inner : I) (meta : M) (up : Upstream http xxh3_64 Body Extensions meta.policy.balancer.State)
      (s : meta.policy.balancer.State)
      (left : Request http xxh3_64 Body Extensions
        × Result (ApigateError (Answer http xxh3_64 Body Extensions)) Body)
      → Goes inner meta true (after_pipeline http xxh3_64 Body Extensions inner meta up s left)
  unfolding after_pipeline emit_pipeline_failure
  after_pipeline-Goes inner meta up s (parts, ok body) a h =
      dispatch-Goes inner meta up parts body true _ a h
  after_pipeline-Goes inner meta up s (parts, err e) a h =
      failure-Goes inner meta e (framework_error e)

  run_pipeline-Goes :
      (inner : I) (meta : M) (up : Upstream http xxh3_64 Body Extensions meta.policy.balancer.State)
      (parts : Request http xxh3_64 Body Extensions) (body : Body) (s : meta.policy.balancer.State)
      (pipeline : Option (PipelineFn http xxh3_64 Body Extensions))
      → Goes inner meta (is_some pipeline) (
          after_pipeline http xxh3_64 Body Extensions inner meta up s
            (run_pipeline http xxh3_64 Body Extensions inner meta pipeline parts body))
  unfolding run_pipeline after_pipeline
  run_pipeline-Goes inner meta up parts body s none = dispatch-Goes inner meta up parts body false _
  run_pipeline-Goes inner meta up parts body s (some pipeline) =
      after_pipeline-Goes inner meta up s _

  -- Every request that is answered emits one of five sequences of events, with the service and the
  -- path of its route: its start, then the failure of its pipeline, if it has one, or of its
  -- dispatch, or the backend that is selected and the one result for the same backend; without an
  -- observer it emits nothing.
  pub proxy_handler-IsTrace :
      (inner : I) (meta : M) (up : Upstream http xxh3_64 Body Extensions meta.policy.balancer.State)
      (parts : Request http xxh3_64 Body Extensions) (body : Body) (s : meta.policy.balancer.State)
      (a : Answer http xxh3_64 Body Extensions)
      → (proxy_handler http xxh3_64 Body Extensions inner meta up parts body s).response ≡ done a
      → (kinds : Kinds) × IsTrace http.Uri kinds
        × ((proxy_handler http xxh3_64 Body Extensions inner meta up parts body s).events
            ≡ observed inner meta kinds)
  unfolding proxy_handler run_pipeline_if_needed
  proxy_handler-IsTrace inner meta up parts body s a h =
      let (kinds, seen, traced) = run_pipeline-Goes inner meta up parts body s meta.pipeline a h in
      (
        RuntimeEventKind.request_start parts.method parts.uri (is_some meta.pipeline) ∷ kinds,
        traced parts.method parts.uri,
        rw seen (observed-cons inner meta _ kinds),
      )
