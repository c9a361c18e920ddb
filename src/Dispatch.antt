-- ===== src/Dispatch.antt =====
-- apigate-core/src/app/dispatch.rs: the handler of a mounted route and the two fallbacks, with
-- `Inner` of app/mod.rs. The state of the balancer is passed explicitly, and the events for the
-- observer are listed in order. What other requests do to that state while this one waits for
-- its backend is a parameter, and so are the client, the deadline and the clock.
pub mod Selection
pub mod Reports
pub mod Traces
use apigate.Prelude.{
  ℕ, Bool, true, false, Option, none, some, is_some, List, [], ◌∷◌, ◌++◌, Result, ok, err, map_err,
  ok_or, Run, done, panic, out_of_fuel, run_bind, if◌then◌else◌,
}
use mathlib.Core.Option
use apigate.Str.{Str}
use apigate.Http.{Http, Parts, Response}
use apigate.Backend.{Backend, BackendPool, pool_get, pool_len}
use apigate.Balancing.{Balancer, BalanceCtx, StartEvent, ResultEvent, ProxyErrorKind}
use apigate.Routing.{RouteCtx, RoutingDecision}
use apigate.Error.{
  CoreError, FrameworkError, core, ApigateError, framework, custom, of_core, framework_error,
  status_code_for_log, into_response_with,
}
use apigate.Observability.{RuntimeEvent, RuntimeEventKind}
use apigate.Policy.{Policy}
use apigate.Route.{RouteMeta}
use apigate.Pipeline.{PartsCtx, RequestScope, new_scope}
use apigate.Proxy.Forward.{outgoing, rewrite_uri, proxy_request}

map_proxy_error_to_framework : ProxyErrorKind → FrameworkError
map_proxy_error_to_framework ProxyErrorKind.no_backends = core CoreError.no_backends
map_proxy_error_to_framework ProxyErrorKind.invalid_upstream_uri =
    core CoreError.invalid_upstream_uri
map_proxy_error_to_framework ProxyErrorKind.upstream_request =
    core CoreError.upstream_request_failed
map_proxy_error_to_framework ProxyErrorKind.timeout = core CoreError.upstream_request_timed_out

module _ (http : Http) (xxh3_64 : Str → ℕ) (Body Extensions : Type 0) where
  abbrev pub Request : Type 0
  Request = Parts http.Uri http.Headers

  abbrev pub Answer : Type 0
  Answer = Response http.Headers Body

  -- A generated pipeline: what it leaves of the request's parts, and the body or an error.
  abbrev pub PipelineFn : Type 0
  PipelineFn =
      PartsCtx http → RequestScope Body Extensions → Request × Result (ApigateError Answer) Body

  abbrev pub Meta : Type 1
  Meta = RouteMeta http xxh3_64 PipelineFn

  -- `Inner`, less the client and the table of routes, which are arguments; of the observer it keeps
  -- whether one is set.
  pub record Inner : Type 0 where
    pub state : Extensions
    pub empty : Extensions
    pub map_body_limit : ℕ
    pub error_renderer : FrameworkError → Answer
    pub has_observer : Bool

  -- What happens outside while the request is under way.
  pub record Upstream (State : Type 0) : Type 0 where
    pub client : Request → Body → Option Answer
    pub is_late : Request → Body → Bool
    pub elapsed : ℕ
    pub meanwhile : State → State

  pub record Outcome (State : Type 0) : Type 0 where
    pub response : Run Answer
    pub state : State
    pub events : List (RuntimeEvent http.Uri)

  -- `emit_runtime_event`
  unfoldable pub emit : Inner → Meta → RuntimeEventKind http.Uri → List (RuntimeEvent http.Uri)
  emit inner meta kind =
      if inner.has_observer
      then record { service = meta.service; route_path = meta.route_path; kind = kind } ∷ []
      else []

  pub pipeline_failure : ApigateError Answer → Option FrameworkError → RuntimeEventKind http.Uri
  unfolding status_code_for_log
  pipeline_failure e (some error) = RuntimeEventKind.pipeline_failed_framework error
  pipeline_failure e none =
      RuntimeEventKind.pipeline_failed_custom
        (status_code_for_log (λ (response : Answer). response.status) e)

  pub emit_pipeline_failure : Inner → Meta → ApigateError Answer → List (RuntimeEvent http.Uri)
  unfolding emit pipeline_failure framework_error
  emit_pipeline_failure inner meta e = emit inner meta (pipeline_failure e (framework_error e))

  render_unrouted : Inner → CoreError → Answer
  unfolding into_response_with
  render_unrouted inner error = into_response_with inner.error_renderer (of_core error)

  unfoldable pub route_not_found : Inner → Answer
  unfolding render_unrouted
  route_not_found inner = render_unrouted inner CoreError.route_not_found

  unfoldable pub method_not_allowed : Inner → Answer
  unfolding render_unrouted
  method_not_allowed inner = render_unrouted inner CoreError.method_not_allowed

  unfoldable pub run_pipeline :
      Inner
      → Meta
      → Option PipelineFn
      → Request
      → Body
      → Request × Result (ApigateError Answer) Body
  unfolding new_scope
  run_pipeline inner meta none parts body = (parts, ok body)
  run_pipeline inner meta (some pipeline) parts body =
      pipeline (record { service = meta.service; route_path = meta.route_path; parts = parts })
        (new_scope inner.state inner.empty body inner.map_body_limit)

  pub run_pipeline_if_needed :
      Inner → Meta → Request → Body → Request × Result (ApigateError Answer) Body
  unfolding run_pipeline
  run_pipeline_if_needed inner meta parts body = run_pipeline inner meta meta.pipeline parts body

  unfoldable pub balance_ctx : Meta → Request → BalanceCtx
  balance_ctx meta parts =
      let routing =
        meta.policy.router.route
          (record {
            service = meta.service;
            prefix = meta.prefix;
            route_path = meta.route_path;
            method = parts.method;
            uri = parts.uri;
            headers = parts.headers;
          })
          meta.pool in
      record {
        service = meta.service;
        affinity = routing.affinity;
        pool_len = pool_len http meta.pool;
        candidates = routing.candidates;
      }

  -- The backend at the index that the balancer picked, if it picked one.
  pub selected : Meta → Option ℕ → Result CoreError (ℕ × Backend http)
  selected meta none = err CoreError.no_backends_selected_by_balancer
  selected meta (some i) = elim (pool_get http meta.pool i) [
    | none ↦ err CoreError.invalid_backend_index
    | some backend ↦ ok (i, backend)
  ]

  pub select_backend :
      (meta : Meta)
      → Request
      → meta.policy.balancer.State
      → Run (Result CoreError (ℕ × Backend http)) × meta.policy.balancer.State
  unfolding balance_ctx selected
  select_backend meta parts s =
      let (picked, s') = meta.policy.balancer.pick (balance_ctx meta parts) s in
      (run_bind picked (λ i. done (selected meta i)), s')

  -- The deadline passes only while the client waits, not where the URI is refused before.
  pub passes :
      (Request → Body → Bool)
      → Backend http
      → Request
      → Body
      → Result ProxyErrorKind http.Uri
      → Bool
  passes is_late backend parts body (err e) = false
  passes is_late backend parts body (ok uri) = is_late (outgoing http backend.base uri parts) body

  -- `tokio::time::timeout(request_timeout, proxy_request(..))`
  pub within_timeout :
      {State : Type 0}
      → Meta
      → Upstream State
      → Backend http
      → Request
      → Body
      → Run (Result ProxyErrorKind Answer)
  unfolding passes
  within_timeout meta up backend parts body =
      run_bind (rewrite_uri http backend.base meta.prefix meta.rewrite parts.uri) (λ uri.
        run_bind (proxy_request http backend up.client meta.prefix meta.rewrite parts body) (λ r.
          done
            (if passes up.is_late backend parts body uri then err ProxyErrorKind.timeout else r)))

  -- The report to the balancer.
  pub result_event : Meta → ℕ → ℕ → Result ProxyErrorKind Answer → ResultEvent
  result_event meta i elapsed (ok response) = record {
    service = meta.service;
    backend_index = i;
    status = some response.status;
    error = none;
    head_latency = elapsed;
  }
  result_event meta i elapsed (err error) = record {
    service = meta.service;
    backend_index = i;
    status = none;
    error = some error;
    head_latency = elapsed;
  }

  pub upstream_kind : ℕ → ℕ → Result ProxyErrorKind Answer → RuntimeEventKind http.Uri
  upstream_kind i elapsed (ok response) =
      RuntimeEventKind.upstream_succeeded i response.status elapsed
  upstream_kind i elapsed (err error) = RuntimeEventKind.upstream_failed i error elapsed

  pub upstream_answer : Inner → Result ProxyErrorKind Answer → Answer
  unfolding map_proxy_error_to_framework into_response_with
  upstream_answer inner (ok response) = response
  upstream_answer inner (err error) =
      into_response_with inner.error_renderer (framework (map_proxy_error_to_framework error))

  pub finish :
      (inner : Inner) (meta : Meta)
      → Upstream meta.policy.balancer.State
      → ℕ
      → meta.policy.balancer.State
      → Run (Result ProxyErrorKind Answer)
      → Outcome meta.policy.balancer.State
  unfolding result_event upstream_kind upstream_answer
  finish inner meta up i s (done r) = record {
    response = done (upstream_answer inner r);
    state = meta.policy.balancer.on_result (result_event meta i up.elapsed r) s;
    events = emit inner meta (upstream_kind i up.elapsed r);
  }
  finish inner meta up i s panic = record { response = panic; state = s; events = [] }
  finish inner meta up i s out_of_fuel = record { response = out_of_fuel; state = s; events = [] }

  pub proxy_to_backend :
      (inner : Inner) (meta : Meta)
      → Upstream meta.policy.balancer.State
      → ℕ
      → Backend http
      → Request
      → Body
      → meta.policy.balancer.State
      → Outcome meta.policy.balancer.State
  unfolding within_timeout finish
  proxy_to_backend inner meta up i backend parts body s =
      let start : StartEvent = record { service = meta.service; backend_index = i } in
      finish inner meta up i (up.meanwhile (meta.policy.balancer.on_start start s))
        (within_timeout meta up backend parts body)

  -- More events in front.
  abbrev pub after : {State : Type 0} → List (RuntimeEvent http.Uri) → Outcome State → Outcome State
  after events o = record { response = o.response; state = o.state; events = events ++ o.events }

  pub dispatch :
      (inner : Inner) (meta : Meta)
      → Upstream meta.policy.balancer.State
      → Request
      → Body
      → Run (Result CoreError (ℕ × Backend http)) × meta.policy.balancer.State
      → Outcome meta.policy.balancer.State
  unfolding emit proxy_to_backend into_response_with
  dispatch inner meta up parts body (done (ok (i, backend)), s) =
      after (emit inner meta (RuntimeEventKind.backend_selected i))
        (proxy_to_backend inner meta up i backend parts body s)
  dispatch inner meta up parts body (done (err core_error), s) = record {
    response = done (into_response_with inner.error_renderer (of_core core_error));
    state = s;
    events = emit inner meta (RuntimeEventKind.dispatch_failed (core core_error));
  }
  dispatch inner meta up parts body (panic, s) = record { response = panic; state = s; events = [] }
  dispatch inner meta up parts body (out_of_fuel, s) = record {
    response = out_of_fuel;
    state = s;
    events = [];
  }

  pub after_pipeline :
      (inner : Inner) (meta : Meta)
      → Upstream meta.policy.balancer.State
      → meta.policy.balancer.State
      → Request × Result (ApigateError Answer) Body
      → Outcome meta.policy.balancer.State
  unfolding dispatch select_backend emit_pipeline_failure into_response_with
  after_pipeline inner meta up s (parts, ok body) =
      dispatch inner meta up parts body (select_backend meta parts s)
  after_pipeline inner meta up s (parts, err e) = record {
    response = done (into_response_with inner.error_renderer e);
    state = s;
    events = emit_pipeline_failure inner meta e;
  }

  -- `route_metas[route_idx]` is the argument `meta`.
  pub proxy_handler :
      (inner : Inner) (meta : Meta)
      → Upstream meta.policy.balancer.State
      → Request
      → Body
      → meta.policy.balancer.State
      → Outcome meta.policy.balancer.State
  unfolding emit run_pipeline_if_needed after_pipeline
  proxy_handler inner meta up parts body s =
      after
        (emit inner meta
          (RuntimeEventKind.request_start parts.method parts.uri (is_some meta.pipeline)))
        (after_pipeline inner meta up s (run_pipeline_if_needed inner meta parts body))
