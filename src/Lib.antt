-- ===== src/Lib.antt =====
-- A verification library of apigate, a gateway that forwards HTTP requests to the backends of
-- services, with routes that macros generate. Paths are from the root of the repository.
--
-- The parts, and how they interact:
--   The service macro (apigate-macros) reads the arguments of the route attributes of a module,
--   compiles the `to` template of a route against its path, generates a pipeline for each route that
--   needs one, and emits the table of routes; the macros for hooks and maps rewrite a function so
--   that a pipeline can call it. The builder (apigate-core/src/app/build.rs) parses the URLs of the
--   backends, resolves the policies and mounts the routes. For a request the dispatcher
--   (app/dispatch.rs) runs the pipeline of the route, asks the routing strategy and the balancer of
--   its policy for a backend, and has the proxy (proxy.rs) rewrite the URI and forward the request;
--   it reports the start and the result to the balancer, hands events to an observer, and renders
--   errors. The listener is bound by app/serve.rs.
--
-- The files:
--   Prelude, with Prelude/Tests, Lists and Results: tests on numbers, lists over native numbers,
--     `Result`, and `Run`, what a computation that can panic or run out of fuel comes to.
--   Str, Str/Laws: texts as lists of bytes, with the functions of `str` that the code calls.
--   Rewrite, Route: apigate-core/src/route.rs.
--   Template: apigate-macros/src/template.rs; `compile_rewrite_template` with its scanner, whose
--     variables are the record `Scan`. Template/Pattern says what route paths and targets mean;
--     Source, Target and RoundTrip are about what is printed from these, Scanning and Safety about
--     all texts.
--   Macros/Expand, Macros/Expand/Fns: apigate-macros/src/expand.rs; `classify_param`, and
--     `validate_plans`, `build_bindings` and `expand_fn_params`. Borrows has the borrow rules,
--     Wrapper is about the rewritten function.
--   Macros/Args: the arguments in apigate-macros/src/route.rs, parse.rs and service.rs; Slots is
--     about which are accepted.
--   Macros/Service: `find_route_attr`, `build_rewrite_spec` and `expand_route_from_fn` of route.rs,
--     and `expand_service` of apigate-macros/src/lib.rs; Attrs and Sound are about these.
--   Macros/Codegen, Macros/Codegen/Phases: apigate-macros/src/codegen.rs; the generated code is a
--     function on a `Pipe`, the context and the scope. Empty is about pipelines that are left out,
--     Outcomes about hooks and maps, Forwards about bodies without a map.
--   Facade: the module `__private` of apigate/src/lib.rs, which the generated code calls.
--   Proxy/Paths, Proxy/Hops, Proxy/Forward: apigate-core/src/proxy.rs; `strip_prefix`,
--     `capture_raw` and `render_template`; `strip_hop_headers`; `rewrite_uri` and
--     `proxy_request`. Proxy/Paths has Rendering, Safety and Prefix below it, Proxy/Hops
--     has Exact, Proxy/Forward has Rewriting and Sending.
--   Http: the crate `http` as a record of operations and of the laws that are relied on.
--   Backend: apigate-core/src/backend.rs.
--   Balancing: apigate-core/src/balancing/mod.rs, with one module for each balancer; the state of a
--     balancer is a record that every operation takes and returns. Words has the 64-bit counters,
--     Contract the abstract balancer.
--   Routing, Policy: apigate-core/src/routing and policy.rs.
--   Error, Error/Codes: apigate-core/src/error.
--   Observability, Observability/Default: apigate-core/src/observability.rs; the default observer
--     gives the list of the records that it logs.
--   Pipeline, PartsCtx: the scope of a pipeline (pipeline.rs) and the context that hooks and maps
--     change (parts_ctx.rs).
--   Dispatch: apigate-core/src/app/dispatch.rs; `proxy_handler` gives the answer, the state of the
--     balancer and the events in order. Selection is about the choice of a backend, Reports about
--     the answer and the balancer, Traces about the events.
--   App, App/Build: apigate-core/src/app/mod.rs and build.rs, and the route tables of lib.rs. Paths
--     is about joined paths, Mounting, Registered and Causes are about builds, Expanded about builds of services
--     that the macro expanded.
--   App/Inner: the shared state and the renderer of the builder, and the `Inner` that build.rs makes;
--     State is about what a pipeline finds of it.
--   Gateway: the macro, the builder and the dispatcher together.
--   App/Client, App/Serve: app/upstream.rs and app/serve.rs; the calls to the operating system are
--     a list, which ends at the first that fails.
--   Tests: runs on concrete inputs, with a small instance of Http.
--
-- Bounds and fuel: words are numbers with their wrap-around written out; the offset of a scan and
--   the counters are taken modulo 2^64. The scanner of targets runs on one unit of fuel for each
--   byte of the target and one more, and every step consumes a byte; the loop of the jump hash runs
--   on one unit for each bucket and one more, and every turn moves to a higher bucket. The scans of
--   least request and least time add their offset as a build without overflow checks does; the jump
--   hash has the panic of a build with them.
--
-- Concurrency: a balancer's operations are atomic steps on its state; the least-time exchange takes
--   the values that failed exchanges saw, and the dispatcher takes what other requests do to the
--   state while it waits as a parameter.
--
-- Parameters: which paths the router of axum takes, the HTTP client, the crates `http`, `syn`, `tracing` and those of
--   serde, the hash xxh3_64, the operating system, and the user's hooks and maps.
--
-- Not modelled: the loop of axum that accepts and serves connections, the spans and texts of the
--   macros' errors, the attributes that the expansion edits on a function, and the generic
--   parameters and bounds of a map's wrapper in expand.rs, which only the compiler reads.
pub mod Prelude
pub mod Str
pub mod Rewrite
pub mod Template
pub mod Proxy
pub mod Facade
pub mod Http
pub mod Backend
pub mod Balancing
pub mod Routing
pub mod Error
pub mod Policy
pub mod Macros
pub mod Observability
pub mod Pipeline
pub mod PartsCtx
pub mod Dispatch
pub mod App
pub mod Gateway
pub mod Tests
pub mod Route
