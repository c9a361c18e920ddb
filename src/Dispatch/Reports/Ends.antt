-- ===== src/Dispatch/Reports/Ends.antt =====
-- What a request to a chosen backend comes to, and what its balancer is told.
use apigate.Prelude.{
  ℕ, ◌≡◌, refl, ap, ◌⊎◌, inl, inr, none, some, Result, ok, err, done, true, false, Bool-cases,
}
use apigate.Str.{Str}
use apigate.Http.{Http}
use apigate.Backend.{Backend}
use apigate.Balancing.{ProxyErrorKind, StartEvent, ResultEvent}
use apigate.Error.{CoreError, core, ApigateError, framework, custom, into_response_with}
use apigate.Proxy.Forward.{outgoing, rewrite_uri}
use apigate.Proxy.Forward.Rewriting.{HasTemplate, IsAt}
use apigate.Proxy.Forward.Sending.{IsSent, Answers, proxy_request_lem}
use apigate.Dispatch.{
  Request, Answer, Meta, Inner, Upstream, Outcome, proxy_to_backend, finish, within_timeout,
  upstream_answer, result_event, passes,
}

module _ (http : Http) (xxh3_64 : Str → ℕ) (Body Extensions : Type 0) where
  abbrev M : Type 1
  M = Meta http xxh3_64 Body Extensions

  abbrev I : Type 0
  I = Inner http xxh3_64 Body Extensions

  abbrev R : Type 0
  R = Request http xxh3_64 Body Extensions

  abbrev A : Type 0
  A = Answer http xxh3_64 Body Extensions

  abbrev U : M → Type 0
  U meta = Upstream http xxh3_64 Body Extensions meta.policy.balancer.State

  -- The ends of a request to a backend: refused before it is sent; or sent to the backend, and then
  -- late, or answered or failed in time.
  abbrev pub Ends : (meta : M) → U meta → Backend http → R → Body → Result ProxyErrorKind A → Type 0
  Ends meta up backend parts body r =
      ((rewrite_uri http backend.base meta.prefix meta.rewrite parts.uri
          ≡ done (err ProxyErrorKind.invalid_upstream_uri))
        × (r ≡ err ProxyErrorKind.invalid_upstream_uri))
      ⊎ ((uri : http.Uri) × (rewrite_uri http backend.base meta.prefix meta.rewrite parts.uri
            ≡ done (ok uri))
          × IsAt http backend.base uri
          × IsSent http backend.base parts uri (outgoing http backend.base uri parts)
          × (((up.is_late (outgoing http backend.base uri parts) body ≡ true)
                × (r ≡ err ProxyErrorKind.timeout))
              ⊎ ((up.is_late (outgoing http backend.base uri parts) body ≡ false)
                  × Answers http up.client (outgoing http backend.base uri parts) body r)))

  -- A request to a backend never panics, if the template of a template route is well-formed, and it
  -- has one of these ends: its URI is refused and nothing is sent, the deadline passes, the client
  -- fails, or the client's answer is passed on less its hop-by-hop headers.
  pub within_timeout_lem :
      (meta : M) (up : U meta) (backend : Backend http) (parts : R) (body : Body)
      → HasTemplate meta.rewrite
      → (r : Result ProxyErrorKind A) × (within_timeout http xxh3_64 Body Extensions meta up backend
            parts body
          ≡ done r)
        × Ends meta up backend parts body r
  unfolding within_timeout passes
  within_timeout_lem meta up backend parts body h =
      let (r, proxied, way) =
        proxy_request_lem http up.client backend meta.prefix meta.rewrite parts body h in
      elim way [
        | inl (refused, bad) ↦ (r, rw (refused, passes) (rw proxied refl), inl (refused, bad))
        | inr (uri, rewritten, there, sent, answers) ↦
            elim (Bool-cases (up.is_late (outgoing http backend.base uri parts) body)) [
              | inl late ↦ (
                err ProxyErrorKind.timeout,
                rw (rewritten, passes) (rw proxied (rw late refl)),
                inr (uri, rewritten, there, sent, inl (late, refl)),
              )
              | inr timely ↦ (
                r,
                rw (rewritten, passes) (rw proxied (rw timely refl)),
                inr (uri, rewritten, there, sent, inr (timely, answers)),
              )
            ]
      ]

  abbrev start : M → ℕ → StartEvent
  start meta i = record { service = meta.service; backend_index = i }

  -- The error that the client of the gateway sees of a failed request.
  abbrev shown_error : ProxyErrorKind → CoreError
  shown_error ProxyErrorKind.no_backends = CoreError.no_backends
  shown_error ProxyErrorKind.invalid_upstream_uri = CoreError.invalid_upstream_uri
  shown_error ProxyErrorKind.upstream_request = CoreError.upstream_request_failed
  shown_error ProxyErrorKind.timeout = CoreError.upstream_request_timed_out

  abbrev shown : I → Result ProxyErrorKind A → A
  shown inner (ok answer) = answer
  shown inner (err e) = inner.error_renderer (core (shown_error e))

  -- What is answered for the error of a pipeline: its own response, or the rendered error.
  abbrev pub shown_failure : I → ApigateError A → A
  shown_failure inner (framework e) = inner.error_renderer e
  shown_failure inner (custom answer) = answer

  upstream_answer-shown :
      (inner : I) (r : Result ProxyErrorKind A)
      → upstream_answer http xxh3_64 Body Extensions inner r ≡ shown inner r
  unfolding upstream_answer
  upstream_answer-shown inner (ok answer) = refl
  upstream_answer-shown inner (err ProxyErrorKind.no_backends) = refl
  upstream_answer-shown inner (err ProxyErrorKind.invalid_upstream_uri) = refl
  upstream_answer-shown inner (err ProxyErrorKind.upstream_request) = refl
  upstream_answer-shown inner (err ProxyErrorKind.timeout) = refl

  pub shown-failure :
      (inner : I) (e : ApigateError A)
      → into_response_with inner.error_renderer e ≡ shown_failure inner e
  unfolding into_response_with
  shown-failure inner (framework e) = refl
  shown-failure inner (custom answer) = refl

  -- A report tells how the request ended: with the status of an answer, or with an error.
  abbrev TellsOf : Result ProxyErrorKind A → ResultEvent → Type 0
  TellsOf (ok answer) event = (event.status ≡ some answer.status) × (event.error ≡ none)
  TellsOf (err e) event = (event.status ≡ none) × (event.error ≡ some e)

  -- The report of a request to the backend `i`, with the time that it took.
  abbrev IsReport : M → ℕ → ℕ → Result ProxyErrorKind A → ResultEvent → Type 0
  IsReport meta i elapsed r event =
      (event.service ≡ meta.service)
      × (event.backend_index ≡ i)
      × (event.head_latency ≡ elapsed)
      × TellsOf r event

  result_event-IsReport :
      (meta : M) (i elapsed : ℕ) (r : Result ProxyErrorKind A)
      → IsReport meta i elapsed r (result_event http xxh3_64 Body Extensions meta i elapsed r)
  unfolding result_event
  result_event-IsReport meta i elapsed (ok answer) = (refl, refl, refl, (refl, refl))
  result_event-IsReport meta i elapsed (err e) = (refl, refl, refl, (refl, refl))

  -- What the client gets and what the balancer is told of a request to the backend `i`: its start,
  -- then whatever other requests do meanwhile, then one report of how it ended, for the same
  -- backend.
  abbrev pub IsReported :
      (inner : I) (meta : M) (up : U meta)
      → ℕ
      → Backend http
      → R
      → Body
      → meta.policy.balancer.State
      → Outcome http xxh3_64 Body Extensions meta.policy.balancer.State
      → Type 0
  IsReported inner meta up i backend parts body s o =
      (r : Result ProxyErrorKind A) × Ends meta up backend parts body r
      × (o.response ≡ done (shown inner r))
      × (event : ResultEvent) × IsReport meta i up.elapsed r event
      × (o.state
          ≡ meta.policy.balancer.on_result event
              (up.meanwhile (meta.policy.balancer.on_start (start meta i) s)))

  pub proxy_to_backend-IsReported :
      (inner : I) (meta : M) (up : U meta) (i : ℕ) (backend : Backend http) (parts : R)
      (body : Body) (s : meta.policy.balancer.State)
      → HasTemplate meta.rewrite
      → IsReported inner meta up i backend parts body s
          (proxy_to_backend http xxh3_64 Body Extensions inner meta up i backend parts body s)
  unfolding proxy_to_backend finish
  proxy_to_backend-IsReported inner meta up i backend parts body s h =
      let (r, comes, ends) = within_timeout_lem meta up backend parts body h in
      (
        r,
        ends,
        rw (comes, finish) (ap done (upstream_answer-shown inner r)),
        result_event http xxh3_64 Body Extensions meta i up.elapsed r,
        result_event-IsReport meta i up.elapsed r,
        rw (comes, finish) refl,
      )
