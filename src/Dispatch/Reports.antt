-- ===== src/Dispatch/Reports.antt =====
-- What a request comes to, and what its balancer is told. Ends is about a
-- chosen backend.
pub mod Ends
use apigate.Dispatch.Reports.Ends.{
  IsReported, proxy_to_backend-IsReported, shown_failure, shown-failure,
}
use apigate.Prelude.{
  ℕ, ◌≡◌, refl, sym, ap, ◌⊎◌, inl, inr, Option, none, some, Result, ok, err, done, true, false,
  Bool-cases, Option-cases,
}
use mathlib.Core.Path.{subst}
use apigate.Str.{Str}
use apigate.Http.{Http}
use apigate.Backend.{Backend, pool_get}
use apigate.Balancing.{ProxyErrorKind, StartEvent, ResultEvent}
use apigate.Error.{CoreError, core, ApigateError, framework, custom, into_response_with}
use apigate.Proxy.Forward.{outgoing, rewrite_uri}
use apigate.Proxy.Forward.Rewriting.{HasTemplate, IsAt}
use apigate.Proxy.Forward.Sending.{IsSent, Answers, proxy_request_lem}
use apigate.Dispatch.{
  Request, Answer, Meta, Inner, Upstream, Outcome, proxy_handler, proxy_to_backend, finish,
  dispatch, after_pipeline, run_pipeline_if_needed, select_backend, within_timeout, upstream_answer,
  result_event, passes, balance_ctx, selected,
}

module _ (http : Http) (xxh3_64 : Str → ℕ) (Body Extensions : Type 0) where
  abbrev M : Type 1
  M = Meta http xxh3_64 Body Extensions

  abbrev I : Type 0
  I = Inner http xxh3_64 Body Extensions

  abbrev R : Type 0
  R = Request http xxh3_64 Body Extensions

  abbrev A : Type 0
  A = Answer http xxh3_64 Body Extensions

  abbrev U : M → Type 0
  U meta = Upstream http xxh3_64 Body Extensions meta.policy.balancer.State

  -- The balancer gave no index, or none of the pool.
  abbrev IsUnselected : M → Option ℕ → CoreError → Type 0
  IsUnselected meta picked e =
      ((picked ≡ none) × (e ≡ CoreError.no_backends_selected_by_balancer))
      ⊎ ((i : ℕ) × (picked ≡ some i)
          × (pool_get http meta.pool i ≡ none)
          × (e ≡ CoreError.invalid_backend_index))

  -- The handler from the choice on, where the balancer picked this and is in the state `s`.
  abbrev Dispatched :
      (inner : I) (meta : M)
      → U meta
      → R
      → Body
      → Option ℕ
      → meta.policy.balancer.State
      → Outcome http xxh3_64 Body Extensions meta.policy.balancer.State
      → Type 0
  Dispatched inner meta up parts body picked s o =
      ((e : CoreError) × IsUnselected meta picked e
        × (o.response ≡ done (inner.error_renderer (core e)))
        × (o.state ≡ s))
      ⊎ ((i : ℕ) × (backend : Backend http) × (picked ≡ some i)
          × (pool_get http meta.pool i ≡ some backend)
          × IsReported http xxh3_64 Body Extensions inner meta up i backend parts body s o)

  -- The ways of a request: its pipeline answers it, no backend is selected, or it is reported.
  abbrev pub Way :
      (inner : I) (meta : M) → U meta → R → Body → meta.policy.balancer.State → Option ℕ → Type 0
  Way inner meta up parts body s picked =
      let o = proxy_handler http xxh3_64 Body Extensions inner meta up parts body s in
      let left = run_pipeline_if_needed http xxh3_64 Body Extensions inner meta parts body in
      ((e : ApigateError A) × (left.1 ≡ err e)
        × (o.response ≡ done (shown_failure http xxh3_64 Body Extensions inner e))
        × (o.state ≡ s))
      ⊎ ((body' : Body) × (left.1 ≡ ok body')
          × Dispatched inner meta up left.0 body' picked
              (meta.policy.balancer.pick (balance_ctx http xxh3_64 Body Extensions meta left.0) s).1
              o)

  -- What is selected for what the balancer picked.
  selected-cases :
      (meta : M) (picked : Option ℕ)
      → ((e : CoreError) × IsUnselected meta picked e
          × (selected http xxh3_64 Body Extensions meta picked ≡ err e))
        ⊎ ((i : ℕ) × (backend : Backend http) × (picked ≡ some i)
            × (pool_get http meta.pool i ≡ some backend)
            × (selected http xxh3_64 Body Extensions meta picked ≡ ok (i, backend)))
  unfolding selected
  selected-cases meta none =
      inl (CoreError.no_backends_selected_by_balancer, inl (refl, refl), refl)
  selected-cases meta (some i) = elim (Option-cases (pool_get http meta.pool i)) [
    | inl out ↦
        inl (CoreError.invalid_backend_index, inr (i, refl, out, refl), rw (out, selected) refl)
    | inr (backend, found) ↦ inr (i, backend, refl, found, rw (found, selected) refl)
  ]

  -- The choice of a backend ends, if the balancer's pick does.
  chosen-done :
      (meta : M) (parts : R) (s : meta.policy.balancer.State) (o : Option ℕ)
      (r : Result CoreError (ℕ × Backend http))
      → (meta.policy.balancer.pick (balance_ctx http xxh3_64 Body Extensions meta parts) s).0
        ≡ done o
      → selected http xxh3_64 Body Extensions meta o ≡ r
      → select_backend http xxh3_64 Body Extensions meta parts s ≡ (
        done r,
        (meta.policy.balancer.pick (balance_ctx http xxh3_64 Body Extensions meta parts) s).1,
      )
  unfolding select_backend
  chosen-done meta parts s o r picked chosen = rw picked (rw chosen refl)

  dispatch-err :
      (inner : I) (meta : M) (up : U meta) (parts : R) (body : Body)
      (s : meta.policy.balancer.State) (picked : Option ℕ) (e : CoreError)
      → IsUnselected meta picked e
      → Dispatched inner meta up parts body picked s
          (dispatch http xxh3_64 Body Extensions inner meta up parts body (done (err e), s))
  unfolding dispatch into_response_with
  dispatch-err inner meta up parts body s picked e why = inl (e, why, refl, refl)

  dispatch-ok :
      (inner : I) (meta : M) (up : U meta) (parts : R) (body : Body)
      (s : meta.policy.balancer.State) (picked : Option ℕ) (i : ℕ) (backend : Backend http)
      → HasTemplate meta.rewrite
      → picked ≡ some i
      → pool_get http meta.pool i ≡ some backend
      → Dispatched inner meta up parts body picked s (
          dispatch http xxh3_64 Body Extensions inner meta up parts body
            (done (ok (i, backend)), s))
  unfolding dispatch
  dispatch-ok inner meta up parts body s picked i backend h same found = inr (
    i,
    backend,
    same,
    found,
    proxy_to_backend-IsReported http xxh3_64 Body Extensions inner meta up i backend parts body s h,
  )

  dispatch-Dispatched :
      (inner : I) (meta : M) (up : U meta) (parts : R) (body : Body)
      (s : meta.policy.balancer.State) (o : Option ℕ)
      → HasTemplate meta.rewrite
      → (meta.policy.balancer.pick (balance_ctx http xxh3_64 Body Extensions meta parts) s).0
        ≡ done o
      → Dispatched inner meta up parts body o
          (meta.policy.balancer.pick (balance_ctx http xxh3_64 Body Extensions meta parts) s).1
          (dispatch http xxh3_64 Body Extensions inner meta up parts body
            (select_backend http xxh3_64 Body Extensions meta parts s))
  dispatch-Dispatched inner meta up parts body s o h picked =
      let s' =
        (meta.policy.balancer.pick (balance_ctx http xxh3_64 Body Extensions meta parts) s).1 in
      elim (selected-cases meta o) [
        | inl (e, why, chosen) ↦
            subst
              (λ c.
                Dispatched inner meta up parts body o s'
                  (dispatch http xxh3_64 Body Extensions inner meta up parts body c))
              (sym (chosen-done meta parts s o (err e) picked chosen))
              (dispatch-err inner meta up parts body s' o e why)
        | inr (i, backend, same, found, chosen) ↦
            subst
              (λ c.
                Dispatched inner meta up parts body o s'
                  (dispatch http xxh3_64 Body Extensions inner meta up parts body c))
              (sym (chosen-done meta parts s o (ok (i, backend)) picked chosen))
              (dispatch-ok inner meta up parts body s' o i backend h same found)
      ]

  abbrev Piped :
      (inner : I) (meta : M)
      → U meta
      → meta.policy.balancer.State
      → Option ℕ
      → R × Result (ApigateError A) Body
      → Type 0
  Piped inner meta up s picked left =
      let o = after_pipeline http xxh3_64 Body Extensions inner meta up s left in
      ((e : ApigateError A) × (left.1 ≡ err e)
        × (o.response ≡ done (shown_failure http xxh3_64 Body Extensions inner e))
        × (o.state ≡ s))
      ⊎ ((body : Body) × (left.1 ≡ ok body)
          × Dispatched inner meta up left.0 body picked
              (meta.policy.balancer.pick (balance_ctx http xxh3_64 Body Extensions meta left.0) s).1
              o)

  after_pipeline-Piped :
      (inner : I) (meta : M) (up : U meta) (s : meta.policy.balancer.State)
      (left : R × Result (ApigateError A) Body) (o : Option ℕ)
      → HasTemplate meta.rewrite
      → (meta.policy.balancer.pick (balance_ctx http xxh3_64 Body Extensions meta left.0) s).0
        ≡ done o
      → Piped inner meta up s o left
  unfolding after_pipeline
  after_pipeline-Piped inner meta up s (parts, ok body) o h picked =
      inr (body, refl, dispatch-Dispatched inner meta up parts body s o h picked)
  after_pipeline-Piped inner meta up s (parts, err e) o h picked =
      inl (e, refl, ap done (shown-failure http xxh3_64 Body Extensions inner e), refl)

  -- Every request to a mounted route is answered, if the template of a template route is
  -- well-formed and the balancer's pick does not panic. The pipeline fails, and its own response or
  -- its rendered error is the answer; or the balancer picks no backend of the pool, and the error
  -- for that is rendered; or it picks one, and the request is refused, late, failed or answered
  -- there, which gives the answer or a rendered error. In the last case, and only then, the
  -- balancer sees the start of the request, and after it one report, for the same service and
  -- backend, with the time that passed, and with the status of the answer or the error.
  pub proxy_handler-Way :
      (inner : I) (meta : M) (up : U meta) (parts : R) (body : Body)
      (s : meta.policy.balancer.State) (o : Option ℕ)
      → HasTemplate meta.rewrite
      → (meta.policy.balancer.pick
          (balance_ctx http xxh3_64 Body Extensions meta
            (run_pipeline_if_needed http xxh3_64 Body Extensions inner meta parts body).0)
          s).0
        ≡ done o
      → Way inner meta up parts body s o
  unfolding proxy_handler
  proxy_handler-Way inner meta up parts body s o h picked =
      after_pipeline-Piped inner meta up s
        (run_pipeline_if_needed http xxh3_64 Body Extensions inner meta parts body) o h picked

  -- Each way ends in an answer.
  pub Way-answered :
      (inner : I) (meta : M) (up : U meta) (parts : R) (body : Body)
      (s : meta.policy.balancer.State) (o : Option ℕ)
      → Way inner meta up parts body s o
      → (a : A) × ((proxy_handler http xxh3_64 Body Extensions inner meta up parts body s).response
          ≡ done a)
  Way-answered inner meta up parts body s o (inl (e, _, answered, _)) = (_, answered)
  Way-answered inner meta up parts body s o (inr (_, _, inl (e, _, answered, _))) = (_, answered)
  Way-answered inner meta up parts body s o
        (inr (_, _, inr (i, backend, _, _, (r, _, answered, _, _, _)))) =
      (_, answered)
