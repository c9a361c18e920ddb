-- ===== src/Dispatch/Selection.antt =====
-- The choice of a backend for a request.
use apigate.Prelude.{
  ℕ, ◌≡◌, ◌<◌, refl, sym, ap, ◌∙◌, some, Result, ok, Run, done, true, get_elem?-lt,
}
use apigate.Str.{Str}
use apigate.Http.{Http, first}
use apigate.Backend.{Backend, pool_get, pool_len}
use apigate.Balancing.{BalanceCtx, CandidateSet, AffinityKey, is_candidate, candidate_len}
use apigate.Balancing.Words.{is_candidate_all, candidate_len_all}
use apigate.Balancing.ConsistentHash
use apigate.Balancing.ConsistentHash.{ConsistentHash}
use apigate.Balancing.ConsistentHash.Picks.{pick-is_candidate_hash, pick_sticky}
use apigate.Error.{CoreError}
use apigate.Routing.{
  header_sticky, path_sticky, RouteStrategy, header_text, extract_param, borrowed,
}
use apigate.Policy.{Policy, sticky_by_header, sticky_by_path}
use apigate.Dispatch.{Meta, Request, balance_ctx, select_backend, selected}

module _ (http : Http) (xxh3_64 : Str → ℕ) (Body Extensions : Type 0) where
  -- The metadata with another policy.
  abbrev pub with_policy :
      Meta http xxh3_64 Body Extensions → Policy http xxh3_64 → Meta http xxh3_64 Body Extensions
  with_policy meta policy = record {
    service = meta.service;
    route_path = meta.route_path;
    prefix = meta.prefix;
    rewrite = meta.rewrite;
    pool = meta.pool;
    policy = policy;
    pipeline = meta.pipeline;
  }

  abbrev M : Type 1
  M = Meta http xxh3_64 Body Extensions

  abbrev R : Type 0
  R = Request http xxh3_64 Body Extensions

  abbrev ctx_of : M → R → BalanceCtx
  ctx_of meta parts = balance_ctx http xxh3_64 Body Extensions meta parts

  abbrev pub choice :
      (meta : M) → R → meta.policy.balancer.State → Run (Result CoreError (ℕ × Backend http))
  choice meta parts s = (select_backend http xxh3_64 Body Extensions meta parts s).0

  choice-picked :
      (meta : M) (parts : R) (s : meta.policy.balancer.State) (i : ℕ) (backend : Backend http)
      → (meta.policy.balancer.pick (ctx_of meta parts) s).0 ≡ done (some i)
      → pool_get http meta.pool i ≡ some backend
      → choice meta parts s ≡ done (ok (i, backend))
  unfolding select_backend selected
  choice-picked meta parts s i backend picked there = rw picked (rw (selected, there) refl)

  -- Where the routing keeps all backends as candidates and the balancer picks a candidate, the
  -- backend at that index of the pool is selected; no index is out of range.
  pub select_backend-pick :
      (meta : M) (parts : R) (s : meta.policy.balancer.State) (i : ℕ)
      → (ctx_of meta parts).candidates ≡ CandidateSet.all
      → (meta.policy.balancer.pick (ctx_of meta parts) s).0 ≡ done (some i)
      → is_candidate (ctx_of meta parts) i ≡ true
      → (backend : Backend http) × (pool_get http meta.pool i ≡ some backend)
        × (choice meta parts s ≡ done (ok (i, backend)))
  unfolding balance_ctx
  select_backend-pick meta parts s i every picked inside =
      let (backend, there) =
        get_elem?-lt meta.pool.backends i (is_candidate_all (ctx_of meta parts) i every inside) in
      (backend, there, choice-picked meta parts s i backend picked there)

  -- The metadata with a router and the consistent-hash balancer.
  abbrev hashed : M → RouteStrategy http → M
  hashed meta router =
      with_policy meta (record { router = router; balancer = ConsistentHash.balancer xxh3_64 })

  abbrev pub HashState : Type 0
  HashState = (ConsistentHash.balancer xxh3_64).State

  -- Under the consistent-hash balancer, over a pool of at least one and less than 2^32 backends, two
  -- requests that the router gives the same context with an affinity key and all backends as
  -- candidates go to the same backend, whatever the state of the balancer is at each.
  select_backend_sticky :
      (meta : M) (router : RouteStrategy http) (parts parts' : R) (s s' : HashState)
      (key : AffinityKey)
      → ctx_of (hashed meta router) parts' ≡ ctx_of (hashed meta router) parts
      → (ctx_of (hashed meta router) parts).affinity ≡ some key
      → (ctx_of (hashed meta router) parts).candidates ≡ CandidateSet.all
      → 0 < pool_len http meta.pool
      → pool_len http meta.pool < 4294967296
      → (i : ℕ) × (backend : Backend http) × (pool_get http meta.pool i ≡ some backend)
        × (choice (hashed meta router) parts s ≡ done (ok (i, backend)))
        × (choice (hashed meta router) parts' s' ≡ done (ok (i, backend)))
  unfolding ConsistentHash.balancer balance_ctx
  select_backend_sticky meta router parts parts' s s' key same keyed every low high =
      let m = hashed meta router in
      let ctx = ctx_of m parts in
      let count : candidate_len ctx ≡ pool_len http meta.pool = candidate_len_all ctx every in
      let (i, picked, inside) =
        pick-is_candidate_hash xxh3_64 ctx s (rw count low) (rw count high) in
      let (backend, there, chosen) = select_backend-pick m parts s i every picked inside in
      let again : (m.policy.balancer.pick (ctx_of m parts') s').0 ≡ done (some i) =
        ap (λ c. (ConsistentHash.pick xxh3_64 c s').0) same
        ∙ (sym (pick_sticky xxh3_64 ctx s s' key keyed).0 ∙ picked) in
      (i, backend, there, chosen, choice-picked m parts' s' i backend again there)

  -- Under `Policy::header_sticky`, over a pool of at least one and less than 2^32 backends, requests
  -- whose header has the same text as its first value go to the same backend.
  pub select_backend_header :
      (meta : M) (header key : Str) (parts parts' : R) (s s' : HashState)
      → header_text http (first (http.get_all parts.headers header)) ≡ some key
      → header_text http (first (http.get_all parts'.headers header)) ≡ some key
      → 0 < pool_len http meta.pool
      → pool_len http meta.pool < 4294967296
      → (i : ℕ) × (backend : Backend http) × (pool_get http meta.pool i ≡ some backend)
        × (choice (with_policy meta (sticky_by_header http xxh3_64 header)) parts s
            ≡ done (ok (i, backend)))
        × (choice (with_policy meta (sticky_by_header http xxh3_64 header)) parts' s'
            ≡ done (ok (i, backend)))
  unfolding balance_ctx header_sticky
  select_backend_header meta header key parts parts' s s' here here' low high =
      select_backend_sticky meta (header_sticky http header) parts parts' s s' (borrowed key)
        (rw (here, here') refl) (rw here refl) refl low high

  -- Under `Policy::path_sticky`, over a pool of at least one and less than 2^32 backends, requests
  -- from whose paths the strategy extracts the same value of its parameter go to the same backend.
  pub select_backend_path :
      (meta : M) (param key : Str) (parts parts' : R) (s s' : HashState)
      → extract_param meta.route_path meta.prefix (http.path parts.uri) param ≡ some key
      → extract_param meta.route_path meta.prefix (http.path parts'.uri) param ≡ some key
      → 0 < pool_len http meta.pool
      → pool_len http meta.pool < 4294967296
      → (i : ℕ) × (backend : Backend http) × (pool_get http meta.pool i ≡ some backend)
        × (choice (with_policy meta (sticky_by_path http xxh3_64 param)) parts s
            ≡ done (ok (i, backend)))
        × (choice (with_policy meta (sticky_by_path http xxh3_64 param)) parts' s'
            ≡ done (ok (i, backend)))
  unfolding balance_ctx path_sticky
  select_backend_path meta param key parts parts' s s' here here' low high =
      select_backend_sticky meta (path_sticky http param) parts parts' s s' (borrowed key)
        (rw (here, here') refl) (rw here refl) refl low high
