-- ===== src/Proxy/Forward/Rewriting.antt =====
-- The upstream path of a template route, from the attributes to the URI that is sent.
use apigate.Prelude.{
  run_bind-done, done_inj, ◌≡◌, refl, ap, List, [], ◌∷◌, ◌++◌, Option, none, some, Result, ok, err,
  done, inl, inr, ◌⊎◌, ok_or,
}
use apigate.Str
use apigate.Str.{Str}
use apigate.Http.{Http}
use apigate.Rewrite.{Rewrite, FixedRewrite, RewriteTemplate}
use apigate.Balancing.{ProxyErrorKind}
use apigate.Backend.{BaseUri}
use apigate.Template.{compile_rewrite_template}
use apigate.Template.Pattern.{
  Seg, Target, print_route, print_target, fill_route, fill_target, names, IsRoute, IsTarget,
  IsFilled,
}
use apigate.Template.RoundTrip.{template_of, compile_rewrite_template-print}
use apigate.Template.Safety.{IsTemplate}
use apigate.Proxy.Paths.{
  Range, capture_raw, render_chunks, render_template, push_query, strip_prefix,
}
use apigate.Proxy.Paths.Rendering.{ranges, capture_raw-fill, Placed-joined, render_chunks-fill}
use apigate.Proxy.Paths.Prefix.{strip_prefix-append_rest}
use apigate.Proxy.Paths.Safety.{render_template-total}
use apigate.Proxy.Forward.{
  stripped_path_and_query, fixed_path_and_query, make_path_and_query, rewrite_uri,
  rewrite_path_and_query, upstream_parts, upstream_uri, rendered_path_and_query,
}

abbrev pub HasTemplate : {P : Type 0} → Rewrite P → Type 0
HasTemplate Rewrite.strip_prefix = Unit
HasTemplate (Rewrite.fixed f) = Unit
HasTemplate (Rewrite.template tpl) = IsTemplate tpl

render_template_lem :
    (tpl : RewriteTemplate) (path : Str) (query : Option Str) (caps : List Range) (out : Str)
    → capture_raw tpl.src path ≡ some caps
    → render_chunks tpl.dst caps path [] ≡ done out
    → render_template tpl path query ≡ done (some (push_query out query))
unfolding render_template
render_template_lem tpl path query caps out fits text = rw (fits, render_template) (rw text)

pub render_template-fill :
    (segs : List Seg) (t : Target) (v : Str → Str) (query : Option Str)
    → IsRoute [] segs
    → IsTarget (names segs) t
    → IsFilled v segs
    → (tpl : RewriteTemplate) × (compile_rewrite_template (print_route segs) (print_target t)
        ≡ done (ok tpl))
      × (render_template tpl (fill_route v segs) query
          ≡ done (some (push_query (fill_target v t) query)))
render_template-fill segs t v query r h f = (
  template_of segs t,
  compile_rewrite_template-print segs t r h,
  render_template_lem (template_of segs t) (fill_route v segs) query (ranges v segs 1)
      (fill_target v t) (capture_raw-fill v segs r f)
      (render_chunks-fill (fill_route v segs) v segs t.first t.parts []
        (Placed-joined (fill_route v segs) v segs (b'/' ∷ []) 1 refl refl) h),
)

-- A request whose path stands under the service prefix, behind it a path that instantiates the
-- route, is rewritten, where the parsers of URIs accept the result, to a URI with the scheme and
-- the authority of the backend, and with the filled target and the query of the request.
pub rewrite_uri-fill :
    (http : Http) (base : BaseUri http) (uri sent : http.Uri) (pq : http.PathAndQuery)
    (prefix : Str) (segs : List Seg) (t : Target) (v : Str → Str)
    → IsRoute [] segs
    → IsTarget (names segs) t
    → IsFilled v segs
    → http.path uri ≡ prefix ++ fill_route v segs
    → http.parse_path_and_query (push_query (fill_target v t) (http.query uri)) ≡ some pq
    → http.from_parts (record {
      scheme = some base.scheme;
      authority = some base.authority;
      path_and_query = some pq;
    })
      ≡ some sent
    → (tpl : RewriteTemplate) × (compile_rewrite_template (print_route segs) (print_target t)
        ≡ done (ok tpl))
      × (rewrite_uri http base prefix (Rewrite.template tpl) uri ≡ done (ok sent))
      × ((http.into_parts sent).scheme ≡ some base.scheme)
      × ((http.into_parts sent).authority ≡ some base.authority)
      × ((http.into_parts sent).path_and_query ≡ some pq)
unfolding rewrite_uri rewrite_path_and_query upstream_uri rendered_path_and_query Str.starts_with
rewrite_uri-fill http base uri sent pq prefix segs t v r h f at_prefix parsed made =
    let (tpl, compiled, rendered) = render_template-fill segs t v (http.query uri) r h f in
    let stripped = strip_prefix-append_rest prefix (fill_route v segs) in
    (
      tpl,
      compiled,
      rw at_prefix (
          rw (stripped, Str.starts_with)
            (rw (rendered, rendered_path_and_query) (rw parsed (rw made)))),
      ap (λ p. p.scheme) (http.into_parts-from_parts _ sent made),
      ap (λ p. p.authority) (http.into_parts-from_parts _ sent made),
      ap (λ p. p.path_and_query) (http.into_parts-from_parts _ sent made),
    )

-- What the parsers of URIs give: a value, or the error for an invalid URI.
abbrev pub Settled : {A : Type 0} → Result ProxyErrorKind A → Type 0
Settled {A} r = ((a : A) × (r ≡ ok a)) ⊎ (r ≡ err ProxyErrorKind.invalid_upstream_uri)

ok_or-Settled : {A : Type 0} (o : Option A) → Settled (ok_or o ProxyErrorKind.invalid_upstream_uri)
ok_or-Settled none = inr refl
ok_or-Settled (some a) = inl (a, refl)

module _ (http : Http) where
  stripped-Settled :
      (path : Str) (query : Option Str) → Settled (stripped_path_and_query http path query)
  unfolding stripped_path_and_query make_path_and_query
  stripped-Settled path none = ok_or-Settled _
  stripped-Settled path (some q) = ok_or-Settled _

  fixed-Settled :
      (f : FixedRewrite http.PathAndQuery) (query : Option Str)
      → Settled (fixed_path_and_query http f query)
  unfolding fixed_path_and_query make_path_and_query
  fixed-Settled f none = inl (f.no_query, refl)
  fixed-Settled f (some q) = ok_or-Settled _

  rendered-Settled : (o : Option Str) → Settled (rendered_path_and_query http o)
  unfolding rendered_path_and_query
  rendered-Settled none = inr refl
  rendered-Settled (some s) = ok_or-Settled _

  rewrite_path_and_query-done :
      (prefix : Str) (rewrite : Rewrite http.PathAndQuery) (uri : http.Uri)
      → HasTemplate rewrite
      → (r : Result ProxyErrorKind http.PathAndQuery) × (rewrite_path_and_query http prefix rewrite
            uri
          ≡ done r)
        × Settled r
  unfolding rewrite_path_and_query
  rewrite_path_and_query-done prefix Rewrite.strip_prefix uri h = (
    stripped_path_and_query http (strip_prefix (http.path uri) prefix) (http.query uri),
    refl,
    stripped-Settled _ _,
  )
  rewrite_path_and_query-done prefix (Rewrite.fixed f) uri h =
      (fixed_path_and_query http f (http.query uri), refl, fixed-Settled _ _)
  rewrite_path_and_query-done prefix (Rewrite.template tpl) uri h =
      let (o, rendered) =
        render_template-total tpl (strip_prefix (http.path uri) prefix) (http.query uri) h in
      (rendered_path_and_query http o, rw rendered refl, rendered-Settled o)

  upstream_uri-Settled :
      (base : BaseUri http) (r : Result ProxyErrorKind http.PathAndQuery)
      → Settled r
      → Settled (upstream_uri http base r)
  unfolding upstream_uri
  upstream_uri-Settled base (ok pq) h = ok_or-Settled _
  upstream_uri-Settled base (err e) (inl (pq, same)) = cc
  upstream_uri-Settled base (err e) (inr same) = inr cc

  -- No rewrite panics, if the template of a template route is well-formed: every URI gives a
  -- rewritten URI or the error for an invalid one.
  pub rewrite_uri-total :
      (base : BaseUri http) (prefix : Str) (rewrite : Rewrite http.PathAndQuery) (uri : http.Uri)
      → HasTemplate rewrite
      → (r : Result ProxyErrorKind http.Uri) × (rewrite_uri http base prefix rewrite uri ≡ done r)
        × Settled r
  unfolding rewrite_uri
  rewrite_uri-total base prefix rewrite uri h =
      let (r, same, settled) = rewrite_path_and_query-done prefix rewrite uri h in
      (upstream_uri http base r, rw same refl, upstream_uri-Settled base r settled)

  ok_or-some :
      {A : Type 0} {a : A} (o : Option A)
      → ◌≡◌ {A = Result ProxyErrorKind A} (ok_or o ProxyErrorKind.invalid_upstream_uri) (ok a)
      → o ≡ some a
  ok_or-some none h = cc
  ok_or-some (some b) h = cc

  -- The URI has the scheme and the authority of the backend.
  abbrev pub IsAt : BaseUri http → http.Uri → Type 0
  IsAt base uri =
      ((http.into_parts uri).scheme ≡ some base.scheme)
      × ((http.into_parts uri).authority ≡ some base.authority)

  upstream_uri-IsAt :
      (base : BaseUri http) (r : Result ProxyErrorKind http.PathAndQuery) (uri : http.Uri)
      → upstream_uri http base r ≡ ok uri
      → IsAt base uri
  unfolding upstream_uri
  upstream_uri-IsAt base (err e) uri made = cc
  upstream_uri-IsAt base (ok pq) uri made =
      let has = http.into_parts-from_parts (upstream_parts http base pq) uri (ok_or-some _ made) in
      (ap (λ p. p.scheme) has, ap (λ p. p.authority) has)

  -- What a rewrite gives is at the backend.
  pub rewrite_uri-IsAt :
      (base : BaseUri http) (prefix : Str) (rewrite : Rewrite http.PathAndQuery)
      (uri sent : http.Uri)
      → rewrite_uri http base prefix rewrite uri ≡ done (ok sent)
      → IsAt base sent
  unfolding rewrite_uri
  rewrite_uri-IsAt base prefix rewrite uri sent made =
      let (r, _, made') = run_bind-done (rewrite_path_and_query http prefix rewrite uri) _ _ made in
      upstream_uri-IsAt base r sent (done_inj made')
