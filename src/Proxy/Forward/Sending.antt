-- ===== src/Proxy/Forward/Sending.antt =====
-- What is sent to the backend, and what is passed on of its answer.
use apigate.Prelude.{
  ◌≡◌, ◌≢◌, refl, sym, ◌∙◌, Bool-cases, [], ◌∷◌, Option, none, some, Result, ok, err, done, inl,
  inr, ◌⊎◌, Option-cases,
}
use apigate.Str
use apigate.Str.{Str, codes}
use apigate.Http.{Http, Parts, Response}
use apigate.Rewrite.{Rewrite}
use apigate.Balancing.{ProxyErrorKind}
use apigate.Backend.{BaseUri, Backend}
use apigate.Str.Laws.{eq_iff}
use apigate.Proxy.Hops.{strip_hop_headers}
use apigate.Proxy.Hops.Exact.{Stripped, strip_hop_headers-Stripped}
use apigate.Proxy.Forward.{host, outgoing, incoming, send_request, proxy_request, rewrite_uri}
use apigate.Proxy.Forward.Rewriting.{HasTemplate, IsAt, rewrite_uri-total, rewrite_uri-IsAt}

module _ (http : Http) where
  -- A header of the request that is sent: the host of the backend, or what stripping leaves.
  abbrev pub IsOutgoing : BaseUri http → http.Headers → http.Headers → Str → Type 0
  IsOutgoing base headers sent m =
      ((m ≡ codes "host") × (http.get_all sent m ≡ base.host_header ∷ []))
      ⊎ ((m ≢ codes "host") × Stripped http headers sent m)

  -- The request that is sent has the host of the backend as its only `Host`, no value of any other
  -- hop-by-hop header, those that RFC 7230 names and those that a value of `Connection` lists, and
  -- the values of every other header of the incoming request.
  pub get_all-outgoing :
      (base : BaseUri http) (uri : http.Uri) (parts : Parts http.Uri http.Headers) (m : Str)
      → IsOutgoing base parts.headers (outgoing http base uri parts).headers m
  unfolding outgoing
  get_all-outgoing base uri parts m =
      let left = strip_hop_headers http parts.headers in
      let made = http.get_all-insert left host m base.host_header in
      elim (Bool-cases (Str.eq host m)) [
        | inl same ↦ inl (sym ((eq_iff host m).0 same), made ∙ rw same)
        | inr other ↦
            let kept : http.get_all (http.insert left host base.host_header) m
                ≡ http.get_all left m =
              made ∙ rw other in
            let differs : m ≢ codes "host" = λ e. let same = (eq_iff host m).1 (sym e) in cc in
            inr (
              differs,
              elim (strip_hop_headers-Stripped http parts.headers m) [
                | inl (hop, none_left) ↦ inl (hop, kept ∙ none_left)
                | inr (plain, all_left) ↦ inr (plain, kept ∙ all_left)
              ],
            )
      ]

  -- The request that is sent: the method of the incoming one, the URI, and its headers.
  abbrev pub IsSent :
      BaseUri http → Parts http.Uri http.Headers → http.Uri → Parts http.Uri http.Headers → Type 0
  IsSent base parts uri sent =
      (sent.method ≡ parts.method)
      × (sent.uri ≡ uri)
      × ((m : Str) → IsOutgoing base parts.headers sent.headers m)

  outgoing-IsSent :
      (base : BaseUri http) (uri : http.Uri) (parts : Parts http.Uri http.Headers)
      → IsSent base parts uri (outgoing http base uri parts)
  unfolding outgoing
  outgoing-IsSent base uri parts = (refl, refl, get_all-outgoing base uri parts)

  module _ {Body : Type 0} where
    -- The answer that is passed on for one of the client: its status, its body, and its headers less
    -- the hop-by-hop ones.
    abbrev pub IsPassedOn : Response http.Headers Body → Response http.Headers Body → Type 0
    IsPassedOn resp passed =
        (passed.status ≡ resp.status)
        × (passed.body ≡ resp.body)
        × ((m : Str) → Stripped http resp.headers passed.headers m)

    incoming-IsPassedOn : (resp : Response http.Headers Body) → IsPassedOn resp (incoming http resp)
    unfolding incoming
    incoming-IsPassedOn resp = (refl, refl, strip_hop_headers-Stripped http resp.headers)

  module _ {Body : Type 0}
      (client : Parts http.Uri http.Headers → Body → Option (Response http.Headers Body)) where
    -- How the client answers to the request that it is sent.
    abbrev pub Answers :
        Parts http.Uri http.Headers
        → Body
        → Result ProxyErrorKind (Response http.Headers Body)
        → Type 0
    Answers sent body r =
        ((client sent body ≡ none) × (r ≡ err ProxyErrorKind.upstream_request))
        ⊎ ((resp : Response http.Headers Body) × (client sent body ≡ some resp)
            × (passed : Response http.Headers Body) × (r ≡ ok passed)
            × IsPassedOn resp passed)

    send_request_lem :
        (base : BaseUri http) (parts : Parts http.Uri http.Headers) (body : Body) (uri : http.Uri)
        → Answers
            (outgoing http base uri parts)
            body
            (send_request http client base parts body (ok uri))
    unfolding send_request
    send_request_lem base parts body uri =
        elim (Option-cases (client (outgoing http base uri parts) body)) [
          | inl silent ↦ inl (silent, rw silent refl)
          | inr (resp, answered) ↦
              inr (resp, answered, incoming http resp, rw answered refl, incoming-IsPassedOn resp)
        ]

    -- Proxying never panics, if the template of a template route is well-formed, and ends in one of
    -- three ways: the URI is refused and nothing is sent; or a request is sent, to a URI with the
    -- scheme and the authority of the backend, with the method of the incoming request, the host
    -- of the backend and its other headers less the hop-by-hop ones, and then the client fails, or
    -- its answer is passed on with its status, its body and its headers less the hop-by-hop ones.
    pub proxy_request_lem :
        (backend : Backend http) (prefix : Str) (rewrite : Rewrite http.PathAndQuery)
        (parts : Parts http.Uri http.Headers) (body : Body)
        → HasTemplate rewrite
        → (r : Result ProxyErrorKind (Response http.Headers Body)) × (proxy_request http backend
              client prefix rewrite parts body
            ≡ done r)
          × (((rewrite_uri http backend.base prefix rewrite parts.uri
                  ≡ done (err ProxyErrorKind.invalid_upstream_uri))
                × (r ≡ err ProxyErrorKind.invalid_upstream_uri))
              ⊎ ((uri : http.Uri) × (rewrite_uri http backend.base prefix rewrite parts.uri
                    ≡ done (ok uri))
                  × IsAt http backend.base uri
                  × IsSent backend.base parts uri (outgoing http backend.base uri parts)
                  × Answers (outgoing http backend.base uri parts) body r))
    unfolding proxy_request send_request
    proxy_request_lem backend prefix rewrite parts body h =
        let (u, rewritten, settled) =
          rewrite_uri-total http backend.base prefix rewrite parts.uri h in
        elim settled [
          | inl (uri, fine) ↦
              let at_uri : rewrite_uri http backend.base prefix rewrite parts.uri ≡ done (ok uri) =
                rw rewritten (rw fine refl) in
              (
                send_request http client backend.base parts body (ok uri),
                rw rewritten (rw fine refl),
                inr (
                  uri,
                  at_uri,
                  rewrite_uri-IsAt http backend.base prefix rewrite parts.uri uri at_uri,
                  outgoing-IsSent backend.base uri parts,
                  send_request_lem backend.base parts body uri,
                ),
              )
          | inr bad ↦ (
            err ProxyErrorKind.invalid_upstream_uri,
            rw rewritten (rw bad refl),
            inl (rw rewritten (rw bad refl), refl),
          )
        ]
