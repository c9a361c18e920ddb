-- ===== src/Proxy/Forward.antt =====
-- apigate-core/src/proxy.rs: the upstream URI and the forwarding of a request. The HTTP client is a
-- parameter: what it answers to a request, or nothing if the request fails.
pub mod Rewriting
pub mod Sending
use apigate.Prelude.{
  Option, none, some, List, [], ◌∷◌, ◌++◌, Result, ok, err, map_err, ok_or, Run, done, panic,
  out_of_fuel, run_bind, Bool,
}
use mathlib.Core.Option
use apigate.Str.{Str, codes}
use apigate.Http.{Http, Parts, Response, UriParts}
use apigate.Rewrite.{Rewrite, FixedRewrite}
use apigate.Balancing.{ProxyErrorKind}
use apigate.Backend.{BaseUri, Backend}
use apigate.Proxy.Paths.{strip_prefix, render_template}
use apigate.Proxy.Hops.{strip_hop_headers}

abbrev pub host : Str
host = codes "host"

module _ (http : Http) where
  pub make_path_and_query : Str → Str → Result ProxyErrorKind http.PathAndQuery
  make_path_and_query path query =
      ok_or (http.parse_path_and_query (path ++ b'?' ∷ query)) ProxyErrorKind.invalid_upstream_uri

  -- `PathAndQuery::try_from`, with its error mapped
  abbrev path_and_query_of : Str → Result ProxyErrorKind http.PathAndQuery
  path_and_query_of s = ok_or (http.parse_path_and_query s) ProxyErrorKind.invalid_upstream_uri

  pub fixed_path_and_query :
      FixedRewrite http.PathAndQuery → Option Str → Result ProxyErrorKind http.PathAndQuery
  unfolding make_path_and_query
  fixed_path_and_query fixed none = ok fixed.no_query
  fixed_path_and_query fixed (some q) = make_path_and_query fixed.raw q

  pub stripped_path_and_query : Str → Option Str → Result ProxyErrorKind http.PathAndQuery
  unfolding make_path_and_query
  stripped_path_and_query stripped none = path_and_query_of stripped
  stripped_path_and_query stripped (some q) = make_path_and_query stripped q

  pub rendered_path_and_query : Option Str → Result ProxyErrorKind http.PathAndQuery
  rendered_path_and_query none = err ProxyErrorKind.invalid_upstream_uri
  rendered_path_and_query (some rendered) = path_and_query_of rendered

  -- The code returns an optional path, which every branch gives; a panic is one of
  -- `render_template`.
  pub rewrite_path_and_query :
      Str → Rewrite http.PathAndQuery → http.Uri → Run (Result ProxyErrorKind http.PathAndQuery)
  unfolding fixed_path_and_query stripped_path_and_query rendered_path_and_query render_template
  rewrite_path_and_query prefix Rewrite.strip_prefix uri =
      done (stripped_path_and_query (strip_prefix (http.path uri) prefix) (http.query uri))
  rewrite_path_and_query prefix (Rewrite.fixed f) uri =
      done (fixed_path_and_query f (http.query uri))
  rewrite_path_and_query prefix (Rewrite.template tpl) uri =
      run_bind (render_template tpl (strip_prefix (http.path uri) prefix) (http.query uri))
        (λ rendered. done (rendered_path_and_query rendered))

  -- The parts of the incoming URI, at the upstream and with the new path.
  abbrev pub upstream_parts :
      BaseUri http → http.PathAndQuery → UriParts http.Scheme http.Authority http.PathAndQuery
  upstream_parts base pq = record {
    scheme = some base.scheme;
    authority = some base.authority;
    path_and_query = some pq;
  }

  pub upstream_uri :
      BaseUri http → Result ProxyErrorKind http.PathAndQuery → Result ProxyErrorKind http.Uri
  upstream_uri base (err e) = err e
  upstream_uri base (ok pq) =
      ok_or (http.from_parts (upstream_parts base pq)) ProxyErrorKind.invalid_upstream_uri

  pub rewrite_uri :
      BaseUri http
      → Str
      → Rewrite http.PathAndQuery
      → http.Uri
      → Run (Result ProxyErrorKind http.Uri)
  unfolding upstream_uri rewrite_path_and_query
  rewrite_uri base prefix rewrite uri =
      run_bind (rewrite_path_and_query prefix rewrite uri) (λ pq. done (upstream_uri base pq))

  -- The request that is sent upstream.
  pub outgoing : BaseUri http → http.Uri → Parts http.Uri http.Headers → Parts http.Uri http.Headers
  unfolding strip_hop_headers
  outgoing base uri parts = record {
    method = parts.method;
    uri = uri;
    headers = http.insert (strip_hop_headers http parts.headers) host base.host_header;
  }

  module _ {Body : Type 0} where
    -- The answer that is passed on.
    pub incoming : Response http.Headers Body → Response http.Headers Body
    unfolding strip_hop_headers
    incoming resp = record {
      status = resp.status;
      headers = strip_hop_headers http resp.headers;
      body = resp.body;
    }

    pub send_request :
        (client : Parts http.Uri http.Headers → Body → Option (Response http.Headers Body))
        → BaseUri http
        → Parts http.Uri http.Headers
        → Body
        → Result ProxyErrorKind http.Uri
        → Result ProxyErrorKind (Response http.Headers Body)
    unfolding outgoing incoming
    send_request client base parts body (err e) = err e
    send_request client base parts body (ok uri) =
        ok_or (Option.map incoming (client (outgoing base uri parts) body))
          ProxyErrorKind.upstream_request

    pub proxy_request :
        Backend http
        → (client : Parts http.Uri http.Headers → Body → Option (Response http.Headers Body)) → Str
        → Rewrite http.PathAndQuery
        → Parts http.Uri http.Headers
        → Body
        → Run (Result ProxyErrorKind (Response http.Headers Body))
    unfolding rewrite_uri send_request
    proxy_request backend client prefix rewrite parts body =
        run_bind (rewrite_uri backend.base prefix rewrite parts.uri)
          (λ uri. done (send_request client backend.base parts body uri))
