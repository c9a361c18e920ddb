-- ===== src/PartsCtx.antt =====
-- apigate-core/src/parts_ctx.rs: what hooks and maps do to the head of a request. Each operation
-- gives the changed context and its result. The child module Extract has the
-- extractors.
pub mod Headers
pub mod Query
pub mod Extract
use apigate.Prelude.{
  List, [], ◌∷◌, ◌++◌, String, Bool, true, false, Option, none, some, is_some, Result, ok, err, Run,
  done, panic, out_of_fuel, is_empty, if◌then◌else◌, or_panic,
}
use apigate.Str
use apigate.Str.{Str}
use apigate.Http.{Http, Parts, UriParts, first}
use apigate.Error.{CoreError, PipelineError}
use apigate.Pipeline.{PartsCtx}

module _ (http : Http) where
  abbrev pub with_headers : PartsCtx http → http.Headers → PartsCtx http
  with_headers ctx headers = record {
    service = ctx.service;
    route_path = ctx.route_path;
    parts = record { method = ctx.parts.method; uri = ctx.parts.uri; headers = headers };
  }

  abbrev with_uri : PartsCtx http → http.Uri → PartsCtx http
  with_uri ctx uri = record {
    service = ctx.service;
    route_path = ctx.route_path;
    parts = record { method = ctx.parts.method; uri = uri; headers = ctx.parts.headers };
  }

  -- What is lent: the value, and the context once another is written to it.
  abbrev uri_mut : PartsCtx http → http.Uri × (http.Uri → PartsCtx http)
  uri_mut ctx = (ctx.parts.uri, with_uri ctx)

  abbrev headers_mut : PartsCtx http → http.Headers × (http.Headers → PartsCtx http)
  headers_mut ctx = (ctx.parts.headers, with_headers ctx)

  text_of : Option http.HeaderValue → Option Str
  text_of none = none
  text_of (some v) = http.to_str v

  unfoldable pub header : PartsCtx http → Str → Option Str
  unfolding text_of
  header ctx name = text_of (first (http.get_all ctx.parts.headers name))

  -- The name and the value are what the caller's conversions gave.
  pub set_header :
      PartsCtx http
      → Option Str
      → Option http.HeaderValue
      → PartsCtx http × Result {0, 0} CoreError Unit
  set_header ctx none value = (ctx, err CoreError.invalid_header_name)
  set_header ctx (some name) none = (ctx, err CoreError.invalid_header_value)
  set_header ctx (some name) (some value) =
      (with_headers ctx (http.insert ctx.parts.headers name value), ok tt)

  pub set_header_if_absent :
      PartsCtx http
      → Option Str
      → Option http.HeaderValue
      → PartsCtx http × Result {0, 0} CoreError Unit
  unfolding set_header
  set_header_if_absent ctx none value = (ctx, err CoreError.invalid_header_name)
  set_header_if_absent ctx (some name) value =
      if is_empty (http.get_all ctx.parts.headers name)
      then set_header ctx (some name) value
      else (ctx, ok tt)

  unfoldable remove_header : PartsCtx http → Str → PartsCtx http
  remove_header ctx name = with_headers ctx (http.remove ctx.parts.headers name)

  abbrev pub replaced :
      UriParts http.Scheme http.Authority http.PathAndQuery
      → http.PathAndQuery
      → UriParts http.Scheme http.Authority http.PathAndQuery
  replaced parts pq = record {
    scheme = parts.scheme;
    authority = parts.authority;
    path_and_query = some pq;
  }

  -- The two cases in which nothing changes.
  pub is_same : Str → Option Str → Bool
  unfolding Str.eq
  is_same encoded none = is_empty encoded
  is_same encoded (some current) = if is_empty encoded then false else Str.eq current encoded

  -- The text of the new path and query.
  abbrev pub target_text : Str → Str → Str
  target_text path encoded = path ++ (if is_empty encoded then [] else b'?' ∷ encoded)

  -- `default` is what `std::mem::take` leaves, and `detail` the text of the parser's error.
  module _ (default : http.Uri) (detail : String) where
    pub rebuilt : PartsCtx http → Option http.Uri → PartsCtx http × Result {0, 0} PipelineError Unit
    rebuilt ctx none = (with_uri ctx default, err (PipelineError.failed_rebuild_uri detail))
    rebuilt ctx (some uri) = (with_uri ctx uri, ok tt)

    pub replace_at :
        PartsCtx http
        → UriParts http.Scheme http.Authority http.PathAndQuery
        → Bool
        → Bool
        → http.PathAndQuery
        → PartsCtx http × Result {0, 0} PipelineError Unit
    unfolding rebuilt
    replace_at ctx parts true false pq = (
      ctx,
      err (PipelineError.failed_rebuild_uri "cannot rebuild uri with scheme but no authority"),
    )
    replace_at ctx parts false true pq = (
      ctx,
      err (
          PipelineError.failed_rebuild_uri "cannot rebuild authority-form uri with path and query"),
    )
    replace_at ctx parts true true pq = rebuilt ctx (http.from_parts (replaced parts pq))
    replace_at ctx parts false false pq = rebuilt ctx (http.from_parts (replaced parts pq))

    pub replace_path_and_query :
        PartsCtx http → http.PathAndQuery → PartsCtx http × Result {0, 0} PipelineError Unit
    unfolding replace_at
    replace_path_and_query ctx pq =
        let parts = http.into_parts ctx.parts.uri in
        replace_at ctx parts (is_some parts.scheme) (is_some parts.authority) pq

    pub replace_parsed :
        PartsCtx http → Option http.PathAndQuery → PartsCtx http × Result {0, 0} PipelineError Unit
    unfolding replace_path_and_query
    replace_parsed ctx none = (ctx, err (PipelineError.failed_rebuild_uri detail))
    replace_parsed ctx (some pq) = replace_path_and_query ctx pq

    -- For an empty query at the root the code takes the constant "/", which is what the text is.
    unfoldable pub set_encoded_query :
        PartsCtx http → Str → PartsCtx http × Result {0, 0} PipelineError Unit
    unfolding is_same replace_parsed
    set_encoded_query ctx encoded =
        if is_same encoded (http.query ctx.parts.uri)
        then (ctx, ok tt)
        else replace_parsed ctx
            (http.parse_path_and_query (target_text (http.path ctx.parts.uri) encoded))
