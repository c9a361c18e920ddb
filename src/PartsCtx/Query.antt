-- ===== src/PartsCtx/Query.antt =====
-- Replacing the query of a URI.
use apigate.Prelude.{err, ◌≡◌, ◌≢◌, [], ◌∷◌, ◌++◌, String, ◌⊎◌, Option, none, some, Result, ok}
use apigate.Str
use apigate.Str.{Str}
use apigate.Http.{Http, UriParts}
use apigate.Error.{PipelineError}
use apigate.Pipeline.{PartsCtx}

module _ (http : Http) (default : http.Uri) (detail : String) where
  abbrev Out : Type 0
  Out = PartsCtx http × Result {0, 0} PipelineError Unit

  abbrev Uri : Type 0
  Uri = UriParts http.Scheme http.Authority http.PathAndQuery

  -- The URI has this query already: the same text, or none where none is set.
  abbrev pub IsSame : Str → Option Str → Type 0
  IsSame encoded none = encoded ≡ []
  IsSame encoded (some current) = (encoded ≢ []) × (current ≡ encoded)

  -- The path, and behind a question mark the query if there is one.
  abbrev pub new_target : Str → Str → Str
  new_target path [] = path
  new_target path (c ∷ encoded) = path ++ (b'?' ∷ c ∷ encoded)

  -- A scheme without an authority, or an authority without a scheme.
  abbrev IsHalf : Uri → Type 0
  IsHalf u =
      ((scheme : http.Scheme) × (u.scheme ≡ some scheme) × (u.authority ≡ none))
      ⊎ ((authority : http.Authority) × (u.authority ≡ some authority) × (u.scheme ≡ none))

  abbrev IsFailed : Result {0, 0} PipelineError Unit → Type 0
  IsFailed r = (text : String) × (r ≡ err (PipelineError.failed_rebuild_uri text))

  -- The outcomes of a replacement by the parsed text. The text does not parse or the URI is half of
  -- one, and nothing changes; no URI can be made of the parts, and the default one is left; or the
  -- scheme and the authority stay and the path and query are the parsed ones.
  abbrev pub IsReplaced : PartsCtx http → Option http.PathAndQuery → Out → Type 0
  IsReplaced ctx parsed out =
      let old = http.into_parts ctx.parts.uri in
      ((parsed ≡ none) × (out.0 ≡ ctx) × IsFailed out.1)
      ⊎ ((pq : http.PathAndQuery) × (parsed ≡ some pq)
          × ((IsHalf old × (out.0 ≡ ctx) × IsFailed out.1)
              ⊎ ((http.from_parts (record {
                scheme = old.scheme;
                authority = old.authority;
                path_and_query = some pq;
              })
                    ≡ none)
                  × IsFailed out.1
                  × (out.0.parts.uri ≡ default))
              ⊎ ((out.1 ≡ ok tt)
                  × ((http.into_parts out.0.parts.uri).scheme ≡ old.scheme)
                  × ((http.into_parts out.0.parts.uri).authority ≡ old.authority)
                  × ((http.into_parts out.0.parts.uri).path_and_query ≡ some pq))))

  -- Nothing but the URI changes.
  abbrev pub IsKept : PartsCtx http → Out → Type 0
  IsKept ctx out =
      (out.0.parts.headers ≡ ctx.parts.headers)
      × (out.0.parts.method ≡ ctx.parts.method)
      × (out.0.service ≡ ctx.service)
      × (out.0.route_path ≡ ctx.route_path)
