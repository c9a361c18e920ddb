-- ===== src/PartsCtx/Extract.antt =====
-- apigate-core/src/parts_ctx.rs: typed path and query parameters. The extractor of axum works on the
-- head of the request, which it may change.
use apigate.Prelude.{[], String, Option, none, some, Result, ok, err}
use apigate.Str.{Str}
use apigate.Http.{Http}
use apigate.Error.{CoreError, PipelineError}
use apigate.Pipeline.{PartsCtx}
use apigate.PartsCtx.{set_encoded_query}
use apigate.Facade.{Serde, parse_with}

unfoldable pub or_default : Option Str → Str
or_default none = []
or_default (some s) = s

module _ (http : Http) (serde : Serde) where
  -- `Path::<T>::from_request_parts`
  unfoldable pub extract_path :
      (serde.Ty → PartsCtx http → PartsCtx http × Option serde.Value)
      → PartsCtx http
      → serde.Ty
      → PartsCtx http × Result CoreError serde.Value
  extract_path from_request_parts ctx ty =
      let (ctx', found) = from_request_parts ty ctx in
      (ctx', elim found [ none ↦ err CoreError.invalid_path_parameters | some v ↦ ok v ])

  unfoldable pub extract_query : PartsCtx http → serde.Ty → Result PipelineError serde.Value
  unfolding parse_with or_default
  extract_query ctx ty =
      let raw = or_default (http.query ctx.parts.uri) in
      parse_with PipelineError.invalid_query (serde.query ty raw) (serde.track_query ty raw)

  set_serialized :
      http.Uri
      → String
      → PartsCtx http
      → Result String Str
      → PartsCtx http × Result {0, 0} PipelineError Unit
  unfolding set_encoded_query
  set_serialized default detail ctx (err e) =
      (ctx, err (PipelineError.failed_serialize_mapped_query e))
  set_serialized default detail ctx (ok encoded) = set_encoded_query http default detail ctx encoded

  unfoldable pub set_query :
      http.Uri
      → String
      → PartsCtx http
      → serde.Value
      → PartsCtx http × Result {0, 0} PipelineError Unit
  unfolding set_serialized
  set_query default detail ctx query =
      set_serialized default detail ctx (serde.query_to_string query)
