-- ===== src/Macros/Codegen/Phases.antt =====
-- apigate-macros/src/codegen.rs: the phase of the body, and the whole pipeline.
pub mod Empty
pub mod Outcomes
pub mod Forwards
use apigate.Prelude.{
  ℕ, List, [], ◌∷◌, String, Bool, true, false, not, ◌&&◌, ◌||◌, Option, none, some, is_some,
  is_empty, Result, ok, err, map_err, ok_or, if◌then◌else◌,
}
use apigate.Str
use apigate.Str.{Str}
use apigate.Http.{Http, Parts}
use apigate.Error.{ApigateError, PipelineError, CoreError, of_core, of_pipeline}
use apigate.Pipeline
use apigate.Pipeline.{
  PartsCtx, RequestScope, TypeMap, RawBody, take_body, read_body_bytes, raw_body_cloned,
}
use apigate.PartsCtx.{with_headers, header, set_encoded_query}
use apigate.PartsCtx.Extract.{or_default, extract_path, extract_query}
use apigate.Macros.Args.{DataKind, nothing, multipart, json, form}
use apigate.Facade.{
  Serde, BodyOutcome, keep, replace, outcome_of, Format, Output, parse_json, parse_form,
  parse_form_query, Source, Out, finish,
}
use apigate.Macros.Codegen.{
  Pipe, Async, ◌>>=◌, ◌>>◌, lift, Input, parsed, raw_input, Env, State, M, pipeline_result,
  read_body, set_headers, path_phase, query_phase, hook_phase, take_body_expr,
}

abbrev pub content_type_name : Str
content_type_name = Str.codes "content-type"

abbrev pub content_length_name : Str
content_length_name = Str.codes "content-length"

module _ (http : Http) (map : TypeMap) (serde : Serde) {Body Custom : Type 0}
    (env : Env http map serde Body Custom) where
  abbrev Code : Type 0 → Type 0
  Code A = M http map serde env A

  -- The wrapper of a map (`finish_block` in expand.rs): the user's body, then its output in the format.
  unfoldable pub call_map :
      (f : Format)
      → env.ItemPath
      → Input serde
      → Code (BodyOutcome (Out serde Body env.IntoBody env.into f))
  unfolding finish outcome_of
  call_map f map_fn input = do
    output ← env.user_map f map_fn input
    payload ←
        lift (pipeline_result http map serde env (finish serde Body env.IntoBody env.into f output))
    lift (ok (outcome_of payload))

  -- `Body::from(new_body)`
  abbrev pub payload_body : (f : Format) → Out serde Body env.IntoBody env.into f → Body
  payload_body Format.json s = env.body_of s
  payload_body Format.form s = env.body_of s
  payload_body Format.raw body = body

  pub set_content_type : Option Str → http.Headers → http.Headers
  set_content_type none h = h
  set_content_type (some content_type) h =
      http.insert h content_type_name (env.from_static content_type)

  pub replace_or_keep :
      (f : Format)
      → Option Str
      → Str
      → BodyOutcome (Out serde Body env.IntoBody env.into f)
      → Code Body
  unfolding set_content_type
  replace_or_keep f content_type bytes (replace new_body) = do
    set_headers http map serde env
        (λ h. http.remove (set_content_type content_type h) content_length_name)
    lift (ok (payload_body f new_body))
  replace_or_keep f content_type bytes keep = lift (ok (env.body_of bytes))

  pub map_replace_or_keep : (f : Format) → env.ItemPath → Input serde → Option Str → Str → Code Body
  unfolding call_map replace_or_keep
  map_replace_or_keep f map_fn input content_type bytes =
      call_map f map_fn input >>= replace_or_keep f content_type bytes

  -- The test of the guard, on the content type or the empty text.
  pub is_refused : (prefix : Str) → (needle : Option Str) → Str → Bool
  unfolding Str.starts_with_str Str.contains_str
  is_refused prefix none content_type = not (Str.starts_with_str content_type prefix)
  is_refused prefix (some needle) content_type =
      not (Str.starts_with_str content_type prefix) || not (Str.contains_str content_type needle)

  pub content_type_guard : (prefix : Str) → (needle : Option Str) → PipelineError → Code (Unit {0})
  unfolding is_refused header or_default
  content_type_guard prefix needle error s =
      if is_refused prefix needle (or_default (header http s.ctx content_type_name))
      then (s, err (of_pipeline error))
      else (s, ok tt)

  pub multipart_guard : Bool → Code (Unit {0})
  unfolding content_type_guard
  multipart_guard true =
      content_type_guard (Str.codes "multipart/form-data") (some (Str.codes "boundary="))
        PipelineError.expected_multipart_form_data
  multipart_guard false = lift (ok tt)

  pub none_map_phase : env.ItemPath → (expect_multipart : Bool) → Code Body
  unfolding multipart_guard map_replace_or_keep raw_body_cloned
  none_map_phase map_fn expect_multipart = do
    multipart_guard expect_multipart
    body ← read_body http map serde env
    raw ← λ s. (
      s,
      pipeline_result http map serde env
          (ok_or (raw_body_cloned s.scope) (PipelineError.missing_from_scope "RawBody")),
    )
    map_replace_or_keep Format.raw map_fn (raw_input raw) none body

  pub json_phase : serde.Ty → Option env.ItemPath → Code Body
  unfolding parse_json map_replace_or_keep
  json_phase ty (some map_fn) = do
    body ← read_body http map serde env
    input ← lift (pipeline_result http map serde env (parse_json serde ty body))
    map_replace_or_keep Format.json map_fn (parsed input) (some (Str.codes "application/json")) body
  json_phase ty none = do
    body ← read_body http map serde env
    _ ← lift (pipeline_result http map serde env (parse_json serde ty body))
    lift (ok (env.body_of body))

  -- `if let BodyOutcome::Replace(encoded) = … { ctx.set_encoded_query(&encoded)?; }`
  pub replace_query : BodyOutcome Str → Code (Unit {0})
  unfolding set_encoded_query
  replace_query keep s = (s, ok tt)
  replace_query (replace encoded) s =
      let (ctx, r) = set_encoded_query http env.default_uri env.uri_error s.ctx encoded in
      (record s { ctx = ctx }, pipeline_result http map serde env r)

  pub parse_query_input : serde.Ty → Code serde.Value
  unfolding parse_form_query or_default
  parse_query_input ty s = (
    s,
    pipeline_result http map serde env
        (parse_form_query serde ty (or_default (http.query s.ctx.parts.uri))),
  )

  pub form_get_branch : serde.Ty → Option env.ItemPath → Code Body
  unfolding parse_query_input call_map replace_query take_body_expr
  form_get_branch ty (some map_fn) = do
    input ← parse_query_input ty
    outcome ← call_map Format.form map_fn (parsed input)
    replace_query outcome
    take_body_expr http map serde env
  form_get_branch ty none = do _ ← parse_query_input ty; take_body_expr http map serde env

  pub form_post_branch : serde.Ty → Option env.ItemPath → Code Body
  unfolding parse_form map_replace_or_keep
  form_post_branch ty (some map_fn) = do
    body ← read_body http map serde env
    input ← lift (pipeline_result http map serde env (parse_form serde ty body))
    map_replace_or_keep Format.form map_fn (parsed input)
        (some (Str.codes "application/x-www-form-urlencoded")) body
  form_post_branch ty none = do
    body ← read_body http map serde env
    _ ← lift (pipeline_result http map serde env (parse_form serde ty body))
    lift (ok (env.body_of body))

  pub form_phase : serde.Ty → Option env.ItemPath → (body_in_query : Bool) → Code Body
  unfolding form_get_branch form_post_branch content_type_guard
  form_phase ty map_fn true = form_get_branch ty map_fn
  form_phase ty map_fn false =
      content_type_guard (Str.codes "application/x-www-form-urlencoded") none
        PipelineError.expected_form_url_encoded
      >> form_post_branch ty map_fn

  pub build_body_phase :
      DataKind serde.Ty → Option env.ItemPath → (body_in_query : Bool) → Code Body
  unfolding take_body_expr none_map_phase json_phase form_phase
  build_body_phase nothing none body_in_query = take_body_expr http map serde env
  build_body_phase multipart none body_in_query = take_body_expr http map serde env
  build_body_phase nothing (some map_fn) body_in_query = none_map_phase map_fn false
  build_body_phase multipart (some map_fn) body_in_query = none_map_phase map_fn true
  build_body_phase (json ty) map_fn body_in_query = json_phase ty map_fn
  build_body_phase (form ty) map_fn body_in_query = form_phase ty map_fn body_in_query

  -- The body of the generated function.
  pub generated :
      List env.ItemPath
      → DataKind serde.Ty
      → Option env.ItemPath
      → Option serde.Ty
      → Option serde.Ty
      → (body_in_query : Bool) → Code Body
  unfolding path_phase query_phase hook_phase build_body_phase
  generated hooks content map_fn path_type query_type body_in_query = do
    path_phase http map serde env path_type
    query_phase http map serde env query_type
    hook_phase http map serde env hooks
    build_body_phase content map_fn body_in_query

  abbrev pub PipelineFn : Type 0
  PipelineFn =
      PartsCtx http
      → RequestScope Body map.Extensions
      → Parts http.Uri http.Headers × Result (ApigateError Custom) Body

  pub as_pipeline : Code Body → PipelineFn
  as_pipeline m ctx scope = let (s, r) = m (record { ctx = ctx; scope = scope }) in (s.ctx.parts, r)

  has_body : DataKind serde.Ty → Bool
  has_body nothing = false
  has_body multipart = false
  has_body (json ty) = true
  has_body (form ty) = true

  -- `none` where the pipeline would do nothing.
  unfoldable pub generate_pipeline_wrapper :
      List env.ItemPath
      → DataKind serde.Ty
      → Option env.ItemPath
      → Option serde.Ty
      → Option serde.Ty
      → (body_in_query : Bool) → Option PipelineFn
  unfolding generated as_pipeline has_body
  generate_pipeline_wrapper hooks content map_fn path_type query_type body_in_query =
      if is_empty hooks
        && (not (has_body content)
            && (not (is_some map_fn) && (not (is_some path_type) && not (is_some query_type))))
      then none
      else some (as_pipeline (generated hooks content map_fn path_type query_type body_in_query))
