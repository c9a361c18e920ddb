-- ===== src/Macros/Codegen.antt =====
-- apigate-macros/src/codegen.rs: the pipelines that the macros generate, as functions on the context
-- and the scope. What the code leaves in them where it fails is kept, since the gateway reads the
-- context afterwards.
pub mod Phases
use apigate.Prelude.{
  ◌≡◌, ap, ℕ, List, [], ◌∷◌, String, Bool, true, false, not, ◌&&◌, ◌||◌, Option, none, some,
  is_some, is_empty, Result, ok, err, map_err, ok_or, if◌then◌else◌,
}
use apigate.Str
use apigate.Str.{Str}
use apigate.Http.{Http, Parts}
use apigate.Error.{ApigateError, PipelineError, CoreError, of_core, of_pipeline}
use apigate.Pipeline
use apigate.Pipeline.{
  PartsCtx, RequestScope, TypeMap, RawBody, take_body, read_body_bytes, raw_body_cloned,
}
use apigate.PartsCtx.{with_headers, header, set_encoded_query}
use apigate.PartsCtx.Extract.{or_default, extract_path, extract_query}
use apigate.Macros.Args.{DataKind, nothing, multipart, json, form}
use apigate.Facade.{
  Serde, BodyOutcome, keep, replace, outcome_of, Format, Output, parse_json, parse_form,
  parse_form_query, Source, Out, finish,
}

-- What a generated pipeline runs on.
pub record Pipe (http : Http) (Body Extensions : Type 0) : Type 0 where
  pub ctx : PartsCtx http
  pub scope : RequestScope Body Extensions

-- Code that changes the pipe and can fail with `E`.
abbrev pub Async {ℓ κ ι} : Type ℓ → Type κ → Type ι → Type (ℓ ⊔ κ ⊔ ι)
Async S E A = S → S × Result E A

abbrev pub follow {ℓ κ ι μ} :
    {S : Type ℓ} {E : Type κ} {A : Type ι} {B : Type μ}
    → (A → Async S E B)
    → S × Result E A
    → S × Result E B
follow f (s, ok a) = f a s
follow f (s, err e) = (s, err e)

infixl 5 ◌>>=◌ ◌>>◌
abbrev pub ◌>>=◌ {ℓ κ ι μ} :
    {S : Type ℓ} {E : Type κ} {A : Type ι} {B : Type μ}
    → Async S E A
    → (A → Async S E B)
    → Async S E B
◌>>=◌ m f s = follow f (m s)

abbrev pub ◌>>◌ {ℓ κ ι μ} :
    {S : Type ℓ} {E : Type κ} {A : Type ι} {B : Type μ} → Async S E A → Async S E B → Async S E B
m >> k = m >>= λ _. k

-- The first step of a chain, by what it comes to.
pub >>=-ok {ℓ κ ι μ} :
    {S : Type ℓ} {E : Type κ} {A : Type ι} {B : Type μ} (m : Async S E A) (f : A → Async S E B)
    {s t : S} {a : A}
    → m s ≡ (t, ok a)
    → (m >>= f) s ≡ f a t
>>=-ok m f h = ap (follow f) h

pub >>=-err {ℓ κ ι μ} :
    {S : Type ℓ} {E : Type κ} {A : Type ι} {B : Type μ} (m : Async S E A) (f : A → Async S E B)
    {s t : S} {e : E}
    → m s ≡ (t, err e)
    → (m >>= f) s ≡ (t, err e)
>>=-err m f h = ap (follow f) h

abbrev pub lift {ℓ κ ι} : {S : Type ℓ} {E : Type κ} {A : Type ι} → Result E A → Async S E A
lift r s = (s, r)

-- What a map takes: the parsed input, or the raw body.
pub data Input (serde : Serde) : Type 0 where
  parsed : serde.Value → Input serde
  raw_input : RawBody → Input serde

-- What the pipelines call, by the paths and the types that the arguments name: the functions of the
-- user, as their wrappers run them, and the crates of axum and http.
pub record Env (http : Http) (map : TypeMap) (serde : Serde) (Body Custom : Type 0) : Type 1 where
  pub ItemPath : Type 0
  pub to_bytes : Body → ℕ → Result String Str
  -- `Body::from(bytes)`, and what turns into a body
  pub body_of : Str → Body
  pub IntoBody : Type 0
  pub into : IntoBody → Body
  -- values as they are kept in the scope, by their types
  pub key : serde.Ty → map.Key
  pub kept : serde.Value → map.Value
  pub hook : ItemPath → Async (Pipe http Body map.Extensions) (ApigateError Custom) (Unit {0})
  pub user_map :
      (f : Format)
      → ItemPath
      → Input serde
      → Async
          (Pipe http Body map.Extensions)
          (ApigateError Custom)
          (Output (Source serde Body IntoBody into f))
  pub from_request_parts : serde.Ty → PartsCtx http → PartsCtx http × Option serde.Value
  -- `HeaderValue::from_static`
  pub from_static : Str → http.HeaderValue
  pub default_uri : http.Uri
  pub uri_error : String

module _ (http : Http) (map : TypeMap) (serde : Serde) {Body Custom : Type 0}
    (env : Env http map serde Body Custom) where
  abbrev pub State : Type 0
  State = Pipe http Body map.Extensions

  abbrev pub M : Type 0 → Type 0
  M A = Async State (ApigateError Custom) A

  abbrev pub pipeline_result :
      {A : Type 0} → Result PipelineError A → Result (ApigateError Custom) A
  pipeline_result r = map_err of_pipeline r

  abbrev pub core_result : {A : Type 0} → Result CoreError A → Result (ApigateError Custom) A
  core_result r = map_err of_core r

  -- Operations of the scope and of the context in the pipe.
  abbrev pub read_body : M Str
  read_body s =
      let (scope, r) = read_body_bytes env.to_bytes s.scope in
      (record s { scope = scope }, pipeline_result r)

  abbrev pub insert_value : serde.Ty → serde.Value → M (Unit {0})
  insert_value ty v s =
      (record s { scope = Pipeline.insert map s.scope (env.key ty) (env.kept v) }, ok tt)

  abbrev pub set_headers : (http.Headers → http.Headers) → M (Unit {0})
  set_headers f s = (record s { ctx = with_headers http s.ctx (f s.ctx.parts.headers) }, ok tt)

  unfoldable pub path_phase : Option serde.Ty → M (Unit {0})
  unfolding extract_path
  path_phase none = lift (ok tt)
  path_phase (some ty) = do
    v ← λ s.
        let (ctx, r) = extract_path http serde env.from_request_parts s.ctx ty in
        (record s { ctx = ctx }, core_result r)
    insert_value ty v

  unfoldable pub query_phase : Option serde.Ty → M (Unit {0})
  unfolding extract_query
  query_phase none = lift (ok tt)
  query_phase (some ty) = do
    v ← λ s. (s, pipeline_result (extract_query http serde s.ctx ty))
    insert_value ty v

  pub hook_phase : List env.ItemPath → M (Unit {0})
  hook_phase [] = lift (ok tt)
  hook_phase (h ∷ hooks) = env.hook h >> hook_phase hooks

  -- `scope.take_body().ok_or_else(…)`
  pub take_body_expr : M Body
  take_body_expr s =
      let (scope, body) = take_body s.scope in
      (
        record s { scope = scope },
        pipeline_result (ok_or body PipelineError.request_body_already_consumed),
      )
