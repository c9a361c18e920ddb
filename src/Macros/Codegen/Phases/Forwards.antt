-- ===== src/Macros/Codegen/Phases/Forwards.antt =====
-- What a body phase without a map forwards.
use apigate.Prelude.{
  ◌≡◌, refl, sym, ap, Bool, true, false, Option, none, some, Result, ok, err, ◌⊎◌, inl, inr, ok_or,
  Bool-cases, Option-cases, Result-cases,
}
use mathlib.Core.Path.{subst}
use apigate.Str
use apigate.Str.{Str}
use apigate.Http.{Http}
use apigate.Error.{ApigateError, PipelineError, of_pipeline}
use apigate.Pipeline.{RequestScope, TypeMap, take_body}
use apigate.Pipeline.Scope.{read_body_bytes-ok, read_body_bytes-err, read_body_bytes-none}
use apigate.PartsCtx.{header}
use apigate.PartsCtx.Extract.{or_default}
use apigate.Facade.{Serde, parse_json, parse_form, parse_form_query}
use apigate.Macros.Args.{DataKind, nothing, multipart, json, form}
use apigate.Macros.Codegen.{
  read_body, ◌>>=◌, ◌>>◌, Env, State, lift, M, pipeline_result, take_body_expr,
}
use apigate.Macros.Codegen.Phases.{
  content_type_name, build_body_phase, json_phase, form_phase, form_get_branch, form_post_branch,
  content_type_guard, parse_query_input, is_refused,
}

module _ (http : Http) (map : TypeMap) (serde : Serde) {Body Custom : Type 0}
    (env : Env http map serde Body Custom) where
  abbrev Pipe_ : Type 0
  Pipe_ = State http map serde env

  -- A body that is passed on: as it came, or as the bytes that were read from it.
  abbrev pub Forwards : Pipe_ → Body → Type 0
  Forwards s b =
      (s.scope.body ≡ some b)
      ⊎ ((body : Body) × (text : Str) × (s.scope.body ≡ some body)
          × (env.to_bytes body s.scope.body_limit ≡ ok text)
          × (b ≡ env.body_of text))

  -- Reading, checking what was read, and passing it on.
  abbrev validated : {A : Type 0} → (Str → Result PipelineError A) → M http map serde env Body
  validated parse = do
    body ← read_body http map serde env
    _ ← lift (pipeline_result http map serde env (parse body))
    lift (ok (env.body_of body))

  ok_inj : {a b : Body} → ◌≡◌ {A = Result (ApigateError Custom) Body} (ok a) (ok b) → a ≡ b
  ok_inj h = cc

  abbrev Passes : Pipe_ → Pipe_ × Result (ApigateError Custom) Body → Type 0
  Passes s r = (r.0.ctx ≡ s.ctx) × ((b : Body) → r.1 ≡ ok b → Forwards s b)

  stopped :
      (s : Pipe_) (scope : RequestScope Body map.Extensions) (e : ApigateError Custom)
      → Passes s (record { ctx = s.ctx; scope = scope }, err e)
  stopped s scope e = (refl, λ b h. cc)

  -- What a checked reading ends in, by the three ends of the reading and the two of the check.
  validated-Passes :
      {A : Type 0} (parse : Str → Result PipelineError A) (s : Pipe_) → Passes s (validated parse s)
  validated-Passes parse s = elim (Option-cases s.scope.body) [
    | inl gone ↦
        let e : validated parse s
            ≡ (s, err (of_pipeline PipelineError.request_body_already_consumed)) =
          simp (read_body_bytes-none env.to_bytes s.scope gone) in
        subst (Passes s) (sym e) (stopped s s.scope _)
    | inr (body, there) ↦ elim (Result-cases (env.to_bytes body s.scope.body_limit)) [
      | inr (detail, large) ↦
          let e : validated parse s ≡ (
            record { ctx = s.ctx; scope = record s.scope { body = none } },
            err (of_pipeline (PipelineError.request_body_too_large detail)),
          ) =
            simp (read_body_bytes-err env.to_bytes s.scope body detail there large) in
          subst (Passes s) (sym e) (stopped s (record s.scope { body = none }) _)
      | inl (text, fits) ↦ elim (Result-cases (parse text)) [
        | inr (bad, refused) ↦
            let e : validated parse s ≡ (
              record { ctx = s.ctx; scope = record s.scope { body = none; raw_body = some text } },
              err (of_pipeline bad),
            ) =
              simp (read_body_bytes-ok env.to_bytes s.scope body text there fits, refused) in
            subst (Passes s) (sym e)
              (stopped s (record s.scope { body = none; raw_body = some text }) _)
        | inl (value, fine) ↦
            let e : validated parse s ≡ (
              record { ctx = s.ctx; scope = record s.scope { body = none; raw_body = some text } },
              ok (env.body_of text),
            ) =
              simp (read_body_bytes-ok env.to_bytes s.scope body text there fits, fine) in
            subst (Passes s) (sym e) (refl, λ b h. inr (body, text, there, fits, sym (ok_inj h)))
      ]
    ]
  ]

  taken :
      (body : Option Body) (b : Body)
      → pipeline_result http map serde env (ok_or body PipelineError.request_body_already_consumed)
        ≡ ok b
      → body ≡ some b
  taken none b h = cc
  taken (some body) b h = ap some (ok_inj h)

  take_body_expr-Passes : (s : Pipe_) → Passes s (take_body_expr http map serde env s)
  unfolding take_body_expr take_body
  take_body_expr-Passes s = (refl, λ b h. inl (taken s.scope.body b h))

  content_type_guard-cases :
      (prefix : Str) (needle : Option Str) (error : PipelineError) (s : Pipe_)
      → (content_type_guard http map serde env prefix needle error s ≡ (s, ok tt))
        ⊎ (content_type_guard http map serde env prefix needle error s
            ≡ (s, err (of_pipeline error)))
  unfolding content_type_guard
  content_type_guard-cases prefix needle error s =
      elim (Bool-cases (
        is_refused http map serde env prefix needle
          (or_default (header http s.ctx content_type_name)))) [
            | inl refused ↦ inr (rw refused refl)
            | inr fine ↦ inl (rw fine refl)
          ]

  guarded-Passes :
      (prefix : Str) (needle : Option Str) (error : PipelineError) (m : M http map serde env Body)
      (s : Pipe_)
      → Passes s (m s)
      → Passes s ((content_type_guard http map serde env prefix needle error >> m) s)
  guarded-Passes prefix needle error m s h = elim (content_type_guard-cases prefix needle error s) [
    | inl fine ↦
        let e : (content_type_guard http map serde env prefix needle error >> m) s ≡ m s =
          simp fine in
        subst (Passes s) (sym e) h
    | inr refused ↦
        let e : (content_type_guard http map serde env prefix needle error >> m) s
            ≡ (s, err (of_pipeline error)) =
          simp refused in
        subst (Passes s) (sym e) (stopped s s.scope _)
  ]

  parse_query_input-Passes :
      (ty : serde.Ty) (s : Pipe_) → Passes s (form_get_branch http map serde env ty none s)
  unfolding form_get_branch parse_query_input
  parse_query_input-Passes ty s =
      elim (Result-cases (parse_form_query serde ty (or_default (http.query s.ctx.parts.uri)))) [
        | inl (value, fine) ↦
            let e : form_get_branch http map serde env ty none s
                ≡ take_body_expr http map serde env s =
              simp fine in
            subst (Passes s) (sym e) (take_body_expr-Passes s)
        | inr (bad, refused) ↦
            let e : form_get_branch http map serde env ty none s ≡ (s, err (of_pipeline bad)) =
              simp refused in
            subst (Passes s) (sym e) (stopped s s.scope _)
      ]

  -- The body phase of a route without a map changes nothing of the request's head, and what it
  -- gives, where it succeeds, is the body as it came or the bytes that were read from it, within the
  -- limit.
  pub build_body_phase-Forwards :
      (content : DataKind serde.Ty) (body_in_query : Bool) (s : Pipe_)
      → ((build_body_phase http map serde env content none body_in_query s).0.ctx ≡ s.ctx)
        × ((b : Body)
            → (build_body_phase http map serde env content none body_in_query s).1 ≡ ok b
            → Forwards s b)
  unfolding build_body_phase json_phase form_phase form_post_branch
  build_body_phase-Forwards nothing q s = take_body_expr-Passes s
  build_body_phase-Forwards multipart q s = take_body_expr-Passes s
  build_body_phase-Forwards (json ty) q s = validated-Passes (parse_json serde ty) s
  build_body_phase-Forwards (form ty) true s = parse_query_input-Passes ty s
  build_body_phase-Forwards (form ty) false s =
      guarded-Passes (Str.codes "application/x-www-form-urlencoded") none
        PipelineError.expected_form_url_encoded (form_post_branch http map serde env ty none) s
        (validated-Passes (parse_form serde ty) s)
