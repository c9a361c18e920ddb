-- ===== src/Macros/Codegen/Phases/Empty.antt =====
-- Where no pipeline is generated.
use apigate.Prelude.{ℕ, ◌≡◌, refl, sym, List, [], ◌∷◌, Bool, Option, none, some, ok}
use apigate.Str.{Str}
use apigate.Http.{Http, Parts, Response}
use apigate.Dispatch.{Inner, Meta, run_pipeline}
use apigate.Pipeline.{PartsCtx, RequestScope, TypeMap, take_body, new_scope}
use apigate.Facade.{Serde}
use apigate.Macros.Args.{DataKind, nothing, multipart, json, form}
use apigate.Macros.Codegen.{Env, take_body_expr}
use apigate.Macros.Codegen.Phases.{
  generated, as_pipeline, generate_pipeline_wrapper, build_body_phase,
}

module _ (http : Http) (map : TypeMap) (serde : Serde) {Body Custom : Type 0}
    (env : Env http map serde Body Custom) where
  -- Where the macro leaves the pipeline out, the one that it would have written gives the request's
  -- parts and its body back as they are.
  pub generate_pipeline_wrapper-none :
      (hooks : List env.ItemPath) (content : DataKind serde.Ty) (map_fn : Option env.ItemPath)
      (path_type query_type : Option serde.Ty) (body_in_query : Bool) (ctx : PartsCtx http)
      (scope : RequestScope Body map.Extensions) (body : Body)
      → generate_pipeline_wrapper http map serde env hooks content map_fn path_type query_type
          body_in_query
        ≡ none
      → scope.body ≡ some body
      → as_pipeline http map serde env
          (generated http map serde env hooks content map_fn path_type query_type body_in_query)
          ctx
          scope
        ≡ (ctx.parts, ok body)
  unfolding generate_pipeline_wrapper as_pipeline generated build_body_phase take_body_expr
      take_body
  generate_pipeline_wrapper-none [] nothing none none none q ctx scope body h e = rw e refl
  generate_pipeline_wrapper-none [] multipart none none none q ctx scope body h e = rw e refl
  generate_pipeline_wrapper-none [] (json ty) map_fn path_type query_type q ctx scope body h e = cc
  generate_pipeline_wrapper-none [] (form ty) map_fn path_type query_type q ctx scope body h e = cc
  generate_pipeline_wrapper-none [] nothing (some m) path_type query_type q ctx scope body h e = cc
  generate_pipeline_wrapper-none [] multipart (some m) path_type query_type q ctx scope body h e =
      cc
  generate_pipeline_wrapper-none [] nothing none (some ty) query_type q ctx scope body h e = cc
  generate_pipeline_wrapper-none [] multipart none (some ty) query_type q ctx scope body h e = cc
  generate_pipeline_wrapper-none [] nothing none none (some ty) q ctx scope body h e = cc
  generate_pipeline_wrapper-none [] multipart none none (some ty) q ctx scope body h e = cc
  generate_pipeline_wrapper-none (x ∷ hooks) content map_fn path_type query_type q ctx scope body h
        e =
      cc

-- For the dispatcher, a route whose pipeline the macro leaves out is one with the pipeline that it
-- would have written: the same request and the same body, in every state of the application.
pub run_pipeline-none :
    (http : Http) (map : TypeMap) (serde : Serde) (xxh3_64 : Str → ℕ) {Body : Type 0}
    (env : Env http map serde Body (Response http.Headers Body)) (hooks : List env.ItemPath)
    (content : DataKind serde.Ty) (map_fn : Option env.ItemPath)
    (path_type query_type : Option serde.Ty) (body_in_query : Bool)
    (inner : Inner http xxh3_64 Body map.Extensions) (meta : Meta http xxh3_64 Body map.Extensions)
    (parts : Parts http.Uri http.Headers) (body : Body)
    → generate_pipeline_wrapper http map serde env hooks content map_fn path_type query_type
        body_in_query
      ≡ none
    → run_pipeline http xxh3_64 Body map.Extensions inner meta none parts body
      ≡ run_pipeline http xxh3_64 Body map.Extensions inner meta
          (some (
            as_pipeline http map serde env (
              generated http map serde env hooks content map_fn path_type query_type
                body_in_query)))
          parts
          body
unfolding run_pipeline new_scope
run_pipeline-none http map serde xxh3_64 env hooks content map_fn path_type query_type q inner meta
      parts body h =
    sym (
      generate_pipeline_wrapper-none http map serde env hooks content map_fn path_type query_type q
        _ _ body h refl)
