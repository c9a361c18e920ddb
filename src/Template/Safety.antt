-- ===== src/Template/Safety.antt =====
-- The compiler of rewrite templates on any texts: it ends within its fuel, never slices out of
-- range, and what it accepts is a well-formed template.
use apigate.Prelude.{
  ℕ, suc, ◌+◌, ◌<◌, ◌≡◌, refl, sym, ap, inl, inr, List, [], ◌∷◌, ◌++◌, arith, length, ok, err, All,
  length-append, done, Result, map, Result-cases,
}
use apigate.Str
use apigate.Str.{Str}
use apigate.Rewrite.{SrcSeg, DstChunk, RewriteTemplate}
use apigate.Template.{
  SrcSegIr, DstChunkIr, RewriteTemplateError, emit, emit_src, emit_dst, parse_segments,
  parse_route_source, parse_rewrite_target, compile_rewrite_template, param_name,
}
use apigate.Template.Scanning.{InRange, literals, IsParsed, parse_rewrite_target-IsParsed}

params_of : List SrcSegIr → ℕ
params_of [] = 0
params_of (SrcSegIr.lit l ∷ src) = params_of src
params_of (SrcSegIr.param ∷ src) = suc (params_of src)

params_of-append :
    (src src' : List SrcSegIr) → params_of (src ++ src') ≡ params_of src + params_of src'
unfolding params_of
params_of-append [] src' = omega arith
params_of-append (SrcSegIr.lit l ∷ src) src' = params_of-append src src'
params_of-append (SrcSegIr.param ∷ src) src' = omega (arith, params_of-append src src')

-- There are as many parameters among the segments as there are names.
parse_segments-params :
    (segs : List Str) (src : List SrcSegIr) (params : List Str) (src' : List SrcSegIr)
    (params' : List Str)
    → params_of src ≡ length params
    → parse_segments segs src params ≡ ok (src', params')
    → params_of src' ≡ length params'
unfolding parse_segments
parse_segments-params [] src params src' params' h e = ground arith
parse_segments-params (seg ∷ segs) src params src' params' h e =
    let name = param_name seg in
    let as_param : params_of (src ++ SrcSegIr.param ∷ []) ≡ length (params ++ name ∷ []) =
      unfold params_of in
      omega (arith, params_of-append src (SrcSegIr.param ∷ []), length-append params (name ∷ [])) in
    let as_lit : params_of (src ++ SrcSegIr.lit seg ∷ []) ≡ length params =
      unfold params_of in omega (arith, params_of-append src (SrcSegIr.lit seg ∷ [])) in
    ground (
      arith,
      parse_segments-params segs (src ++ SrcSegIr.param ∷ []) (params ++ name ∷ []) src' params'
          as_param,
      parse_segments-params segs (src ++ SrcSegIr.lit seg ∷ []) params src' params' as_lit,
    )

parse_route_source-params :
    (route_path : Str) (src : List SrcSegIr) (params : List Str)
    → parse_route_source route_path ≡ ok (src, params)
    → params_of src ≡ length params
unfolding parse_route_source
parse_route_source-params route_path src params good =
    parse_segments-params (Str.non_empty (Str.split b'/' route_path)) [] [] src params
      (unfold params_of in refl) good

-- The number of parameters among the segments, and the length of the literals among the chunks.
abbrev pub param_count : List SrcSeg → ℕ
param_count [] = 0
param_count (SrcSeg.lit l ∷ src) = param_count src
param_count (SrcSeg.param ∷ src) = suc (param_count src)

abbrev literal_bytes : List DstChunk → ℕ
literal_bytes [] = 0
literal_bytes (DstChunk.lit l ∷ dst) = length l + literal_bytes dst
literal_bytes (DstChunk.capture k ∷ dst) = literal_bytes dst

abbrev pub IsCapture : ℕ → DstChunk → Type 0
IsCapture n (DstChunk.lit l) = Unit
IsCapture n (DstChunk.capture k) = k < n

-- Every capture of the target is a parameter of the source, and the static length is right.
pub record IsTemplate (tpl : RewriteTemplate) : Type 0 where
  pub captures : All (IsCapture (param_count tpl.src)) tpl.dst
  pub static : tpl.static_len ≡ literal_bytes tpl.dst

emit_src-count : (src : List SrcSegIr) → param_count (map emit_src src) ≡ params_of src
unfolding params_of emit_src
emit_src-count [] = refl
emit_src-count (SrcSegIr.lit l ∷ src) = emit_src-count src
emit_src-count (SrcSegIr.param ∷ src) = ap suc (emit_src-count src)

emit_dst-bytes : (dst : List DstChunkIr) → literal_bytes (map emit_dst dst) ≡ literals dst
unfolding literals emit_dst
emit_dst-bytes [] = refl
emit_dst-bytes (DstChunkIr.lit l ∷ dst) = ap (λ k. length l + k) (emit_dst-bytes dst)
emit_dst-bytes (DstChunkIr.capture k ∷ dst) = emit_dst-bytes dst

emit_dst-captures :
    (n : ℕ) (dst : List DstChunkIr) → All (InRange n) dst → All (IsCapture n) (map emit_dst dst)
unfolding emit_dst
emit_dst-captures n [] h = tt
emit_dst-captures n (DstChunkIr.lit l ∷ dst) h = (tt, emit_dst-captures n dst h.1)
emit_dst-captures n (DstChunkIr.capture k ∷ dst) h = (h.0, emit_dst-captures n dst h.1)

abbrev pub IsCompiled : Result RewriteTemplateError RewriteTemplate → Type 0
IsCompiled (err e) = Unit
IsCompiled (ok tpl) = IsTemplate tpl

emit-IsTemplate :
    (src : List SrcSegIr) (dst : List DstChunkIr) (n : ℕ)
    → params_of src ≡ n
    → All (InRange n) dst
    → IsTemplate (emit (record { src = src; dst = dst; static_len = literals dst }))
unfolding emit
emit-IsTemplate src dst n h inside = record {
  captures = rw (emit_src-count src) (rw h (emit_dst-captures n dst inside));
  static = sym (emit_dst-bytes dst);
}

with_target :
    (route_path to : Str) (src : List SrcSegIr) (params : List Str)
    → parse_route_source route_path ≡ ok (src, params)
    → (q : Result RewriteTemplateError (List DstChunkIr × ℕ)) × (parse_rewrite_target to params
        ≡ done q)
      × IsParsed (length params) q
    → (r : Result RewriteTemplateError RewriteTemplate) × (compile_rewrite_template route_path to
        ≡ done r)
      × IsCompiled r
unfolding compile_rewrite_template
with_target route_path to src params good (err e, bad, _) =
    (err e, rw (good, compile_rewrite_template) (rw bad), tt)
with_target route_path to src params good (ok (dst, static_len), fine, (inside, static)) = (
  ok (emit (record { src = src; dst = dst; static_len = static_len })),
  rw (good, compile_rewrite_template) (rw fine),
  rw static (
      emit-IsTemplate src dst (length params) (parse_route_source-params route_path src params good)
        inside),
)

-- Whatever the two texts, the compiler ends within its fuel and without a panic, and a template
-- that it accepts refers only to parameters of its source and records its literal length.
pub compile_rewrite_template-IsCompiled :
    (route_path to : Str)
    → (r : Result RewriteTemplateError RewriteTemplate) × (compile_rewrite_template route_path to
        ≡ done r)
      × IsCompiled r
unfolding compile_rewrite_template
compile_rewrite_template-IsCompiled route_path to =
    elim (Result-cases (parse_route_source route_path)) [
      | inr (e, bad) ↦ (err e, rw (bad, compile_rewrite_template), tt)
      | inl ((src, params), good) ↦
          with_target route_path to src params good (parse_rewrite_target-IsParsed to params)
    ]
