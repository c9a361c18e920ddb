-- ===== src/Template.antt =====
-- apigate-macros/src/template.rs: the compiler of `to = "…"` rewrite templates, which runs when the
-- route macros expand. What the emitted tokens denote is the template of `Rewrite`.
pub mod Pattern
pub mod Source
pub mod Target
pub mod RoundTrip
pub mod Scanning
pub mod Safety
use apigate.Prelude.{
  ℕ, zero, suc, ◌+◌, ◌-◌, ◌<◌, List, [], ◌∷◌, ◌++◌, Bool, true, false, ◌&&◌, Option, none, some,
  ltb, leb, ◌==◌, if◌then◌else◌, length, get_elem?, take, drop, is_empty, map, Result, ok, err,
  ◌>>=◌, ok_or, Run, done, panic, out_of_fuel, run_bind, or_panic,
}
use apigate.Str
use apigate.Str.{Str}
use apigate.Rewrite.{SrcSeg, DstChunk, RewriteTemplate}

pub data RewriteTemplateError : Type 0 where
  empty_route_parameter : RewriteTemplateError
  duplicate_route_parameter : (name : Str) → RewriteTemplateError
  unclosed_to_parameter : RewriteTemplateError
  empty_to_parameter : RewriteTemplateError
  unknown_to_parameter : (name : Str) → RewriteTemplateError
  unmatched_to_close_brace : RewriteTemplateError
  too_many_route_parameters : (max : ℕ) → RewriteTemplateError
  capture_index_overflow : RewriteTemplateError

pub data SrcSegIr : Type 0 where
  lit : Str → SrcSegIr
  param : SrcSegIr

pub data DstChunkIr : Type 0 where
  lit : Str → DstChunkIr
  capture : ℕ → DstChunkIr

pub record RewriteIr : Type 0 where
  pub src : List SrcSegIr
  pub dst : List DstChunkIr
  pub static_len : ℕ

abbrev max_capture_params : ℕ
max_capture_params = 256

abbrev Parsed : Type 0
Parsed = Result RewriteTemplateError (List SrcSegIr × List Str)

-- `seg.starts_with('{') && seg.ends_with('}')`
unfoldable pub is_param_seg : Str → Bool
unfolding Str.starts_with Str.ends_with
is_param_seg seg = Str.starts_with seg b'{' && Str.ends_with seg b'}'

-- `&seg[1..seg.len() - 1]`, of a segment that both braces enclose
pub param_name : Str → Str
param_name seg = take (length seg - 2) (drop 1 seg)

-- The loop of `parse_route_source` over the segments, with the two vectors that it fills.
pub parse_segments : List Str → List SrcSegIr → List Str → Parsed
unfolding is_param_seg param_name Str.mem
parse_segments [] src params = ok (src, params)
parse_segments (seg ∷ segs) src params =
    let name = param_name seg in
    let as_param = parse_segments segs (src ++ SrcSegIr.param ∷ []) (params ++ name ∷ []) in
    let as_lit = parse_segments segs (src ++ SrcSegIr.lit seg ∷ []) params in
    if is_param_seg seg
    then (if is_empty name
        then err empty_route_parameter
        else if Str.mem name params
        then err (duplicate_route_parameter name)
        else if leb max_capture_params (length params)
        then err (too_many_route_parameters max_capture_params)
        else as_param)
    else as_lit

pub parse_route_source : Str → Parsed
unfolding parse_segments Str.split Str.non_empty
parse_route_source route_path = parse_segments (Str.non_empty (Str.split b'/' route_path)) [] []

-- The variables of the loop of `parse_rewrite_target`.
pub record Scan : Type 0 where
  pub dst : List DstChunkIr
  pub static_len : ℕ
  pub lit_start : ℕ
  pub i : ℕ

-- `if lit_start < end { static_len += lit.len(); dst.push(Lit(lit)) }`
pub flush : Str → Scan → ℕ → Run Scan
unfolding Str.slice
flush to s end =
    if ltb s.lit_start end
    then run_bind (or_panic (Str.slice to s.lit_start end)) (λ lit.
      done (record s {
        dst = s.dst ++ DstChunkIr.lit lit ∷ [];
        static_len = s.static_len + length lit;
      }))
    else done s

-- `u8::try_from`
pub to_u8 : ℕ → Option ℕ
to_u8 n = if ltb n 256 then some n else none

-- The name between the braces, resolved to the index of a route parameter.
pub resolve : List Str → Str → Result RewriteTemplateError ℕ
unfolding Str.position to_u8
resolve params name = if is_empty name then err empty_to_parameter else do
  src_index ← ok_or (Str.position name params) (unknown_to_parameter name)
  ok_or (to_u8 src_index) capture_index_overflow

abbrev Step : Type 0
Step = Run (Result RewriteTemplateError Scan)

pub push_capture : Scan → (after : ℕ) → ℕ → Scan
push_capture s after src_index = record s {
  dst = s.dst ++ DstChunkIr.capture src_index ∷ [];
  lit_start = after;
  i = after;
}

-- The body of the loop from the closing brace on: `close` counts from behind the opening one.
pub take_param : Str → List Str → Scan → Option ℕ → Step
unfolding Str.slice resolve push_capture
take_param to params s none = done (err unclosed_to_parameter)
take_param to params s (some close) =
    run_bind (or_panic (Str.slice to (s.i + 1) (s.i + 1 + close))) λ name.
      done (do src_index ← resolve params name; ok (push_capture s (s.i + 1 + close + 1) src_index))

-- One round of the loop at the byte `bytes[i]`.
pub step : Str → List Str → Scan → ℕ → Step
unfolding flush take_param Str.find
step to params s byte =
    if byte == b'{'
    then run_bind (flush to s s.i) (λ t. take_param to params t (Str.find b'}' (drop (t.i + 1) to)))
    else if byte == b'}'
    then done (err unmatched_to_close_brace)
    else done (ok (record s { i = s.i + 1 }))

-- `while i < bytes.len()`; the fuel bounds the rounds.
pub scan : ℕ → Str → List Str → Scan → Step
unfolding step
scan zero to params s = out_of_fuel
scan (suc fuel) to params s = elim (get_elem? to s.i) [
  | none ↦ done (ok s)
  | some byte ↦
      run_bind (step to params s byte)
        (λ r. elim r [ ok t ↦ scan fuel to params t | err e ↦ done (err e) ])
]

pub start : Scan
start = record { dst = []; static_len = 0; lit_start = 0; i = 0 }

-- The literal behind the last parameter, once the loop has ended.
pub finish :
    Str → Result RewriteTemplateError Scan → Run (Result RewriteTemplateError (List DstChunkIr × ℕ))
unfolding flush
finish to (err e) = done (err e)
finish to (ok s) = run_bind (flush to s (length to)) (λ t. done (ok (t.dst, t.static_len)))

pub parse_rewrite_target : Str → List Str → Run (Result RewriteTemplateError (List DstChunkIr × ℕ))
unfolding scan start finish
parse_rewrite_target to params = run_bind (scan (length to + 1) to params start) (finish to)

unfoldable pub emit_src : SrcSegIr → SrcSeg
emit_src (SrcSegIr.lit l) = SrcSeg.lit l
emit_src SrcSegIr.param = SrcSeg.param

unfoldable pub emit_dst : DstChunkIr → DstChunk
emit_dst (DstChunkIr.lit l) = DstChunk.lit l
emit_dst (DstChunkIr.capture idx) = DstChunk.capture idx

unfoldable pub emit : RewriteIr → RewriteTemplate
unfolding emit_src emit_dst
emit ir = record {
  src = map emit_src ir.src;
  dst = map emit_dst ir.dst;
  static_len = ir.static_len;
}

unfoldable pub compile_rewrite_template :
    Str → Str → Run (Result RewriteTemplateError RewriteTemplate)
unfolding parse_route_source parse_rewrite_target emit
compile_rewrite_template route_path to = elim (parse_route_source route_path) [
  | err e ↦ done (err e)
  | ok (src, params) ↦ run_bind (parse_rewrite_target to params) (λ r. elim r [
    | err e ↦ done (err e)
    | ok (dst, static_len) ↦
        done (ok (emit (record { src = src; dst = dst; static_len = static_len })))
  ])
]
