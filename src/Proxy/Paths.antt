-- ===== src/Proxy/Paths.antt =====
-- apigate-core/src/proxy.rs, the text of the upstream path: stripping the service prefix, matching
-- the path against the source segments of a template, and rendering the target. The capacity that
-- `render_template` reserves for its output is not modelled.
pub mod Rendering
pub mod Safety
pub mod Prefix
use apigate.Prelude.{
  ℕ, suc, ◌+◌, List, [], ◌∷◌, ◌++◌, Option, none, some, Run, done, panic, out_of_fuel, run_bind,
  or_panic, length, take, drop, is_empty, get_elem?, if◌then◌else◌,
}
use apigate.Str
use apigate.Str.{Str}
use apigate.Rewrite.{SrcSeg, DstChunk, RewriteTemplate}

-- What `incoming_path.strip_prefix(prefix)` leaves.
pub after_prefix : Str → Option Str → Str
unfolding Str.starts_with
after_prefix incoming_path none = incoming_path
after_prefix incoming_path (some []) = b'/' ∷ []
after_prefix incoming_path (some (x ∷ rest)) =
    if Str.starts_with (x ∷ rest) b'/' then x ∷ rest else b'/' ∷ []

unfoldable pub strip_prefix : Str → Str → Str
unfolding after_prefix Str.strip_prefix
strip_prefix incoming_path prefix =
    after_prefix incoming_path (Str.strip_prefix incoming_path prefix)

-- A range of bytes of the path.
pub record Range : Type 0 where
  pub start : ℕ
  pub end : ℕ

-- What is left of the path: a text and its place in the path, which the code takes from pointers.
pub record Rest : Type 0 where
  pub text : Str
  pub offset : ℕ

-- `(seg, rest)`: up to the next slash and behind it.
pub cut : Rest → Option ℕ → Str × Rest
cut remaining (some pos) = (
  take pos remaining.text,
  record { text = drop (pos + 1) remaining.text; offset = remaining.offset + pos + 1 },
)
cut remaining none = (remaining.text, record { text = []; offset = 0 })

-- One segment of the path against one segment of the source: the captures, if they match.
pub match_seg : SrcSeg → Str → ℕ → List Range → Option (List Range)
unfolding Str.eq
match_seg (SrcSeg.lit expected) seg start captures =
    if Str.eq seg expected then some captures else none
match_seg SrcSeg.param seg start captures =
    some (captures ++ record { start = start; end = start + length seg } ∷ [])

pub capture_from : List SrcSeg → Rest → List Range → Option (List Range)
unfolding cut match_seg Str.find
capture_from [] remaining captures = if is_empty remaining.text then some captures else none
capture_from (src_seg ∷ src) remaining captures =
    if is_empty remaining.text
    then none
    else (let (seg, rest) = cut remaining (Str.find b'/' remaining.text) in
        elim (match_seg src_seg seg remaining.offset captures) [
          | none ↦ none
          | some captures' ↦ capture_from src rest captures'
        ])

pub capture_content : List SrcSeg → Option Str → Option (List Range)
unfolding capture_from
capture_content src none = none
capture_content src (some content) = capture_from src (record { text = content; offset = 1 }) []

pub capture_raw : List SrcSeg → Str → Option (List Range)
unfolding capture_content Str.strip_prefix
capture_raw src stripped_path = capture_content src (Str.strip_prefix stripped_path (b'/' ∷ []))

-- `&stripped_path[captures[src_index].clone()]`
pub captured : List Range → Str → ℕ → Run Str
unfolding Str.slice
captured captures path src_index =
    run_bind (or_panic (get_elem? captures src_index)) λ r. or_panic (Str.slice path r.start r.end)

pub chunk_text : List Range → Str → DstChunk → Run Str
unfolding captured
chunk_text captures path (DstChunk.lit s) = done s
chunk_text captures path (DstChunk.capture src_index) = captured captures path src_index

pub render_chunks : List DstChunk → List Range → Str → Str → Run Str
unfolding chunk_text
render_chunks [] captures path out = done out
render_chunks (chunk ∷ dst) captures path out = elim (chunk_text captures path chunk) [
  | done s ↦ render_chunks dst captures path (out ++ s)
  | panic ↦ panic
  | out_of_fuel ↦ out_of_fuel
]

unfoldable pub push_query : Str → Option Str → Str
push_query out none = out
push_query out (some q) = out ++ b'?' ∷ q

unfoldable pub render_template : RewriteTemplate → Str → Option Str → Run (Option Str)
unfolding capture_raw render_chunks push_query
render_template tpl stripped_path query = elim (capture_raw tpl.src stripped_path) [
  | none ↦ done none
  | some captures ↦
      run_bind (render_chunks tpl.dst captures stripped_path [])
        (λ out. done (some (push_query out query)))
]
