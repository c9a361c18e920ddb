-- ===== src/Tests/Texts.antt =====
-- Templates, paths and headers.
use apigate.Prelude.{
  ℕ, ◌≡◌, refl, List, [], ◌∷◌, ◌++◌, true, false, none, some, Result, ok, done, arith,
  if◌then◌else◌, ==_iff, ◌==◌, Bool-cases, inl, inr,
}
use apigate.Str
use apigate.Str.{Str, codes}
use apigate.Str.Laws.{Free}
use apigate.Rewrite.{RewriteTemplate, SrcSeg, DstChunk}
use apigate.Template.{is_param_seg, RewriteTemplateError, compile_rewrite_template}
use apigate.Template.Pattern.{
  Seg, lit, named, Target, print_route, print_target, fill_route, names, IsRoute, IsTarget,
  IsFilled,
}
use apigate.Template.RoundTrip.{template_of, compile_rewrite_template-print}
use apigate.Template.Safety.{IsCompiled, compile_rewrite_template-IsCompiled}
use apigate.Proxy.Paths.{strip_prefix}
use apigate.Proxy.Paths.Prefix.{strip_prefix-append_rest, strip_prefix_slash}
use apigate.Routing.{extract_param}
use apigate.Routing.PathSticky.{extract_param-fill}
use apigate.App.Build.{join}
use apigate.App.Build.Paths.{strip_prefix-join}

free : (c : ℕ) (s : Str) → Str.contains c s ≡ false → Free c s
unfolding Str.contains
free c [] h = tt
free c (x ∷ s) h = elim (Bool-cases (x == c)) [
  | inl same ↦ let e : true ≡ false = rw same at h in cc
  | inr other ↦ ((λ e. let same = (==_iff x c).1 e in cc), free c s (rw other at h))
]

abbrev pub items : List Seg
items = lit (codes "items") ∷ named (codes "id") ∷ []

abbrev pub target : Target
target = record { first = codes "/v1/"; parts = (codes "id", codes "/detail") ∷ [] }

abbrev pub forty_two : Str → Str
forty_two name = codes "42"

abbrev items_template : RewriteTemplate
items_template = record {
  src = SrcSeg.lit (codes "items") ∷ SrcSeg.param ∷ [];
  dst = DstChunk.lit (codes "/v1/") ∷ DstChunk.capture 0 ∷ DstChunk.lit (codes "/detail") ∷ [];
  static_len = 11;
}

pub items-IsRoute : IsRoute [] items
unfolding Str.contains Str.mem is_param_seg
items-IsRoute = (
  refl,
  free b'/' (codes "items") refl,
  refl,
  (refl, free b'/' (codes "id") refl, refl, omega arith, tt),
)

pub target-IsTarget : IsTarget (names items) target
unfolding Str.contains Str.position
target-IsTarget = (
  (free b'{' (codes "/v1/") refl, free b'}' (codes "/v1/") refl),
  refl,
  free b'}' (codes "id") refl,
  (0, refl, omega arith),
  (free b'{' (codes "/detail") refl, free b'}' (codes "/detail") refl),
)

pub items-IsFilled : IsFilled forty_two items
unfolding Str.contains
items-IsFilled = (refl, free b'/' (codes "42") refl, tt)

compile_example :
    compile_rewrite_template (codes "/items/{id}") (codes "/v1/{id}/detail")
    ≡ done (ok items_template)
unfolding compile_rewrite_template
compile_example = refl

compile_rewrite_template-print_example :
    compile_rewrite_template (print_route items) (print_target target)
    ≡ done (ok (template_of items target))
compile_rewrite_template-print_example =
    compile_rewrite_template-print items target items-IsRoute target-IsTarget

compile_rewrite_template-IsCompiled_example :
    (r : Result RewriteTemplateError RewriteTemplate) × (compile_rewrite_template
        (codes "/items/{id}")
        (codes "/v1/{id}/{other}")
      ≡ done r)
    × IsCompiled r
compile_rewrite_template-IsCompiled_example =
    compile_rewrite_template-IsCompiled (codes "/items/{id}") (codes "/v1/{id}/{other}")

extract_param-fill_example :
    extract_param
      (print_route items)
      (codes "/shop")
      (codes "/shop" ++ fill_route forty_two items)
      (codes "id")
    ≡ (if Str.mem (codes "id") (names items) then some (forty_two (codes "id")) else none)
extract_param-fill_example =
    extract_param-fill forty_two items (codes "/shop") (codes "id") items-IsRoute items-IsFilled

strip_prefix-append_rest_example :
    strip_prefix (codes "/shop" ++ codes "/items") (codes "/shop")
    ≡ (if Str.starts_with (codes "/items") b'/' then codes "/items" else b'/' ∷ [])
strip_prefix-append_rest_example = strip_prefix-append_rest (codes "/shop") (codes "/items")

strip_prefix_slash_example :
    strip_prefix ((codes "/shop" ++ b'/' ∷ []) ++ codes "items/7") (codes "/shop" ++ b'/' ∷ [])
    ≡ b'/' ∷ []
unfolding Str.starts_with
strip_prefix_slash_example = strip_prefix_slash (codes "/shop") (codes "items/7") refl

strip_prefix-join_example :
    strip_prefix (join (codes "/shop") (codes "items")) (codes "/shop")
    ≡ (if Str.starts_with (codes "items") b'/' then codes "items" else b'/' ∷ codes "items")
unfolding Str.ends_with
strip_prefix-join_example = strip_prefix-join (codes "/shop") (codes "items") refl
