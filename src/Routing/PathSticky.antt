-- ===== src/Routing/PathSticky.antt =====
-- The affinity key that the path strategy takes from a request.
use apigate.Prelude.{
  ◌≡◌, refl, ap, ◌∙◌, List, [], ◌∷◌, ◌++◌, false, Option, none, some, arith, map, Bool-cases, inl,
  inr, if◌then◌else◌, length, length-append, take-append, ◌-◌,
}
use apigate.Str
use apigate.Str.{Str}
use apigate.Str.Laws.{eq_iff, strip_prefix-append}
use apigate.Template.{is_param_seg}
use apigate.Template.Pattern.{
  Seg, lit, named, braced, print_seg, print_route, fill_seg, fill_route, names, IsRoute, IsFilled,
}
use apigate.Template.Source.{print_route_segments, fill_route_segments, ends_with-append}
use apigate.Routing.{unbraced, is_name, extract_from, extract_param}

-- The name that a template segment declares.
abbrev name_in : Str → Option Str
name_in tmpl = unbraced (Str.strip_prefix tmpl (b'{' ∷ []))

name_in-braced : (n : Str) → name_in (braced n) ≡ some n
unfolding unbraced Str.strip_prefix Str.strip_suffix
name_in-braced n =
    let size : length (n ++ b'}' ∷ []) - 1 ≡ length n =
      omega (arith, length-append n (b'}' ∷ [])) in
    rw (ends_with-append n b'}') (rw (size, take-append n (b'}' ∷ [])))

name_in-literal : (s : Str) → is_param_seg s ≡ false → name_in s ≡ none
unfolding unbraced Str.strip_prefix Str.strip_suffix is_param_seg
name_in-literal [] h = refl
name_in-literal (x ∷ []) h = ground arith
name_in-literal (x ∷ y ∷ s) h = ground arith

-- The value of a parameter, looked up along the segments.
abbrev value_of : (Str → Str) → List Seg → Str → Option Str
value_of v [] param = none
value_of v (lit s ∷ segs) param = value_of v segs param
value_of v (named n ∷ segs) param = if Str.eq n param then some (v n) else value_of v segs param

extract_from-fill :
    (v : Str → Str) (segs : List Seg) (seen : List Str) (param : Str)
    → IsRoute seen segs
    → extract_from (map print_seg segs) (map (fill_seg v) segs) param ≡ value_of v segs param
unfolding extract_from is_name
extract_from-fill v [] seen param h = refl
extract_from-fill v (lit s ∷ segs) seen param (_, _, plain, h) =
    rw (name_in-literal s plain) (extract_from-fill v segs seen param h)
extract_from-fill v (named n ∷ segs) seen param (_, _, _, _, h) = rw (name_in-braced n) (
    ap (λ r. if Str.eq n param then some (v n) else r)
      (extract_from-fill v segs (seen ++ n ∷ []) param h))

value_of-mem :
    (v : Str → Str) (segs : List Seg) (param : Str)
    → value_of v segs param ≡ (if Str.mem param (names segs) then some (v param) else none)
unfolding Str.mem
value_of-mem v [] param = refl
value_of-mem v (lit s ∷ segs) param = value_of-mem v segs param
value_of-mem v (named n ∷ segs) param = elim (Bool-cases (Str.eq n param)) [
  | inl same ↦ rw same (ap (λ m. some (v m)) ((eq_iff n param).0 same))
  | inr other ↦ rw other (value_of-mem v segs param)
]

-- On a request that instantiates the route, mounted under any prefix, the path strategy takes the
-- value of the parameter that it is configured with, and none if the route has no such parameter.
pub extract_param-fill :
    (v : Str → Str) (segs : List Seg) (prefix param : Str)
    → IsRoute [] segs
    → IsFilled v segs
    → extract_param (print_route segs) prefix (prefix ++ fill_route v segs) param
      ≡ (if Str.mem param (names segs) then some (v param) else none)
unfolding extract_param
extract_param-fill v segs prefix param h f = rw (strip_prefix-append prefix (fill_route v segs)) (
    rw (print_route_segments segs h, fill_route_segments v segs h f)
      (extract_from-fill v segs [] param h ∙ value_of-mem v segs param))
