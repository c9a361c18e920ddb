-- ===== src/Template/Source.antt =====
-- Parsing the route path: a printed route parses to its segments and its parameter names.
use apigate.Prelude.{
  ℕ, suc, ◌-◌, ◌<◌, ◌≡◌, refl, ap, ◌∙◌, List, [], ◌∷◌, ◌++◌, true, false, arith, ==_refl,
  append_assoc, length, is_empty, map, ok, All, All-append, take-append, leb, append-nil,
  length-append,
}
use apigate.Str
use apigate.Str.{Str}
use apigate.Str.Laws.{Free, split-Free, split-append}
use apigate.Template.{SrcSegIr, is_param_seg, param_name, parse_segments, parse_route_source}
use apigate.Template.Pattern.{
  Seg, lit, named, braced, print_seg, joined, print_route, names, ir_of_seg, IsRoute, IsFilled,
  fill_seg, fill_route,
}

pub ends_with-append : (s : Str) (c : ℕ) → Str.ends_with (s ++ c ∷ []) c ≡ true
unfolding Str.ends_with
ends_with-append [] c = ==_refl c
ends_with-append (x ∷ []) c = ==_refl c
ends_with-append (x ∷ y ∷ s) c = ends_with-append (y ∷ s) c

is_param_seg-braced : (n : Str) → is_param_seg (braced n) ≡ true
unfolding is_param_seg
is_param_seg-braced n = ends_with-append (b'{' ∷ n) b'}'

param_name-braced : (n : Str) → param_name (braced n) ≡ n
unfolding param_name
param_name-braced n =
    let e : suc (length (n ++ b'}' ∷ [])) - 2 ≡ length n =
      omega (arith, length-append n (b'}' ∷ [])) in
    rw e (take-append n (b'}' ∷ []))

leb-eq-false : (a b : ℕ) → b < a → leb a b ≡ false
leb-eq-false a b h = ground arith

parse_segments-print :
    (segs : List Seg) (src : List SrcSegIr) (params : List Str)
    → IsRoute params segs
    → parse_segments (map print_seg segs) src params
      ≡ ok (src ++ map ir_of_seg segs, params ++ names segs)
unfolding parse_segments
parse_segments-print [] src params h = rw (append-nil, append-nil)
parse_segments-print (lit s ∷ segs) src params (full, _, plain, h) =
    rw plain
      (parse_segments-print segs (src ++ SrcSegIr.lit s ∷ []) params h ∙ rw append_assoc refl)
parse_segments-print (named n ∷ segs) src params (full, _, fresh, few, h) =
    rw
      (
        is_param_seg-braced n,
        param_name-braced n,
        full,
        fresh,
        leb-eq-false 256 (length params) few,
      )
      (parse_segments-print segs (src ++ SrcSegIr.param ∷ []) (params ++ n ∷ []) h
        ∙ simp append_assoc)

-- Each text is a whole segment.
IsWhole : Str → Type 0
IsWhole s = (is_empty s ≡ false) × Free b'/' s

split-joined : (ss : List Str) → All IsWhole ss → Str.non_empty (Str.split b'/' (joined ss)) ≡ ss
unfolding Str.non_empty IsWhole
split-joined [] h = unfold Str.split in refl
split-joined (s ∷ []) ((full, free), _) = rw (split-Free b'/' s free) (rw full)
split-joined (s ∷ t ∷ r) ((full, free), h) =
    rw (split-append b'/' s (joined (t ∷ r)) free) (rw full (ap (◌∷◌ s) (split-joined (t ∷ r) h)))

Free-braced : (n : Str) → Free b'/' n → Free b'/' (braced n)
Free-braced n h = (omega arith, All-append _ n (b'}' ∷ []) h (omega arith, tt))

IsWhole-print :
    (seen : List Str) (segs : List Seg) → IsRoute seen segs → All IsWhole (map print_seg segs)
unfolding IsWhole
IsWhole-print seen [] h = tt
IsWhole-print seen (lit s ∷ segs) (full, free, _, h) = ((full, free), IsWhole-print seen segs h)
IsWhole-print seen (named n ∷ segs) (_, free, _, _, h) =
    ((refl, Free-braced n free), IsWhole-print (seen ++ n ∷ []) segs h)

split-slash :
    (s : Str) → Str.non_empty (Str.split b'/' (b'/' ∷ s)) ≡ Str.non_empty (Str.split b'/' s)
unfolding Str.non_empty Str.split
split-slash s = refl

-- The segments of a printed route.
pub print_route_segments :
    (segs : List Seg)
    → IsRoute [] segs
    → Str.non_empty (Str.split b'/' (print_route segs)) ≡ map print_seg segs
print_route_segments segs h =
    split-slash (joined (map print_seg segs))
    ∙ split-joined (map print_seg segs) (IsWhole-print [] segs h)

IsWhole-fill :
    (v : Str → Str) (seen : List Str) (segs : List Seg)
    → IsRoute seen segs
    → IsFilled v segs
    → All IsWhole (map (fill_seg v) segs)
unfolding IsWhole
IsWhole-fill v seen [] h f = tt
IsWhole-fill v seen (lit s ∷ segs) (full, free, _, h) f =
    ((full, free), IsWhole-fill v seen segs h f)
IsWhole-fill v seen (named n ∷ segs) (_, _, _, _, h) (full, free, f) =
    ((full, free), IsWhole-fill v (seen ++ n ∷ []) segs h f)

-- The segments of a path that instantiates a route.
pub fill_route_segments :
    (v : Str → Str) (segs : List Seg)
    → IsRoute [] segs
    → IsFilled v segs
    → Str.non_empty (Str.split b'/' (fill_route v segs)) ≡ map (fill_seg v) segs
fill_route_segments v segs h f =
    split-slash (joined (map (fill_seg v) segs))
    ∙ split-joined (map (fill_seg v) segs) (IsWhole-fill v [] segs h f)

pub parse_route_source-print :
    (segs : List Seg)
    → IsRoute [] segs
    → parse_route_source (print_route segs) ≡ ok (map ir_of_seg segs, names segs)
unfolding parse_route_source
parse_route_source-print segs h =
    rw (print_route_segments segs h) (parse_segments-print segs [] [] h)
