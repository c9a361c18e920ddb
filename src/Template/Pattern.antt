-- ===== src/Template/Pattern.antt =====
-- Route paths and rewrite targets as they are meant: lists of literals and named parameters, with
-- the text that a route attribute writes for them and the text that a request substitutes.
use apigate.Prelude.{ℕ, ◌+◌, ◌<◌, ◌≡◌, List, [], ◌∷◌, ◌++◌, false, some, length, is_empty, map}
use apigate.Str
use apigate.Str.{Str}
use apigate.Str.Laws.{Free}
use apigate.Template.{SrcSegIr, is_param_seg}

-- A segment of a route path: a literal, or `{name}`.
pub data Seg : Type 0 where
  lit : Str → Seg
  named : Str → Seg

abbrev pub braced : Str → Str
braced name = b'{' ∷ (name ++ b'}' ∷ [])

abbrev pub print_seg : Seg → Str
print_seg (lit s) = s
print_seg (named n) = braced n

-- Texts joined by slashes.
abbrev pub joined : List Str → Str
joined [] = []
joined (s ∷ []) = s
joined (s ∷ t ∷ r) = s ++ b'/' ∷ joined (t ∷ r)

-- The route path as the attribute writes it.
abbrev pub print_route : List Seg → Str
print_route segs = b'/' ∷ joined (map print_seg segs)

-- A segment with the parameter replaced by its value.
abbrev pub fill_seg : (Str → Str) → Seg → Str
fill_seg v (lit s) = s
fill_seg v (named n) = v n

-- The path of a request that instantiates the route.
abbrev pub fill_route : (Str → Str) → List Seg → Str
fill_route v segs = b'/' ∷ joined (map (fill_seg v) segs)

abbrev pub names : List Seg → List Str
names [] = []
names (lit s ∷ segs) = names segs
names (named n ∷ segs) = n ∷ names segs

abbrev pub ir_of_seg : Seg → SrcSegIr
ir_of_seg (lit s) = SrcSegIr.lit s
ir_of_seg (named n) = SrcSegIr.param

-- A route path that the compiler accepts: no empty or slashed segment, no literal that reads as a
-- parameter, and at most 256 parameters with different names; `seen` are those before.
abbrev pub IsRoute : (seen : List Str) → List Seg → Type 0
IsRoute seen [] = Unit
IsRoute seen (lit s ∷ segs) =
    (is_empty s ≡ false) × Free b'/' s × (is_param_seg s ≡ false) × IsRoute seen segs
IsRoute seen (named n ∷ segs) =
    (is_empty n ≡ false)
    × Free b'/' n
    × (Str.mem n seen ≡ false)
    × (length seen < 256)
    × IsRoute (seen ++ n ∷ []) segs

-- The values that a request may give to the parameters of the route.
abbrev pub IsFilled : (Str → Str) → List Seg → Type 0
IsFilled v [] = Unit
IsFilled v (lit s ∷ segs) = IsFilled v segs
IsFilled v (named n ∷ segs) = (is_empty (v n) ≡ false) × Free b'/' (v n) × IsFilled v segs

-- A rewrite target: a literal, then parameters that each have a literal behind them.
pub record Target : Type 0 where
  pub first : Str
  pub parts : List (Str × Str)

abbrev pub print_parts : Str → List (Str × Str) → Str
print_parts l [] = l
print_parts l ((n, l') ∷ r) = l ++ b'{' ∷ (n ++ b'}' ∷ print_parts l' r)

abbrev pub print_target : Target → Str
print_target t = print_parts t.first t.parts

abbrev pub fill_parts : (Str → Str) → Str → List (Str × Str) → Str
fill_parts v l [] = l
fill_parts v l ((n, l') ∷ r) = l ++ (v n ++ fill_parts v l' r)

abbrev pub fill_target : (Str → Str) → Target → Str
fill_target v t = fill_parts v t.first t.parts

-- Literals have no braces, and the names are parameters of the route.
abbrev pub IsParts : List Str → Str → List (Str × Str) → Type 0
IsParts params l [] = Free b'{' l × Free b'}' l
IsParts params l ((n, l') ∷ r) =
    (Free b'{' l × Free b'}' l)
    × (is_empty n ≡ false)
    × Free b'}' n
    × ((k : ℕ) × (Str.position n params ≡ some k) × (k < 256))
    × IsParts params l' r

abbrev pub IsTarget : List Str → Target → Type 0
IsTarget params t = IsParts params t.first t.parts

-- The bytes of a target that are not parameters.
abbrev pub literal_length : Str → List (Str × Str) → ℕ
literal_length l [] = length l
literal_length l ((n, l') ∷ r) = length l + literal_length l' r
