-- ===== src/Str.antt =====
-- Rust's `str`, as its UTF-8 bytes, with the methods of the standard library that the gateway
-- uses. Every delimiter that the gateway searches for is one ASCII byte, so byte positions are
-- character boundaries there. The laws are in the child module.
pub mod Laws
use Prim.Native.Char.{code}
use apigate.Prelude.{
  ℕ, suc, ◌-◌, String, List, [], ◌∷◌, ◌++◌, Bool, true, false, ◌&&◌, ◌||◌, not, Option, none, some,
  ltb, leb, ◌==◌, if◌then◌else◌, length, take, drop, is_empty,
}
use mathlib.Core.Option

abbrev pub Str : Type 0
Str = List ℕ

-- The bytes of an ASCII literal.
abbrev pub codes : String → Str
codes String.[] = []
codes (String.◌∷◌ c s) = code c ∷ codes s

unfoldable pub eq : Str → Str → Bool
eq [] [] = true
eq (x ∷ s) (y ∷ t) = x == y && eq s t
eq _ _ = false

unfoldable pub starts_with : Str → ℕ → Bool
starts_with [] c = false
starts_with (x ∷ s) c = x == c

unfoldable pub ends_with : Str → ℕ → Bool
ends_with [] c = false
ends_with (x ∷ []) c = x == c
ends_with (x ∷ y ∷ s) c = ends_with (y ∷ s) c

-- `s.strip_prefix(p)`
unfoldable pub strip_prefix : Str → Str → Option Str
strip_prefix s [] = some s
strip_prefix [] (y ∷ p) = none
strip_prefix (x ∷ s) (y ∷ p) = if x == y then strip_prefix s p else none

-- `s.strip_suffix(c)`
unfoldable pub strip_suffix : Str → ℕ → Option Str
unfolding ends_with
strip_suffix s c = if ends_with s c then some (take (length s - 1) s) else none

-- `s.find(c)`
unfoldable pub find : ℕ → Str → Option ℕ
find c [] = none
find c (x ∷ s) = let rest = find c s in if x == c then some 0 else Option.map suc rest

-- `s.contains(c)`
unfoldable pub contains : ℕ → Str → Bool
contains c [] = false
contains c (x ∷ s) = let rest = contains c s in if x == c then true else rest

cons_first : ℕ → List Str → List Str
cons_first x [] = (x ∷ []) ∷ []
cons_first x (p ∷ ps) = (x ∷ p) ∷ ps

-- `s.split(c)`
unfoldable pub split : ℕ → Str → List Str
unfolding cons_first
split c [] = [] ∷ []
split c (x ∷ s) = let rest = split c s in if x == c then [] ∷ rest else cons_first x rest

-- `.filter(|s| !s.is_empty())`
unfoldable pub non_empty : List Str → List Str
non_empty [] = []
non_empty (p ∷ ps) = let rest = non_empty ps in if is_empty p then rest else p ∷ rest

-- `s.trim_end_matches(c)`
unfoldable pub trim_end_matches : ℕ → Str → Str
trim_end_matches c [] = []
trim_end_matches c (x ∷ s) =
    let rest = trim_end_matches c s in if is_empty rest && x == c then [] else x ∷ rest

-- `&s[a..b]`, which panics outside the text.
unfoldable pub slice : Str → ℕ → ℕ → Option Str
slice s a b = if leb a b && leb b (length s) then some (take (b - a) (drop a s)) else none

-- `v.iter().any(|p| p == s)`
unfoldable pub mem : Str → List Str → Bool
unfolding eq
mem s [] = false
mem s (p ∷ ps) = let rest = mem s ps in if eq p s then true else rest

-- `v.iter().position(|p| p == s)`
unfoldable pub position : Str → List Str → Option ℕ
unfolding eq
position s [] = none
position s (p ∷ ps) = let rest = position s ps in if eq p s then some 0 else Option.map suc rest

-- The whitespace that `s.trim()` finds in ASCII text.
is_space : ℕ → Bool
is_space x = x == 32 || (leb 9 x && leb x 13)

trim_start : Str → Str
unfolding is_space
trim_start [] = []
trim_start (x ∷ s) = let rest = trim_start s in if is_space x then rest else x ∷ s

trim_end : Str → Str
unfolding is_space
trim_end [] = []
trim_end (x ∷ s) = let rest = trim_end s in if is_empty rest && is_space x then [] else x ∷ rest

unfoldable pub trim : Str → Str
unfolding trim_start trim_end
trim s = trim_end (trim_start s)

-- `s.starts_with(p)` and `s.contains(p)` for a text `p`
unfoldable pub starts_with_str : Str → Str → Bool
starts_with_str s [] = true
starts_with_str [] (y ∷ p) = false
starts_with_str (x ∷ s) (y ∷ p) = x == y && starts_with_str s p

unfoldable pub contains_str : Str → Str → Bool
unfolding starts_with_str
contains_str [] p = starts_with_str [] p
contains_str (x ∷ s) p = starts_with_str (x ∷ s) p || contains_str s p
