-- ===== src/Str/Laws.antt =====
-- Laws of the text operations.
use apigate.Prelude.{
  Bool-cases, Option-cases, ◌⊎◌, inl, inr, ℕ, zero, suc, ◌+◌, ◌-◌, ◌≡◌, ◌≢◌, ◌↔◌, refl, List, [],
  ◌∷◌, ◌++◌, true, false, none, some, arith, leb, le→leb, ==_refl, ==_ne, length, All, get_elem?,
  take-append, drop-append, length-append,
}
use apigate.Str.{Str, eq, strip_prefix, find, contains, split, slice, mem, position}

-- No byte of the text is `c`.
abbrev pub Free : ℕ → Str → Type 0
Free c = All (λ x. x ≢ c)

pub eq_iff : (s t : Str) → (eq s t ≡ true) ↔ (s ≡ t)
unfolding eq
eq_iff [] [] = (λ _. refl, λ _. refl)
eq_iff [] (y ∷ t) = (λ h. cc, λ h. cc)
eq_iff (x ∷ s) [] = (λ h. cc, λ h. cc)
eq_iff (x ∷ s) (y ∷ t) = ground (arith, eq_iff s t)

pub eq_refl : (s : Str) → eq s s ≡ true
eq_refl s = (eq_iff s s).1 refl

pub strip_prefix-append : (p s : Str) → strip_prefix (p ++ s) p ≡ some s
unfolding strip_prefix
strip_prefix-append [] s = refl
strip_prefix-append (x ∷ p) s = rw (==_refl x) (strip_prefix-append p s)

-- `strip_prefix` answers with the rest exactly if the text is the prefix and that rest.
pub strip_prefix-eq-some : (s p r : Str) → strip_prefix s p ≡ some r → s ≡ p ++ r
unfolding strip_prefix
strip_prefix-eq-some s [] r h = cc
strip_prefix-eq-some [] (y ∷ p) r h = cc
strip_prefix-eq-some (x ∷ s) (y ∷ p) r h = ground (arith, strip_prefix-eq-some s p r)

pub find-append : (c : ℕ) (s t : Str) → Free c s → find c (s ++ c ∷ t) ≡ some (length s)
unfolding find
find-append c [] t h = rw (==_refl c)
find-append c (x ∷ s) t h = rw (==_ne x c h.0, find-append c s t h.1)

pub find-eq-none : (c : ℕ) (s : Str) → Free c s → find c s ≡ none
unfolding find
find-eq-none c [] h = refl
find-eq-none c (x ∷ s) h = rw (==_ne x c h.0, find-eq-none c s h.1)

contains-eq-false : (c : ℕ) (s : Str) → Free c s → contains c s ≡ false
unfolding contains
contains-eq-false c [] h = refl
contains-eq-false c (x ∷ s) h = rw (==_ne x c h.0) (contains-eq-false c s h.1)

pub split-Free : (c : ℕ) (s : Str) → Free c s → split c s ≡ s ∷ []
unfolding split
split-Free c [] h = refl
split-Free c (x ∷ s) h = rw (==_ne x c h.0, split-Free c s h.1)

pub split-append : (c : ℕ) (s t : Str) → Free c s → split c (s ++ c ∷ t) ≡ s ∷ split c t
unfolding split
split-append c [] t h = rw (==_refl c)
split-append c (x ∷ s) t h = rw (==_ne x c h.0, split-append c s t h.1)

-- The slice of a text between two known parts.
pub slice-append : (p s t : Str) → slice (p ++ (s ++ t)) (length p) (length p + length s) ≡ some s
unfolding slice
slice-append p s t =
    let low : leb (length p) (length p + length s) ≡ true = le→leb _ _ (omega arith) in
    let high : leb (length p + length s) (length (p ++ (s ++ t))) ≡ true =
      le→leb _ _ (omega (arith, length-append p (s ++ t), length-append s t)) in
    let width : length p + length s - length p ≡ length s = omega arith in
    rw (low, high, width, drop-append p (s ++ t), take-append s t)

mem_iff : (s : Str) (ps : List Str) → (mem s ps ≡ true) ↔ (position s ps ≢ none)
unfolding mem position
mem_iff s [] = ground arith
mem_iff s (p ∷ ps) = ground (arith, mem_iff s ps)

pub position-get_elem? :
    (s : Str) (ps : List Str) (i : ℕ) → position s ps ≡ some i → get_elem? ps i ≡ some s
unfolding position
position-get_elem? s [] i h = cc
position-get_elem? s (p ∷ ps) zero h = ground (arith, eq_iff p s)
position-get_elem? s (p ∷ ps) (suc i) h = ground (arith, position-get_elem? s ps i)

pub position-cons :
    (s p : Str) (ps : List Str) (i : ℕ)
    → position s (p ∷ ps) ≡ some i
    → ((p ≡ s) × (i ≡ 0)) ⊎ ((j : ℕ) × (i ≡ suc j) × (position s ps ≡ some j))
unfolding position
position-cons s p ps i h = elim (Bool-cases (eq p s)) [
  | inl same ↦ inl ((eq_iff p s).0 same, ground arith)
  | inr other ↦ elim (Option-cases (position s ps)) [
    | inl missing ↦ cc
    | inr (j, found) ↦ inr (j, ground arith, found)
  ]
]
