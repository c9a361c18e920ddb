-- ===== src/Macros/Service/Attrs.antt =====
-- Which route attribute of a function is found.
use apigate.Prelude.{
  ℕ, suc, ◌≡◌, refl, ◌∙◌, ap, List, [], ◌∷◌, Option, none, some, Result, ok, err, ◌>>=◌,
  Option-cases, inl, inr,
}
use mathlib.Core.Path.{fun_ext}
use apigate.App.{Method}
use apigate.Macros.Args.{Syn, RouteArgs}
use apigate.Macros.Service.{
  MacroError, multiple_route_attributes, from_attr, Attribute, MatchedRouteAttr, parse_args,
  found_first, match_attr, scan_attrs, find_route_attr,
}

module _ (syn : Syn) where
  abbrev Attr : Type 0
  Attr = Attribute syn.Tokens

  -- A route attribute with its position and its method.
  abbrev pub Found : Type 0
  Found = ℕ × Method × Attr

  abbrev pub cons_if : ℕ → Attr → Option Method → List Found → List Found
  cons_if idx attr none found = found
  cons_if idx attr (some kind) found = (idx, kind, attr) ∷ found

  abbrev pub route_attrs : ℕ → List Attr → List Found
  route_attrs idx [] = []
  route_attrs idx (attr ∷ attrs) =
      cons_if idx attr (from_attr attr.segments) (route_attrs (suc idx) attrs)

  abbrev pub parsed : Found → Result MacroError (MatchedRouteAttr syn)
  parsed (idx, kind, attr) = parse_args syn attr attr.literal >>= λ args.
      ok (record { idx = idx; kind = kind; args = args })

  -- No attribute, the only one, or an error: that of the first whose arguments do not parse, the second
  -- one's place included, and else that there are several.
  abbrev pub choose : List Found → Result MacroError (Option (MatchedRouteAttr syn))
  choose [] = ok none
  choose (a ∷ []) = parsed a >>= λ matched. ok (some matched)
  choose (a ∷ b ∷ rest) =
      parsed a >>= λ matched. parsed b >>= λ second. err multiple_route_attributes

  abbrev after :
      MatchedRouteAttr syn → List Found → Result MacroError (Option (MatchedRouteAttr syn))
  after matched [] = ok (some matched)
  after matched (b ∷ rest) = parsed b >>= λ second. err multiple_route_attributes

  second_step :
      {A B C D : Type 0} (r : Result MacroError A) (e : MacroError) (f : A → D)
      (k : B → Result MacroError C)
      → ((r >>= λ a. err e) >>= k) ≡ ((r >>= λ a. ok (f a)) >>= λ d. err e)
  second_step (ok a) e f k = refl
  second_step (err d) e f k = refl

  first_step :
      {A B C D : Type 0} (r : Result MacroError A) (f : A → D) (g : D → B)
      (k : B → Result MacroError C)
      → ((r >>= λ a. ok (g (f a))) >>= k) ≡ ((r >>= λ a. ok (f a)) >>= λ d. k (g d))
  first_step (ok a) f g k = refl
  first_step (err d) f g k = refl

  choose-after :
      (a : Found) (rest : List Found)
      → (parsed a >>= λ matched. after matched rest) ≡ choose (a ∷ rest)
  choose-after a [] = refl
  choose-after a (b ∷ rest) = refl

  abbrev at : ℕ → Method → RouteArgs syn → MatchedRouteAttr syn
  at idx kind args = record { idx = idx; kind = kind; args = args }

  scan_attrs-after :
      (idx : ℕ) (attrs : List Attr) (matched : MatchedRouteAttr syn)
      → scan_attrs syn idx attrs (some matched) ≡ after matched (route_attrs idx attrs)
  unfolding scan_attrs match_attr found_first
  scan_attrs-after idx [] matched = refl
  scan_attrs-after idx (attr ∷ attrs) matched = elim (Option-cases (from_attr attr.segments)) [
    | inl other ↦ rw other (scan_attrs-after (suc idx) attrs matched)
    | inr (kind, route) ↦
        rw route (second_step (parse_args syn attr attr.literal) _ (at idx kind) _)
  ]

  scan_attrs-choose :
      (idx : ℕ) (attrs : List Attr) → scan_attrs syn idx attrs none ≡ choose (route_attrs idx attrs)
  unfolding scan_attrs match_attr found_first
  scan_attrs-choose idx [] = refl
  scan_attrs-choose idx (attr ∷ attrs) = elim (Option-cases (from_attr attr.segments)) [
    | inl other ↦ rw other (scan_attrs-choose (suc idx) attrs)
    | inr (kind, route) ↦ rw route (
        first_step (parse_args syn attr attr.literal) (at idx kind) some
          (scan_attrs syn (suc idx) attrs)
        ∙ ap (λ k. parsed (idx, kind, attr) >>= k) (fun_ext λ m. scan_attrs-after (suc idx) attrs m)
        ∙ choose-after (idx, kind, attr) (route_attrs (suc idx) attrs))
  ]

  -- The search for the route attribute of a function gives what its list of route attributes
  -- determines: nothing if it has none; if it has one, that one with its position and its parsed
  -- arguments, or their error; and an error if it has more, which is that of the first two's
  -- arguments, or else that there are several.
  pub find_route_attr-choose :
      (attrs : List Attr) → find_route_attr syn attrs ≡ choose (route_attrs 0 attrs)
  unfolding find_route_attr
  find_route_attr-choose attrs = scan_attrs-choose 0 attrs
