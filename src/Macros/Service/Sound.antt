-- ===== src/Macros/Service/Sound.antt =====
-- The expansion of a service always ends, with sound routes or an error.
use apigate.Prelude.{
  ◌≡◌, refl, List, [], ◌∷◌, Option, none, some, Result, ok, err, Run, done, run_then, map_err, All,
  Bool-cases, inl, inr,
}
use mathlib.Core.Path.{subst}
use apigate.Str
use apigate.Str.{Str}
use apigate.Http.{Http}
use apigate.Pipeline.{TypeMap}
use apigate.Facade.{Serde}
use apigate.Rewrite.{RewriteSpec, RewriteTemplate}
use apigate.App.{RouteDef}
use apigate.Template.{RewriteTemplateError}
use apigate.Template.Safety.{IsTemplate, IsCompiled, compile_rewrite_template-IsCompiled}
use apigate.Macros.Args.{Syn, ServiceArgs, parse_service_args}
use apigate.Macros.Codegen.{Env}
use apigate.Macros.Service.{
  MacroError, args, template, build_rewrite_spec, compiled_spec, Item, function, other, ItemMod,
  MatchedRouteAttr, find_route_attr, Pipeline, route_def, expand_matched, expand_route_from_fn,
  push_some, expand_items, expand_content, expand_service,
}

-- A template that is emitted refers only to captures that its source makes.
abbrev pub IsSoundSpec : RewriteSpec → Type 0
IsSoundSpec RewriteSpec.strip_prefix = Unit
IsSoundSpec (RewriteSpec.fixed t) = Unit
IsSoundSpec (RewriteSpec.template tpl) = IsTemplate tpl

-- Neither a panic nor a lack of fuel, and what holds of a result.
abbrev pub Ends : {A : Type 0} → (A → Type 0) → Run (Result MacroError A) → Type 0
Ends {A} P r = (q : Result MacroError A) × (r ≡ done q) × ((a : A) → q ≡ ok a → P a)

Ends-run_then :
    {A B : Type 0} (P : A → Type 0) (Q : B → Type 0) (r : Run (Result MacroError A))
    (f : A → Run (Result MacroError B))
    → Ends P r
    → ((a : A) → P a → Ends Q (f a))
    → Ends Q (run_then r f)
Ends-run_then P Q r f (ok a, e, h) k = let (q, e', h') = k a (h a refl) in (q, rw e e', h')
Ends-run_then P Q r f (err d, e, h) k = (err d, rw e refl, λ b bad. cc)

ok_inj : {A : Type 0} {a b : A} → ◌≡◌ {A = Result MacroError A} (ok a) (ok b) → a ≡ b
ok_inj h = cc

Ends-ok : {A : Type 0} (P : A → Type 0) (a : A) → P a → Ends P (done (ok a))
Ends-ok P a h = (ok a, refl, λ b e. subst P (ok_inj e) h)

Ends-done : {A : Type 0} (q : Result MacroError A) → Ends (λ a. Unit {0}) (done q)
Ends-done q = (q, refl, λ a e. tt)

compiled_spec-Ends :
    (r : Result RewriteTemplateError RewriteTemplate)
    → IsCompiled r
    → Ends IsSoundSpec (done (compiled_spec r))
unfolding compiled_spec
compiled_spec-Ends (ok tpl) h = Ends-ok IsSoundSpec (RewriteSpec.template tpl) h
compiled_spec-Ends (err e) h = (err (template e), refl, λ a bad. cc)

build_rewrite_spec-Ends :
    (path : Str) (to : Option Str) → Ends IsSoundSpec (build_rewrite_spec path to)
unfolding build_rewrite_spec
build_rewrite_spec-Ends path none = Ends-ok IsSoundSpec RewriteSpec.strip_prefix tt
build_rewrite_spec-Ends path (some t) = elim (Bool-cases (Str.contains b'{' t)) [
  | inr plain ↦ rw plain (Ends-ok IsSoundSpec (RewriteSpec.fixed t) tt)
  | inl braces ↦
      let (r, e, h) = compile_rewrite_template-IsCompiled path t in
      rw (braces, e) (compiled_spec-Ends r h)
]

module _ (http : Http) (map_ : TypeMap) (serde : Serde) {Body Custom : Type 0}
    (env : Env http map_ serde Body Custom) (syn : Syn) (path_of : syn.ItemPath → env.ItemPath)
    (type_of : syn.Type_ → serde.Ty) where
  abbrev pub IsSoundRoute : RouteDef (Pipeline http map_ serde env syn path_of type_of) → Type 0
  IsSoundRoute rd = IsSoundSpec rd.rewrite

  abbrev IsSoundOption :
      Option (RouteDef (Pipeline http map_ serde env syn path_of type_of)) → Type 0
  IsSoundOption none = Unit
  IsSoundOption (some rd) = IsSoundRoute rd

  pushed :
      (extracted : Option (RouteDef (Pipeline http map_ serde env syn path_of type_of)))
      (defs : List (RouteDef (Pipeline http map_ serde env syn path_of type_of)))
      → IsSoundOption extracted
      → All IsSoundRoute defs
      → All IsSoundRoute (push_some http map_ serde env syn path_of type_of extracted defs)
  unfolding push_some
  pushed none defs sound all = all
  pushed (some rd) defs sound all = (sound, all)

  expand_matched-Ends :
      (found : Option (MatchedRouteAttr syn))
      → Ends IsSoundOption (expand_matched http map_ serde env syn path_of type_of found)
  unfolding expand_matched route_def
  expand_matched-Ends none = Ends-ok IsSoundOption none tt
  expand_matched-Ends (some matched) =
      Ends-run_then IsSoundSpec IsSoundOption _ _
        (build_rewrite_spec-Ends matched.args.path matched.args.to)
        (λ spec h. Ends-ok IsSoundOption _ h)

  expand_items-Ends :
      (items : List (Item syn.Tokens))
      → Ends (All IsSoundRoute) (expand_items http map_ serde env syn path_of type_of items)
  unfolding expand_items expand_route_from_fn
  expand_items-Ends [] = Ends-ok (All IsSoundRoute) [] tt
  expand_items-Ends (other ∷ items) = expand_items-Ends items
  expand_items-Ends (function ident attrs ∷ items) =
      Ends-run_then IsSoundOption (All IsSoundRoute) _ _
        (Ends-run_then (λ f. Unit {0}) IsSoundOption _ _ (Ends-done (find_route_attr syn attrs))
          (λ found h. expand_matched-Ends found))
        (λ extracted sound.
          Ends-run_then (All IsSoundRoute) (All IsSoundRoute) _ _ (expand_items-Ends items)
            (λ defs all. Ends-ok (All IsSoundRoute) _ (pushed extracted defs sound all)))

  expand_content-Ends :
      (sargs : ServiceArgs) (ident : Str) (content : Option (List (Item syn.Tokens)))
      → Ends
          (λ routes. All IsSoundRoute routes.routes)
          (expand_content http map_ serde env syn path_of type_of sargs ident content)
  unfolding expand_content
  expand_content-Ends sargs ident none = (err MacroError.no_inline_body, refl, λ a bad. cc)
  expand_content-Ends sargs ident (some items) =
      Ends-run_then (All IsSoundRoute) _ _ _ (expand_items-Ends items) (λ defs all. Ends-ok _ _ all)

  -- Whatever the arguments and the module, the expansion of a service ends, without a panic and
  -- within the fuel of the template compiler, and in the routes that it gives every template refers
  -- only to captures that its source makes and records its static length.
  pub expand_service-IsSound :
      (raws : List (Str × syn.Tokens)) (m : ItemMod syn.Tokens)
      → Ends
          (λ routes. All IsSoundRoute routes.routes)
          (expand_service http map_ serde env syn path_of type_of raws m)
  unfolding expand_service
  expand_service-IsSound raws m =
      Ends-run_then (λ a. Unit {0}) _ _ _ (Ends-done (map_err args (parse_service_args syn raws)))
        (λ sargs h. expand_content-Ends sargs m.ident m.content)
