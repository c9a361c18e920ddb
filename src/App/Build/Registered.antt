-- ===== src/App/Build/Registered.antt =====
-- What is registered with a builder, and which of its URLs do not parse.
use apigate.Prelude.{
  ℕ, ◌≡◌, refl, ◌∙◌, ap, List, [], ◌∷◌, Bool-cases, Option, none, some, sym, map_err, ok_or,
  bind-ok, bind-err, map_err-err, Result, ok, err, inl, inr, In,
}
use apigate.Str
use apigate.Str.{Str}
use apigate.Str.Laws.{eq_iff}
use apigate.Http.{Http}
use apigate.Backend.{BaseUriParseError, BackendPool, parse}
use apigate.App.{lookup}
use apigate.App.Build.{BuildError, invalid_backend_uri, P, Table, build_pools, parse_all}

ok_inj {ℓ} : {A : Type ℓ} {a b : A} → ◌≡◌ {A = Result BuildError A} (ok a) (ok b) → a ≡ b
ok_inj h = cc

abbrev pub keys {ℓ} : {A : Type ℓ} → List (Str × A) → List Str
keys [] = []
keys ((k, a) ∷ entries) = k ∷ keys entries

pub lookup-none {ℓ} :
    {A : Type ℓ} (entries : List (Str × A)) (key : Str)
    → lookup entries key ≡ none
    → ¬ In key (keys entries)
unfolding lookup
lookup-none [] key h i = i
lookup-none ((k, a) ∷ entries) key h i = elim (Bool-cases (Str.eq k key)) [
  | inl same ↦ let bad = rw same at h in cc
  | inr other ↦ elim i [
    | inl e ↦ let same = (eq_iff k key).1 (sym e) in cc
    | inr later ↦ lookup-none entries key (rw other at h) later
  ]
]

pub ok_or-err {ℓ} :
    {A : Type ℓ} (o : Option A) (d : BuildError) {e : BuildError}
    → ◌≡◌ {A = Result BuildError A} (ok_or o d) (err e)
    → (o ≡ none) × (e ≡ d)
ok_or-err none d h = (refl, cc)
ok_or-err (some a) d h = cc

module _ (http : Http) (xxh3_64 : Str → ℕ) (Pipeline : Type 0) where
  abbrev Q : Type 1
  Q = P http xxh3_64 Pipeline

  abbrev T : Type 1
  T = Table http xxh3_64 Pipeline

  abbrev Pools : Type 0
  Pools = List (Str × BackendPool http)

  parse_all-err :
      (svc : Str) (urls : List Str) (e : BuildError)
      → parse_all http xxh3_64 Pipeline svc urls ≡ err e
      → (url : Str) × (source : BaseUriParseError) × In url urls
        × (parse http url ≡ err source)
        × (e ≡ invalid_backend_uri svc url source)
  unfolding parse_all
  parse_all-err svc [] e h = cc
  parse_all-err svc (url ∷ urls) e h =
      elim (bind-err (map_err (invalid_backend_uri svc url) (parse http url)) _ h) [
        | inl first ↦
            let (source, bad, same) = map_err-err _ _ first in (url, source, inl refl, bad, same)
        | inr (base, _, later) ↦
            elim (bind-err (parse_all http xxh3_64 Pipeline svc urls) _ later) [
              | inl rest ↦
                  let (u, source, i, bad, same) = parse_all-err svc urls e rest in
                  (u, source, inr i, bad, same)
              | inr (bases, _, never) ↦ cc
            ]
      ]

  -- The URL that does not parse, as a cause.
  abbrev pub IsBadUrl : List (Str × List Str) → BuildError → Type 0
  IsBadUrl backends e =
      (service url : Str) × (source : BaseUriParseError) × (urls : List Str) × In (service, urls)
        backends
      × In url urls
      × (parse http url ≡ err source)
      × (e ≡ invalid_backend_uri service url source)

  pub build_pools-err :
      (backends : List (Str × List Str)) (e : BuildError)
      → build_pools http xxh3_64 Pipeline backends ≡ err e
      → IsBadUrl backends e
  unfolding build_pools
  build_pools-err [] e h = cc
  build_pools-err ((svc, urls) ∷ backends) e h =
      elim (bind-err (parse_all http xxh3_64 Pipeline svc urls) _ h) [
        | inl first ↦
            let (url, source, i, bad, same) = parse_all-err svc urls e first in
            (svc, url, source, urls, inl refl, i, bad, same)
        | inr (bases, _, later) ↦
            elim (bind-err (build_pools http xxh3_64 Pipeline backends) _ later) [
              | inl rest ↦
                  let (service, url, source, us, i, j, bad, same) =
                    build_pools-err backends e rest in
                  (service, url, source, us, inr i, j, bad, same)
              | inr (pools, _, never) ↦ cc
            ]
      ]

  pub build_pools-keys :
      (backends : List (Str × List Str)) (pools : Pools)
      → build_pools http xxh3_64 Pipeline backends ≡ ok pools
      → keys pools ≡ keys backends
  unfolding build_pools
  build_pools-keys [] pools made = rw (← ok_inj made)
  build_pools-keys ((svc, urls) ∷ backends) pools made =
      let (bases, made', _) = bind-ok (parse_all http xxh3_64 Pipeline svc urls) _ made in
      let (rest, made'', earlier) = bind-ok (build_pools http xxh3_64 Pipeline backends) _ made' in
      ap keys (sym (ok_inj made'')) ∙ ap (λ k. svc ∷ k) (build_pools-keys backends rest earlier)
