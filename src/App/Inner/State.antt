-- ===== src/App/Inner/State.antt =====
-- The state that the application registers, in the scope of a request.
use apigate.Prelude.{ℕ, ◌≡◌, refl, ◌∙◌, List, [], ◌∷◌, All, none, some, true, false}
use apigate.Str.{Str}
use apigate.Http.{Http}
use apigate.Pipeline
use apigate.Pipeline.{PartsCtx, RequestScope, TypeMap, new_scope}
use apigate.Pipeline.Scope.{get-new_scope}
use apigate.App.{AppBuilder}
use apigate.App.Inner.{Shared, state, build_inner}
use apigate.Dispatch.{Meta, Request, PipelineFn, run_pipeline}

module _ (http : Http) (xxh3_64 : Str → ℕ) (map : TypeMap) (Body : Type 0) where
  abbrev S : Type 0
  S = Shared http xxh3_64 map Body

  -- `state` for one value after the other.
  abbrev pub register : List (map.Key × map.Value) → S → S
  register [] b = b
  register ((key, val) ∷ vals) b = register vals (state http xxh3_64 map Body key val b)

  abbrev pub IsOther : map.Key → map.Key × map.Value → Type 0
  IsOther key entry = map.same entry.0 key ≡ false

  get-register :
      (b : S) (key : map.Key) (val : map.Value) (vals : List (map.Key × map.Value))
      → map.get b.state key ≡ some val
      → All (IsOther key) vals
      → map.get (register vals b).state key ≡ some val
  unfolding state
  get-register b key val [] there others = there
  get-register b key val ((k, v) ∷ vals) there others =
      get-register (state http xxh3_64 map Body k v b) key val vals
        (rw (map.get-insert b.state k key v) (rw others.0 there)) others.1

  -- The pipeline of a route runs on the head of the request as it came, and on a scope with the
  -- body of the request and the builder's limit, in which the hooks find each value that the
  -- application registered, if none of the same type was registered later and a fresh scope has
  -- none.
  pub run_pipeline-state {ℓ} :
      {P : Type ℓ} {Q : Type 0} (empty : map.Extensions) (b : AppBuilder P Q) (shared : S)
      (key : map.Key) (val : map.Value) (vals : List (map.Key × map.Value))
      (meta : Meta http xxh3_64 Body map.Extensions)
      (pipeline : PipelineFn http xxh3_64 Body map.Extensions)
      (parts : Request http xxh3_64 Body map.Extensions) (body : Body)
      → map.same key key ≡ true
      → map.get empty key ≡ none
      → All (IsOther key) vals
      → (scope : RequestScope Body map.Extensions) × (run_pipeline http xxh3_64 Body map.Extensions
            (build_inner http xxh3_64 map Body empty b
              (register vals (state http xxh3_64 map Body key val shared)))
            meta
            (some pipeline)
            parts
            body
          ≡ pipeline
              (record { service = meta.service; route_path = meta.route_path; parts = parts })
              scope)
        × (Pipeline.get map scope key ≡ some val)
        × (scope.body ≡ some body)
        × (scope.body_limit ≡ b.map_body_limit)
  unfolding run_pipeline new_scope state
  run_pipeline-state empty b shared key val vals meta pipeline parts body same fresh others =
      let there : map.get (state http xxh3_64 map Body key val shared).state key ≡ some val =
        rw (map.get-insert shared.state key key val) (rw same refl) in
      (
        _,
        refl,
        get-new_scope map _ empty body b.map_body_limit key fresh
            ∙ get-register (state http xxh3_64 map Body key val shared) key val vals there others,
        refl,
        refl,
      )
