-- ===== src/Pipeline/Scope.antt =====
-- The body is read once, and values of a request hide those of the application.
use apigate.Prelude.{
  ℕ, ◌≡◌, refl, ◌∙◌, String, Option, none, some, Result, ok, err, Result-cases, inl, inr, true,
}
use apigate.Str.{Str}
use apigate.Error.{PipelineError}
use apigate.Pipeline.{
  RequestScope, TypeMap, take_body, read_from, read_body_bytes, new_scope, get, insert, take,
  get_mut,
}

module _ {Body Extensions : Type 0} (to_bytes : Body → ℕ → Result String Str) where
  read_from-body :
      (scope : RequestScope Body Extensions) (body : Option Body)
      → scope.body ≡ body
      → (read_from to_bytes scope body).0.body ≡ none
  unfolding read_from
  read_from-body scope none e = e
  read_from-body scope (some body) e = elim (Result-cases (to_bytes body scope.body_limit)) [
    | inl (bytes, fits) ↦ rw (fits, read_from) refl
    | inr (detail, large) ↦ rw (large, read_from) refl
  ]

  -- The three ends of reading.
  pub read_body_bytes-ok :
      (scope : RequestScope Body Extensions) (body : Body) (bytes : Str)
      → scope.body ≡ some body
      → to_bytes body scope.body_limit ≡ ok bytes
      → read_body_bytes to_bytes scope
        ≡ (record scope { body = none; raw_body = some bytes }, ok bytes)
  unfolding read_body_bytes read_from
  read_body_bytes-ok scope body bytes there fits = simp there (rw (fits, read_from) refl)

  pub read_body_bytes-err :
      (scope : RequestScope Body Extensions) (body : Body) (detail : String)
      → scope.body ≡ some body
      → to_bytes body scope.body_limit ≡ err detail
      → read_body_bytes to_bytes scope
        ≡ (record scope { body = none }, err (PipelineError.request_body_too_large detail))
  unfolding read_body_bytes read_from
  read_body_bytes-err scope body detail there large = simp there (rw (large, read_from) refl)

  pub read_body_bytes-none :
      (scope : RequestScope Body Extensions)
      → scope.body ≡ none
      → read_body_bytes to_bytes scope ≡ (scope, err PipelineError.request_body_already_consumed)
  unfolding read_body_bytes read_from
  read_body_bytes-none scope gone = simp gone

  consumed :
      (scope : RequestScope Body Extensions)
      → scope.body ≡ none
      → (read_body_bytes to_bytes scope).1 ≡ err PipelineError.request_body_already_consumed
  unfolding read_body_bytes read_from
  consumed scope gone = rw (gone, read_from) refl

  -- However reading a body ends, and also where it is taken, it is gone: a second reading fails as
  -- already consumed.
  pub read_body_bytes_once :
      (scope : RequestScope Body Extensions)
      → ((read_body_bytes to_bytes (read_body_bytes to_bytes scope).0).1
          ≡ err PipelineError.request_body_already_consumed)
        × ((read_body_bytes to_bytes (take_body scope).0).1
            ≡ err PipelineError.request_body_already_consumed)
  unfolding read_body_bytes take_body
  read_body_bytes_once scope = (
    consumed (read_from to_bytes scope scope.body).0 (read_from-body scope scope.body refl),
    consumed (take_body scope).0 refl,
  )

-- A value that is inserted into the scope is found and hides the application's value of its type;
-- when it is taken, the application's value is found again.
pub get-insert_take :
    (map : TypeMap) {Body : Type 0} (scope : RequestScope Body map.Extensions) (key : map.Key)
    (value : map.Value)
    → map.same key key ≡ true
    → (get map (insert map scope key value) key ≡ some value)
      × ((take map (insert map scope key value) key).1 ≡ some value)
      × (get map (take map (insert map scope key value) key).0 key ≡ map.get scope.shared key)
unfolding get insert take
get-insert_take map scope key value h =
    let found : map.get (map.insert scope.scoped key value) key ≡ some value =
      map.get-insert scope.scoped key key value ∙ rw h refl in
    (
      rw found refl,
      rw found refl,
      rw (map.get-remove (map.insert scope.scoped key value) key key) (rw h refl),
    )

-- What the scope lends for writing is the value that it would give, what is written is what it
-- then gives, and it lends nothing of the application.
get_mut_lem :
    (map : TypeMap) {Body : Type 0} (scope : RequestScope Body map.Extensions) (key : map.Key)
    (value next : map.Value)
    → map.same key key ≡ true
    → map.get scope.scoped key ≡ some value
    → (put : map.Value → RequestScope Body map.Extensions) × (get_mut map scope key
        ≡ some (value, put))
      × (get map scope key ≡ some value)
      × (get map (put next) key ≡ some next)
      × (get_mut map (record scope { scoped = map.remove scope.scoped key }) key ≡ none)
unfolding get insert get_mut
get_mut_lem map scope key value next h there = (
  (λ v. insert map scope key v),
  rw (there, get_mut) refl,
  rw there refl,
  rw (map.get-insert scope.scoped key key next) (rw h refl),
  rw (map.get-remove scope.scoped key key) (rw h refl),
)

-- A fresh scope gives the values of the application.
pub get-new_scope :
    (map : TypeMap) {Body : Type 0} (shared empty : map.Extensions) (body : Body) (limit : ℕ)
    (key : map.Key)
    → map.get empty key ≡ none
    → get map (new_scope shared empty body limit) key ≡ map.get shared key
unfolding get new_scope
get-new_scope map shared empty body limit key fresh = rw fresh refl
