-- ===== src/Pipeline.antt =====
-- apigate-core/src/pipeline.rs: the scope of a pipeline, with its body and its extensions. The map
-- of extensions is a parameter, keyed by the type of a value.
pub mod Scope
use apigate.Prelude.{
  ℕ, ◌≡◌, String, Bool, Option, none, some, Result, ok, err, Run, or_else, or_panic, length,
  is_empty, if◌then◌else◌,
}
use apigate.Str
use apigate.Str.{Str}
use apigate.Http.{Http, Parts}
use apigate.Error.{PipelineError}

pub record PartsCtx (http : Http) : Type 0 where
  pub service : Str
  pub route_path : Str
  pub parts : Parts http.Uri http.Headers

pub record RequestScope (Body Extensions : Type 0) : Type 0 where
  pub shared : Extensions
  pub scoped : Extensions
  pub body : Option Body
  pub raw_body : Option Str
  pub body_limit : ℕ

unfoldable pub new_scope :
    {Body Extensions : Type 0} → Extensions → Extensions → Body → ℕ → RequestScope Body Extensions
new_scope shared empty body body_limit = record {
  shared = shared;
  scoped = empty;
  body = some body;
  raw_body = none;
  body_limit = body_limit;
}

-- `RawBody`: the bytes that were read.
pub record RawBody : Type 0 where
  pub bytes : Str

-- `http::Extensions`: at most one value for a key.
pub record TypeMap : Type 1 where
  pub Extensions : Type 0
  pub Key : Type 0
  pub Value : Type 0
  pub same : Key → Key → Bool
  pub get : Extensions → Key → Option Value
  pub insert : Extensions → Key → Value → Extensions
  pub remove : Extensions → Key → Extensions
  pub get-insert :
      (e : Extensions) (k m : Key) (v : Value)
      → get (insert e k v) m ≡ (if same k m then some v else get e m)
  pub get-remove :
      (e : Extensions) (k m : Key) → get (remove e k) m ≡ (if same k m then none else get e m)

unfoldable raw_len : RawBody → ℕ
raw_len raw = length raw.bytes

unfoldable raw_is_empty : RawBody → Bool
raw_is_empty raw = is_empty raw.bytes

-- `raw.slice(start..end)`, which panics out of range
unfoldable raw_slice : RawBody → ℕ → ℕ → Run Str
unfolding Str.slice
raw_slice raw start end = or_panic (Str.slice raw.bytes start end)

abbrev raw_of : Option Str → Option RawBody
raw_of none = none
raw_of (some bytes) = some (record { bytes = bytes })

module _ {Body Extensions : Type 0} where
  unfoldable pub take_body :
      RequestScope Body Extensions → RequestScope Body Extensions × Option Body
  take_body scope = (record scope { body = none }, scope.body)

  -- `to_bytes(body, limit)`, or the text of its error
  unfoldable pub read_from :
      (Body → ℕ → Result String Str)
      → RequestScope Body Extensions
      → Option Body
      → RequestScope Body Extensions × Result PipelineError Str
  read_from to_bytes scope none = (scope, err PipelineError.request_body_already_consumed)
  read_from to_bytes scope (some body) = elim (to_bytes body scope.body_limit) [
    | ok bytes ↦ (record scope { body = none; raw_body = some bytes }, ok bytes)
    | err e ↦ (record scope { body = none }, err (PipelineError.request_body_too_large e))
  ]

  unfoldable pub read_body_bytes :
      (Body → ℕ → Result String Str)
      → RequestScope Body Extensions
      → RequestScope Body Extensions × Result PipelineError Str
  unfolding read_from
  read_body_bytes to_bytes scope = read_from to_bytes scope scope.body

  unfoldable pub raw_body_cloned : RequestScope Body Extensions → Option RawBody
  raw_body_cloned scope = raw_of scope.raw_body

module _ (map : TypeMap) {Body : Type 0} where
  pub get : RequestScope Body map.Extensions → map.Key → Option map.Value
  get scope key = or_else (map.get scope.scoped key) (map.get scope.shared key)

  unfoldable pub insert :
      RequestScope Body map.Extensions → map.Key → map.Value → RequestScope Body map.Extensions
  insert scope key value = record scope { scoped = map.insert scope.scoped key value }

  pub take :
      RequestScope Body map.Extensions
      → map.Key
      → RequestScope Body map.Extensions × Option map.Value
  take scope key = (
    record scope { scoped = map.remove scope.scoped key },
    or_else (map.get scope.scoped key) (map.get scope.shared key),
  )

  -- What is lent of a value that is there: the value, and the scope once another is written to it.
  loan :
      RequestScope Body map.Extensions
      → map.Key
      → Option map.Value
      → Option (map.Value × (map.Value → RequestScope Body map.Extensions))
  unfolding insert
  loan scope key none = none
  loan scope key (some value) = some (value, λ next. insert scope key next)

  -- `get_mut`, which lends values of the request only
  pub get_mut :
      RequestScope Body map.Extensions
      → map.Key
      → Option (map.Value × (map.Value → RequestScope Body map.Extensions))
  unfolding loan
  get_mut scope key = loan scope key (map.get scope.scoped key)
