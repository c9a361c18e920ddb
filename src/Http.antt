-- ===== src/Http.antt =====
-- What the gateway uses of the crate `http`, which is not part of the repository: a parameter, with
-- the documented behaviour that the proofs rely on. Header names are texts in lower case, as
-- `HeaderName` keeps them.
use apigate.Prelude.{ℕ, List, [], ◌∷◌, Option, none, some, ◌≡◌, if◌then◌else◌}
use apigate.Str
use apigate.Str.{Str}

-- `http::uri::Parts`
pub record UriParts (Scheme Authority PathAndQuery : Type 0) : Type 0 where
  pub scheme : Option Scheme
  pub authority : Option Authority
  pub path_and_query : Option PathAndQuery

pub record Http : Type 1 where
  pub Scheme : Type 0
  pub Authority : Type 0
  pub PathAndQuery : Type 0
  pub Uri : Type 0
  pub HeaderValue : Type 0
  pub Headers : Type 0
  -- `PathAndQuery::try_from`, `from_maybe_shared`
  pub parse_path_and_query : Str → Option PathAndQuery
  -- `s.parse::<Uri>()`, and the texts of a scheme and of an authority
  pub parse_uri : Str → Option Uri
  pub scheme_text : Scheme → Str
  pub authority_text : Authority → Str
  -- `HeaderValue::from_str`
  pub header_value : Str → Option HeaderValue
  pub into_parts : Uri → UriParts Scheme Authority PathAndQuery
  pub from_parts : UriParts Scheme Authority PathAndQuery → Option Uri
  -- `uri.path()`, `uri.query()`
  pub path : Uri → Str
  pub query : Uri → Option Str
  -- `value.to_str().ok()`, `HeaderName::from_bytes(token).ok()`
  pub to_str : HeaderValue → Option Str
  pub header_name : Str → Option Str
  pub get_all : Headers → Str → List HeaderValue
  pub insert : Headers → Str → HeaderValue → Headers
  pub remove : Headers → Str → Headers
  -- A URI made from parts has those parts.
  pub into_parts-from_parts :
      (p : UriParts Scheme Authority PathAndQuery) (u : Uri)
      → from_parts p ≡ some u
      → into_parts u ≡ p
  -- `remove` takes away all values of a name, and `insert` replaces them by one.
  pub get_all-remove :
      (h : Headers) (n m : Str) → get_all (remove h n) m ≡ (if Str.eq n m then [] else get_all h m)
  pub get_all-insert :
      (h : Headers) (n m : Str) (v : HeaderValue)
      → get_all (insert h n v) m ≡ (if Str.eq n m then v ∷ [] else get_all h m)

-- `headers.get(name)` is the first value of the name.
abbrev pub first {ℓ} : {A : Type ℓ} → List A → Option A
first [] = none
first (x ∷ xs) = some x

-- `http::request::Parts`, less the version and the extensions, which the gateway passes through.
pub record Parts (Uri Headers : Type 0) : Type 0 where
  pub method : Str
  pub uri : Uri
  pub headers : Headers

pub record Response (Headers Body : Type 0) : Type 0 where
  pub status : ℕ
  pub headers : Headers
  pub body : Body
