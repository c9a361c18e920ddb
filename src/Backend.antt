-- ===== src/Backend.antt =====
-- apigate-core/src/backend.rs, and `BaseUriParseError` of apigate-core/src/error/build.rs.
use apigate.Prelude.{
  ℕ, List, ◌++◌, Bool, Option, Result, ok, ◌>>=◌, ok_or, map, length, get_elem?, is_empty,
}
use apigate.Str.{Str, codes}
use apigate.Http.{Http}

-- The errors of the parsers of `http` that these carry as their source are left out.
pub data BaseUriParseError : Type 0 where
  invalid_uri : (input : Str) → BaseUriParseError
  missing_scheme : (input : Str) → BaseUriParseError
  missing_authority : (input : Str) → BaseUriParseError
  invalid_host_header : (authority : Str) → BaseUriParseError

module _ (http : Http) where
  pub record BaseUri : Type 0 where
    pub scheme : http.Scheme
    pub authority : http.Authority
    pub prefix : Str
    pub host_header : http.HeaderValue

  unfoldable pub parse : Str → Result BaseUriParseError BaseUri
  parse s = do
    uri ← ok_or (http.parse_uri s) (invalid_uri s)
    let parts = http.into_parts uri
    scheme ← ok_or parts.scheme (missing_scheme s)
    authority ← ok_or parts.authority (missing_authority s)
    let prefix = http.scheme_text scheme ++ (codes "://" ++ http.authority_text authority)
    host_header ←
        ok_or (http.header_value (http.authority_text authority))
          (invalid_host_header (http.authority_text authority))
    ok (record {
      scheme = scheme;
      authority = authority;
      prefix = prefix;
      host_header = host_header;
    })

  pub record Backend : Type 0 where
    pub base : BaseUri

  unfoldable uri_prefix : Backend → Str
  uri_prefix backend = backend.base.prefix

  pub record BackendPool : Type 0 where
    pub backends : List Backend

  new_backend : BaseUri → Backend
  new_backend base = record { base = base }

  unfoldable pub new_pool : List BaseUri → BackendPool
  unfolding new_backend
  new_pool bases = record { backends = map new_backend bases }

  abbrev pub pool_len : BackendPool → ℕ
  pool_len pool = length pool.backends

  unfoldable pool_is_empty : BackendPool → Bool
  pool_is_empty pool = is_empty pool.backends

  abbrev pub pool_get : BackendPool → ℕ → Option Backend
  pool_get pool index = get_elem? pool.backends index
