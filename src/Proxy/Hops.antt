-- ===== src/Proxy/Hops.antt =====
-- apigate-core/src/proxy.rs, `strip_hop_headers`: the removal of hop-by-hop headers, first those
-- that the `Connection` header lists and then the standard ones.
pub mod Exact
use apigate.Prelude.{
  List, [], ◌∷◌, ◌++◌, Bool, ◌||◌, Option, none, some, ◌≡◌, refl, arith, map, if◌then◌else◌,
}
use apigate.Str
use apigate.Str.{Str, codes}
use apigate.Http.{Http}

abbrev pub connection : Str
connection = codes "connection"

-- The names that are removed whatever `Connection` lists, after it.
abbrev pub standard_hops : List Str
standard_hops =
    codes "proxy-authenticate"
    ∷ codes "proxy-authorization"
    ∷ codes "te"
    ∷ codes "trailer"
    ∷ codes "transfer-encoding"
    ∷ codes "upgrade"
    ∷ codes "keep-alive"
    ∷ codes "proxy-connection"
    ∷ []

module _ (http : Http) where
  -- The names among the tokens; a token that is no header name is skipped.
  pub names_of : List Str → List Str
  names_of [] = []
  names_of (token ∷ tokens) = elim (http.header_name token) [
    | none ↦ names_of tokens
    | some name ↦ name ∷ names_of tokens
  ]

  pub value_tokens : Option Str → List Str
  unfolding names_of Str.non_empty Str.split Str.trim
  value_tokens none = []
  value_tokens (some s) = names_of (Str.non_empty (map Str.trim (Str.split b',' s)))

  -- The loop over the values of `Connection`.
  pub connection_tokens : List http.HeaderValue → List Str
  unfolding value_tokens
  connection_tokens [] = []
  connection_tokens (value ∷ values) = value_tokens (http.to_str value) ++ connection_tokens values

  remove_all : http.Headers → List Str → http.Headers
  remove_all headers [] = headers
  remove_all headers (name ∷ names) = remove_all (http.remove headers name) names

  unfoldable pub strip_hop_headers : http.Headers → http.Headers
  unfolding connection_tokens remove_all
  strip_hop_headers headers =
      let tokens = connection_tokens (http.get_all headers connection) in
      remove_all (remove_all (http.remove headers connection) tokens) standard_hops

  -- A name that must not pass: `Connection`, what it lists, or a standard hop-by-hop header.
  abbrev pub is_hop : http.Headers → Str → Bool
  is_hop headers name =
      Str.eq connection name
      || (Str.mem name (connection_tokens (http.get_all headers connection))
          || Str.mem name standard_hops)

  get_all-remove_all :
      (headers : http.Headers) (names : List Str) (m : Str)
      → http.get_all (remove_all headers names) m
        ≡ (if Str.mem m names then [] else http.get_all headers m)
  unfolding remove_all Str.mem
  get_all-remove_all headers [] m = refl
  get_all-remove_all headers (n ∷ names) m =
      ground
        (arith, get_all-remove_all (http.remove headers n) names m, http.get_all-remove headers n m)

  -- Stripping removes every value of exactly the hop-by-hop headers, and keeps the values of every
  -- other header.
  pub get_all-strip_hop_headers :
      (headers : http.Headers) (m : Str)
      → http.get_all (strip_hop_headers headers) m
        ≡ (if is_hop headers m then [] else http.get_all headers m)
  unfolding strip_hop_headers
  get_all-strip_hop_headers headers m =
      let tokens = connection_tokens (http.get_all headers connection) in
      ground (
        arith,
        get_all-remove_all (remove_all (http.remove headers connection) tokens) standard_hops m,
        get_all-remove_all (http.remove headers connection) tokens m,
        http.get_all-remove headers connection m,
      )
