-- ===== src/Tests/Instance.antt =====
-- A small model of the crate `http`: URIs are their parts, and headers are a list of pairs.
use apigate.Prelude.{
  ℕ, ◌+◌, ◌≡◌, List, [], ◌∷◌, Option, none, some, if◌then◌else◌, take, drop, arith,
}
use apigate.Str
use apigate.Str.{Str, codes}
use apigate.Str.Laws.{eq_iff}
use apigate.Http.{Http, UriParts}

abbrev pub Address : Type 0
Address = UriParts Str Str Str

abbrev pub Fields : Type 0
Fields = List (Str × Str)

abbrev text_or_root : Option Str → Str
text_or_root none = b'/' ∷ []
text_or_root (some s) = s

abbrev pub before : Str → Option ℕ → Str
before s none = s
before s (some i) = take i s

abbrev pub behind : Str → Option ℕ → Option Str
behind s none = none
behind s (some i) = some (drop (i + 1) s)

unfoldable pub path_of : Address → Str
unfolding Str.find
path_of u = before (text_or_root u.path_and_query) (Str.find b'?' (text_or_root u.path_and_query))

unfoldable pub query_of : Address → Option Str
unfolding Str.find
query_of u = behind (text_or_root u.path_and_query) (Str.find b'?' (text_or_root u.path_and_query))

unfoldable pub parse_target : Str → Option Str
unfolding Str.starts_with
parse_target s = if Str.starts_with s b'/' then some s else none

unfoldable pub parse_address : Str → Option Address
parse_address s =
    some (record {
      scheme = some (codes "http");
      authority = some s;
      path_and_query = some (b'/' ∷ []);
    })

unfoldable pub values : Fields → Str → List Str
unfolding Str.eq
values [] m = []
values ((n, v) ∷ fields) m = let rest = values fields m in if Str.eq n m then v ∷ rest else rest

pub without : Fields → Str → Fields
unfolding Str.eq
without [] m = []
without ((n, v) ∷ fields) m =
    let rest = without fields m in if Str.eq n m then rest else (n, v) ∷ rest

pub values-without :
    (fields : Fields) (n m : Str)
    → values (without fields n) m ≡ (if Str.eq n m then [] else values fields m)
unfolding values without
values-without [] n m = ground arith
values-without ((k, v) ∷ fields) n m =
    ground (arith, values-without fields n m, eq_iff k n, eq_iff k m, eq_iff n m)

pub values-insert :
    (fields : Fields) (n m v : Str)
    → values ((n, v) ∷ without fields n) m ≡ (if Str.eq n m then v ∷ [] else values fields m)
unfolding values
values-insert fields n m v = ground (arith, values-without fields n m)

abbrev pub small_http : Http
small_http = record {
  Scheme = Str;
  Authority = Str;
  PathAndQuery = Str;
  Uri = Address;
  HeaderValue = Str;
  Headers = Fields;
  parse_path_and_query = parse_target;
  parse_uri = parse_address;
  scheme_text = λ s. s;
  authority_text = λ s. s;
  header_value = λ s. some s;
  into_parts = λ u. u;
  from_parts = λ p. some p;
  path = path_of;
  query = query_of;
  to_str = λ v. some v;
  header_name = λ s. some s;
  get_all = values;
  insert = λ h n v. (n, v) ∷ without h n;
  remove = without;
  into_parts-from_parts = λ p u e. cc;
  get_all-remove = values-without;
  get_all-insert = values-insert;
}
