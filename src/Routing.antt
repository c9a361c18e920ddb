-- ===== src/Routing.antt =====
-- apigate-core/src/routing: the context of a routing decision, the trait `RouteStrategy`, and the
-- three strategies.
pub mod PathSticky
use apigate.Prelude.{List, [], ◌∷◌, Bool, true, false, Option, none, some, if◌then◌else◌}
use mathlib.Core.Option
use apigate.Str
use apigate.Str.{Str}
use apigate.Http.{Http, first}
use apigate.Backend.{BackendPool}
use apigate.Balancing.{AffinityKey, CandidateSet}

pub record RoutingDecision : Type 0 where
  pub affinity : Option AffinityKey
  pub candidates : CandidateSet

abbrev pub borrowed : Str → AffinityKey
borrowed value = record { text = value }

-- `strip_prefix('{').and_then(|s| s.strip_suffix('}'))`
pub unbraced : Option Str → Option Str
unfolding Str.strip_suffix
unbraced none = none
unbraced (some s) = Str.strip_suffix s b'}'

-- `Some(name)` with `name == param`
pub is_name : Option Str → Str → Bool
unfolding Str.eq
is_name none param = false
is_name (some name) param = Str.eq name param

-- The loop of `extract_param` over the template's segments, beside those of the path.
pub extract_from : List Str → List Str → Str → Option Str
unfolding unbraced is_name Str.strip_prefix
extract_from [] path_segs param = none
extract_from (tmpl ∷ tmpls) [] param = none
extract_from (tmpl ∷ tmpls) (value ∷ path_segs) param =
    let later = extract_from tmpls path_segs param in
    if is_name (unbraced (Str.strip_prefix tmpl (b'{' ∷ []))) param then some value else later

-- `strip_prefix(prefix).unwrap_or(uri_path)`
unprefixed : Str → Option Str → Str
unprefixed uri_path none = uri_path
unprefixed uri_path (some rest) = rest

unfoldable pub extract_param : Str → Str → Str → Str → Option Str
unfolding extract_from unprefixed Str.split Str.non_empty
extract_param route_path prefix uri_path param =
    let stripped = unprefixed uri_path (Str.strip_prefix uri_path prefix) in
    extract_from (Str.non_empty (Str.split b'/' route_path))
      (Str.non_empty (Str.split b'/' stripped)) param

module _ (http : Http) where
  pub record RouteCtx : Type 0 where
    pub service : Str
    pub prefix : Str
    pub route_path : Str
    pub method : Str
    pub uri : http.Uri
    pub headers : http.Headers

  -- The trait; a strategy is stateless for the gateway.
  pub record RouteStrategy : Type 0 where
    pub route : RouteCtx → BackendPool http → RoutingDecision

  unfoldable pub no_route_key : RouteStrategy
  no_route_key = record {
    route = λ ctx pool. record { affinity = none; candidates = CandidateSet.all };
  }

  -- The text of the first value of a header, if it has one.
  unfoldable pub header_text : Option http.HeaderValue → Option Str
  header_text none = none
  header_text (some value) = http.to_str value

  unfoldable pub header_sticky : Str → RouteStrategy
  unfolding header_text
  header_sticky header = record {
    route = λ ctx pool. record {
      affinity = Option.map borrowed (header_text (first (http.get_all ctx.headers header)));
      candidates = CandidateSet.all;
    };
  }

  unfoldable pub path_sticky : Str → RouteStrategy
  unfolding extract_param
  path_sticky param = record {
    route = λ ctx pool. record {
      affinity =
          Option.map borrowed (extract_param ctx.route_path ctx.prefix (http.path ctx.uri) param);
      candidates = CandidateSet.all;
    };
  }
