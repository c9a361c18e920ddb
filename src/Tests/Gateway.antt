-- ===== src/Tests/Gateway.antt =====
-- The proxy and the dispatcher.
use apigate.Prelude.{
  ℕ, ◌≡◌, refl, List, [], ◌∷◌, true, false, none, some, Result, ok, err, done, arith, ◌⊎◌,
}
use apigate.Str
use apigate.Str.{Str, codes}
use apigate.Http.{Parts, Response}
use apigate.Backend.{Backend, BackendPool, BaseUri, pool_get}
use apigate.Balancing.{candidate_len, candidate_index, ProxyErrorKind}
use apigate.Balancing.RoundRobin
use apigate.Balancing.ConsistentHash
use apigate.Rewrite.{Rewrite, RewriteTemplate}
use apigate.Template.{compile_rewrite_template}
use apigate.Template.Pattern.{print_route, print_target}
use apigate.Routing.{no_route_key, header_text, extract_param}
use apigate.Policy.{new, sticky_by_header, sticky_by_path}
use apigate.Proxy.Paths.{push_query}
use apigate.Proxy.Hops.{strip_hop_headers}
use apigate.Proxy.Hops.Exact.{Stripped, strip_hop_headers-Stripped}
use apigate.Proxy.Forward.{outgoing, rewrite_uri, proxy_request}
use apigate.Proxy.Forward.Rewriting.{IsAt, rewrite_uri-fill}
use apigate.Proxy.Forward.Sending.{IsOutgoing, IsSent, Answers, get_all-outgoing, proxy_request_lem}
use apigate.Dispatch.{Inner, Upstream, Meta, balance_ctx, proxy_handler, run_pipeline_if_needed}
use apigate.Dispatch.Selection.{
  choice, HashState, with_policy, select_backend_header, select_backend_path,
}
use apigate.Dispatch.Traces.{IsTrace, observed, proxy_handler-IsTrace}
use apigate.Dispatch.Reports.{Way, proxy_handler-Way, Way-answered}
use apigate.Observability.{RuntimeEventKind}
use apigate.Tests.Instance.{Address, Fields, small_http, path_of, query_of, parse_target, values}
use apigate.Tests.Texts.{items, target, forty_two, items-IsRoute, target-IsTarget, items-IsFilled}

abbrev pub hash : Str → ℕ
hash s = 77

abbrev pub base : BaseUri small_http
base = record {
  scheme = codes "http";
  authority = codes "10.0.0.1";
  prefix = codes "http://10.0.0.1";
  host_header = codes "10.0.0.1";
}

abbrev at_items : Address
at_items = record {
  scheme = none;
  authority = none;
  path_and_query = some (codes "/shop/items/42?a=b");
}

abbrev fields : Fields
fields =
    (codes "connection", codes "close, x-hop")
    ∷ (codes "x-hop", codes "1")
    ∷ (codes "x-user", codes "user-7")
    ∷ []

abbrev request : Parts Address Fields
request = record { method = codes "GET"; uri = at_items; headers = fields }

abbrev answer : Response Fields ℕ
answer = record { status = 200; headers = (codes "keep-alive", codes "5") ∷ []; body = 1 }

abbrev inner : Inner small_http hash ℕ ℕ
inner = record {
  state = 0;
  empty = 0;
  map_body_limit = 100;
  error_renderer = λ e. record { status = 500; headers = []; body = 0 };
  has_observer = true;
}

abbrev pool : BackendPool small_http
pool = record { backends = record { base = base } ∷ record { base = base } ∷ [] }

abbrev meta : Meta small_http hash ℕ ℕ
meta = record {
  service = codes "shop";
  route_path = codes "/items/{id}";
  prefix = codes "/shop";
  rewrite = Rewrite.strip_prefix;
  pool = pool;
  policy = new small_http hash;
  pipeline = none;
}

strip_hop_headers-Stripped_example :
    Stripped small_http fields (strip_hop_headers small_http fields) (codes "x-hop")
strip_hop_headers-Stripped_example = strip_hop_headers-Stripped small_http fields (codes "x-hop")

get_all-outgoing_example :
    IsOutgoing small_http base fields
      (outgoing small_http base at_items request).headers
      (codes "x-user")
get_all-outgoing_example = get_all-outgoing small_http base at_items request (codes "x-user")

abbrev sent_uri : Address
sent_uri = record {
  scheme = some (codes "http");
  authority = some (codes "10.0.0.1");
  path_and_query = some (codes "/v1/42/detail?a=b");
}

rewrite_uri-fill_example :
    (tpl : RewriteTemplate) × (compile_rewrite_template (print_route items) (print_target target)
      ≡ done (ok tpl))
    × (rewrite_uri small_http base (codes "/shop") (Rewrite.template tpl) at_items
        ≡ done (ok (sent_uri)))
    × (sent_uri.scheme ≡ some (codes "http"))
    × (sent_uri.authority ≡ some (codes "10.0.0.1"))
    × (sent_uri.path_and_query ≡ some (codes "/v1/42/detail?a=b"))
unfolding path_of query_of parse_target Str.find Str.starts_with push_query
rewrite_uri-fill_example =
    rewrite_uri-fill small_http base at_items sent_uri (codes "/v1/42/detail?a=b") (codes "/shop")
      items target forty_two items-IsRoute target-IsTarget items-IsFilled refl refl refl

proxy_request_lem_example :
    (r : Result ProxyErrorKind (Response Fields ℕ)) × (proxy_request small_http
        (record { base = base })
        (λ p b. some answer)
        (codes "/shop")
        Rewrite.strip_prefix
        request
        1
      ≡ done r)
    × (((rewrite_uri small_http base (codes "/shop") Rewrite.strip_prefix at_items
            ≡ done (err ProxyErrorKind.invalid_upstream_uri))
          × (r ≡ err ProxyErrorKind.invalid_upstream_uri))
        ⊎ ((uri : Address) × (rewrite_uri small_http base
                (codes "/shop")
                Rewrite.strip_prefix
                at_items
              ≡ done (ok uri))
            × IsAt small_http base uri
            × IsSent small_http base request uri (outgoing small_http base uri request)
            × Answers small_http (λ p b. some answer) (outgoing small_http base uri request) 1 r))
proxy_request_lem_example =
    proxy_request_lem small_http (λ p b. some answer) (record { base = base }) (codes "/shop")
      Rewrite.strip_prefix request 1 tt

abbrev upstream : Upstream small_http hash ℕ ℕ (RoundRobin.balancer).State
upstream = record {
  client = λ p b. some answer;
  is_late = λ p b. false;
  elapsed = 12;
  meanwhile = λ s. s;
}

abbrev turn_state : (RoundRobin.balancer).State
unfolding RoundRobin.balancer
turn_state = record { next = 5 }

picked :
    (meta.policy.balancer.pick
      (balance_ctx small_http hash ℕ ℕ meta
        (run_pipeline_if_needed small_http hash ℕ ℕ inner meta request 1).0)
      turn_state).0
    ≡ done (some 1)
unfolding RoundRobin.balancer turn_state balance_ctx no_route_key RoundRobin.pick candidate_len
    candidate_index
picked = refl

proxy_handler-Way_here : Way small_http hash ℕ ℕ inner meta upstream request 1 turn_state (some 1)
proxy_handler-Way_here =
    proxy_handler-Way small_http hash ℕ ℕ inner meta upstream request 1 turn_state (some 1) tt
      picked

proxy_handler-Way_example :
    Way small_http hash ℕ ℕ inner meta upstream request 1 turn_state (some 1)
proxy_handler-Way_example =
    proxy_handler-Way small_http hash ℕ ℕ inner meta upstream request 1 turn_state (some 1) tt
      picked

proxy_handler-IsTrace_example :
    (kinds : List (RuntimeEventKind Address)) × IsTrace Address kinds
    × ((proxy_handler small_http hash ℕ ℕ inner meta upstream request 1 turn_state).events
        ≡ observed small_http hash ℕ ℕ inner meta kinds)
proxy_handler-IsTrace_example =
    let answered =
      Way-answered small_http hash ℕ ℕ inner meta upstream request 1 turn_state (some 1)
        proxy_handler-Way_here in
    proxy_handler-IsTrace small_http hash ℕ ℕ inner meta upstream request 1 turn_state answered.0
      answered.1

abbrev no_turns : HashState small_http hash ℕ ℕ
unfolding ConsistentHash.balancer
no_turns = record { offset = 0 }

abbrev later : HashState small_http hash ℕ ℕ
unfolding ConsistentHash.balancer
later = record { offset = 8 }

select_backend_header_example :
    (i : ℕ) × (b : Backend small_http) × (pool_get small_http pool i ≡ some b)
    × (choice small_http hash ℕ ℕ
          (with_policy small_http hash ℕ ℕ meta (sticky_by_header small_http hash (codes "x-user")))
          request
          no_turns
        ≡ done (ok (i, b)))
    × (choice small_http hash ℕ ℕ
          (with_policy small_http hash ℕ ℕ meta (sticky_by_header small_http hash (codes "x-user")))
          request
          later
        ≡ done (ok (i, b)))
unfolding header_text values Str.eq
select_backend_header_example =
    select_backend_header small_http hash ℕ ℕ meta (codes "x-user") (codes "user-7") request request
      no_turns later refl refl (omega arith) (omega arith)

select_backend_path_example :
    (i : ℕ) × (b : Backend small_http) × (pool_get small_http pool i ≡ some b)
    × (choice small_http hash ℕ ℕ
          (with_policy small_http hash ℕ ℕ meta (sticky_by_path small_http hash (codes "id")))
          request
          no_turns
        ≡ done (ok (i, b)))
    × (choice small_http hash ℕ ℕ
          (with_policy small_http hash ℕ ℕ meta (sticky_by_path small_http hash (codes "id")))
          request
          later
        ≡ done (ok (i, b)))
unfolding extract_param path_of
select_backend_path_example =
    select_backend_path small_http hash ℕ ℕ meta (codes "id") (codes "42") request request no_turns
      later refl refl (omega arith) (omega arith)
