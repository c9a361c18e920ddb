-- ===== src/Tests/Generated.antt =====
-- Generated pipelines, on the small instance of `http`.
use apigate.Prelude.{
  ℕ, ◌≡◌, refl, [], ◌∷◌, String, false, Option, none, some, Result, ok, err, ◌==◌, length, leb,
  if◌then◌else◌,
}
use apigate.Str.{Str, codes}
use apigate.Http.{Response}
use apigate.Error.{ApigateError, PipelineError, of_pipeline}
use apigate.Rewrite.{Rewrite}
use apigate.Policy.{new}
use apigate.Dispatch.{Inner, Meta, run_pipeline}
use apigate.Facade.{parse_json, Serde, Format, Output, unit, value, Source}
use apigate.Macros.Args.{nothing, json}
use apigate.Macros.Service.{ItemMod, Item, expand_service}
use apigate.Macros.Service.Sound.{Ends, IsSoundRoute, expand_service-IsSound}
use apigate.Macros.Codegen.{Env, Input, Pipe, path_phase, query_phase}
use apigate.Macros.Codegen.Phases.{
  as_pipeline, generated, generate_pipeline_wrapper, build_body_phase, call_map,
}
use apigate.Macros.Codegen.Phases.Empty.{run_pipeline-none}
use apigate.Macros.Codegen.Phases.Outcomes.{
  none_left, generated-hook_fails, map_phase, map_phase-replace, with_text, replaced_header,
}
use apigate.Macros.Codegen.Phases.Forwards.{Forwards, build_body_phase-Forwards}
use apigate.Tests.Instance.{Fields, small_http, values}
use apigate.Tests.Pipelines.{small_map, scope, ctx, up_to}
use apigate.Tests.Gateway.{hash, base}
use apigate.Prelude.{All}
use apigate.Tests.Expansions.{texts, attrs}

-- A value is the length of its text, and prints as one byte.
abbrev by_length : ℕ → Str → Result String ℕ
by_length ty s = if leb (length s) 4 then ok (length s) else err "too long"

abbrev pub small_serde : Serde
small_serde = record {
  Ty = ℕ;
  Value = ℕ;
  json = by_length;
  track_json = by_length;
  form = by_length;
  track_form = by_length;
  query = by_length;
  track_query = by_length;
  json_to_string = λ v. ok (v ∷ []);
  form_to_string = λ v. ok (v ∷ []);
  query_to_string = λ v. ok (v ∷ []);
}

abbrev pub Answer : Type 0
Answer = Response Fields Str

abbrev Small : Type 0
Small = Pipe small_http Str (ℕ → Option ℕ)

-- Hook 0 succeeds, and every other fails.
abbrev small_hook : ℕ → Small → Small × Result {0, 0} (ApigateError Answer) Unit
small_hook h s =
    if h == 0 then (s, ok tt) else (s, err (of_pipeline PipelineError.expected_form_url_encoded))

abbrev small_map_fn :
    (f : Format)
    → ℕ
    → Input small_serde
    → Small
    → Small × Result (ApigateError Answer) (Output (Source small_serde Str Str (λ s. s) f))
small_map_fn Format.json p input s = (s, ok (value 7))
small_map_fn Format.form p input s = (s, ok (value 7))
small_map_fn Format.raw p input s = (s, ok unit)

abbrev pub env : Env small_http small_map small_serde Str Answer
env = record {
  ItemPath = ℕ;
  to_bytes = up_to;
  body_of = λ s. s;
  IntoBody = Str;
  into = λ s. s;
  key = λ ty. ty;
  kept = λ v. v;
  hook = small_hook;
  user_map = small_map_fn;
  from_request_parts = λ ty c. (c, some 1);
  from_static = λ s. s;
  default_uri = ctx.parts.uri;
  uri_error = "bad uri";
}

abbrev here : Small
here = record { ctx = ctx; scope = scope }

abbrev pub small_inner : Inner small_http hash Str (ℕ → Option ℕ)
small_inner = record {
  state = λ k. none;
  empty = λ k. none;
  map_body_limit = 100;
  error_renderer = λ e. record { status = 500; headers = []; body = [] };
  has_observer = false;
}

abbrev small_meta : Meta small_http hash Str (ℕ → Option ℕ)
small_meta = record {
  service = codes "shop";
  route_path = codes "/items";
  prefix = codes "/shop";
  rewrite = Rewrite.strip_prefix;
  pool = record { backends = record { base = base } ∷ [] };
  policy = new small_http hash;
  pipeline = none;
}

run_pipeline-none_example :
    run_pipeline small_http hash Str
      (ℕ → Option ℕ)
      small_inner
      small_meta
      none
      ctx.parts
      (codes "{}")
    ≡ run_pipeline small_http hash Str
        (ℕ → Option ℕ)
        small_inner
        small_meta
        (some (
          as_pipeline small_http small_map small_serde env
            (generated small_http small_map small_serde env [] nothing none none none false)))
        ctx.parts
        (codes "{}")
unfolding generate_pipeline_wrapper
run_pipeline-none_example =
    run_pipeline-none small_http small_map small_serde hash env [] nothing none none none false
      small_inner small_meta ctx.parts (codes "{}") refl

generated-hook_fails_example :
    generated small_http small_map small_serde env (1 ∷ 0 ∷ []) (json 5) none none none false here
    ≡ (here, err (of_pipeline PipelineError.expected_form_url_encoded))
unfolding path_phase query_phase
generated-hook_fails_example =
    generated-hook_fails small_http small_map small_serde env [] (0 ∷ []) 1 (json 5) none none none
      false here here here here here (of_pipeline PipelineError.expected_form_url_encoded) refl refl
      (none_left here) refl

map_phase-replace_example :
    ((map_phase small_http small_map small_serde env Format.json 5 3 here).1 ≡ ok (7 ∷ []))
    × ((name : Str)
        → values
            (map_phase small_http small_map small_serde env Format.json 5 3
              here).0.ctx.parts.headers
            name
          ≡ replaced_header small_http small_map small_serde env
              (some (codes "application/json"))
              name
              (values ctx.parts.headers name))
unfolding call_map parse_json
map_phase-replace_example =
    map_phase-replace small_http small_map small_serde env Format.json 5 3 here
      (with_text small_http small_map small_serde env here (codes "{}")) (codes "{}") (codes "{}")
      (Input.parsed 2) (7 ∷ []) refl refl (2, refl, refl) refl

build_body_phase-Forwards_example :
    ((build_body_phase small_http small_map small_serde env (json 5) none false here).0.ctx ≡ ctx)
    × ((b : Str)
        → (build_body_phase small_http small_map small_serde env (json 5) none false here).1 ≡ ok b
        → Forwards small_http small_map small_serde env here b)
build_body_phase-Forwards_example =
    build_body_phase-Forwards small_http small_map small_serde env (json 5) false here

-- `mod shop { #[apigate::get("/items", query = Page)] async fn list() {} }`
abbrev shop : ItemMod Str
shop = record {
  ident = codes "shop";
  content = some (Item.function (codes "list") attrs ∷ Item.other ∷ []);
}

expand_service-IsSound_example :
    Ends
      (λ routes.
        All (IsSoundRoute small_http small_map small_serde env texts length length) routes.routes)
      (expand_service small_http small_map small_serde env texts length length
        ((codes "prefix", codes "/shop") ∷ [])
        shop)
expand_service-IsSound_example =
    expand_service-IsSound small_http small_map small_serde env texts length length
      ((codes "prefix", codes "/shop") ∷ []) shop
