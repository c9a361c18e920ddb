-- ===== src/Macros/Service.antt =====
-- apigate-macros/src/route.rs and lib.rs: from the attributes of a module and of its functions to the
-- table of routes. The parser gives the string literal and the arguments of an attribute, and the
-- compiler resolves the paths and types that they name; both are parameters.
pub mod Attrs
pub mod Sound
use apigate.Prelude.{
  ℕ, zero, suc, List, [], ◌∷◌, ◌++◌, Bool, true, false, Option, none, some, Result, ok, err, ◌>>=◌,
  map_err, map, Run, done, run_bind, run_then, if◌then◌else◌,
}
use apigate.Str
use apigate.Str.{Str}
use apigate.Http.{Http}
use apigate.Pipeline.{TypeMap}
use apigate.Facade.{Serde}
use apigate.Rewrite.{RewriteSpec, RewriteTemplate}
use apigate.App.{Method, RouteDef, Routes}
use apigate.Template.{RewriteTemplateError, compile_rewrite_template}
use apigate.Macros.Args
use apigate.Macros.Args.{
  Syn, ArgsError, RawArg, DataKind, nothing, multipart, json, form, RouteArgs, parse_route_args,
  ServiceArgs, parse_service_args,
}
use apigate.Macros.Codegen.{Env}
use apigate.Macros.Codegen.Phases.{PipelineFn, generate_pipeline_wrapper}

pub data MacroError : Type 0 where
  args : ArgsError → MacroError
  template : RewriteTemplateError → MacroError
  multiple_route_attributes : MacroError
  not_a_string : MacroError
  no_inline_body : MacroError

-- `segments.last()`
unfoldable pub last : List Str → Option Str
last [] = none
last (s ∷ []) = some s
last (s ∷ t ∷ segments) = last (t ∷ segments)

pub method_named : Str → Option Method
unfolding Str.eq
method_named s =
    if Str.eq s (Str.codes "get")
    then some Method.get
    else if Str.eq s (Str.codes "post")
    then some Method.post
    else if Str.eq s (Str.codes "put")
    then some Method.put
    else if Str.eq s (Str.codes "delete")
    then some Method.delete
    else if Str.eq s (Str.codes "patch")
    then some Method.patch
    else if Str.eq s (Str.codes "head")
    then some Method.head
    else if Str.eq s (Str.codes "options")
    then some Method.options
    else none

pub named_or_none : Option Str → Option Method
unfolding method_named
named_or_none none = none
named_or_none (some s) = method_named s

-- `MethodKind::from_attr`, on the segments of the attribute's path
unfoldable pub from_attr : List Str → Option Method
unfolding named_or_none last
from_attr segments = named_or_none (last segments)

unfoldable pub body_in_query : Method → Bool
body_in_query Method.get = true
body_in_query Method.head = true
body_in_query _ = false

pub compiled_spec : Result RewriteTemplateError RewriteTemplate → Result MacroError RewriteSpec
compiled_spec (err e) = err (template e)
compiled_spec (ok t) = ok (RewriteSpec.template t)

unfoldable pub build_rewrite_spec :
    (path : Str) → (to : Option Str) → Run (Result MacroError RewriteSpec)
unfolding compiled_spec Str.contains compile_rewrite_template
build_rewrite_spec path none = done (ok RewriteSpec.strip_prefix)
build_rewrite_spec path (some t) =
    if Str.contains b'{' t
    then run_bind (compile_rewrite_template path t) (λ r. done (compiled_spec r))
    else done (ok (RewriteSpec.fixed t))

-- An attribute: the segments of its path, and its arguments, with the literal that they begin with.
pub record Attribute (Tokens : Type 0) : Type 0 where
  pub segments : List Str
  pub literal : Option Str
  pub raws : List (RawArg Tokens)

pub data Item (Tokens : Type 0) : Type 0 where
  function : (ident : Str) → List (Attribute Tokens) → Item Tokens
  other : Item Tokens

pub record ItemMod (Tokens : Type 0) : Type 0 where
  pub ident : Str
  pub content : Option (List (Item Tokens))

module _ (syn : Syn) where
  pub record MatchedRouteAttr : Type 0 where
    pub idx : ℕ
    pub kind : Method
    pub args : RouteArgs syn

  -- `attr.parse_args()`
  pub parse_args : Attribute syn.Tokens → Option Str → Result MacroError (RouteArgs syn)
  unfolding parse_route_args
  parse_args attr none = err not_a_string
  parse_args attr (some path) = map_err args (parse_route_args syn path attr.raws)

  -- The rest of a turn of the loop, with the arguments parsed.
  pub found_first :
      Option MatchedRouteAttr → MatchedRouteAttr → Result MacroError (Option MatchedRouteAttr)
  found_first none matched = ok (some matched)
  found_first (some before) matched = err multiple_route_attributes

  pub match_attr :
      (idx : ℕ)
      → Attribute syn.Tokens
      → Option Method
      → Option MatchedRouteAttr
      → Result MacroError (Option MatchedRouteAttr)
  unfolding parse_args found_first
  match_attr idx attr none found = ok found
  match_attr idx attr (some kind) found = parse_args attr attr.literal >>= λ args.
      found_first found (record { idx = idx; kind = kind; args = args })

  pub scan_attrs :
      (idx : ℕ)
      → List (Attribute syn.Tokens)
      → Option MatchedRouteAttr
      → Result MacroError (Option MatchedRouteAttr)
  unfolding from_attr match_attr
  scan_attrs idx [] found = ok found
  scan_attrs idx (attr ∷ attrs) found =
      match_attr idx attr (from_attr attr.segments) found >>= λ next.
      scan_attrs (suc idx) attrs next

  unfoldable pub find_route_attr :
      List (Attribute syn.Tokens) → Result MacroError (Option MatchedRouteAttr)
  unfolding scan_attrs
  find_route_attr attrs = scan_attrs 0 attrs none

module _ (http : Http) (map_ : TypeMap) (serde : Serde) {Body Custom : Type 0}
    (env : Env http map_ serde Body Custom) (syn : Syn) (path_of : syn.ItemPath → env.ItemPath)
    (type_of : syn.Type_ → serde.Ty) where
  abbrev pub Pipeline : Type 0
  Pipeline = PipelineFn http map_ serde env

  resolve_option : {A B : Type 0} → (A → B) → Option A → Option B
  resolve_option f none = none
  resolve_option f (some a) = some (f a)

  resolve_data : DataKind syn.Type_ → DataKind serde.Ty
  resolve_data nothing = nothing
  resolve_data multipart = multipart
  resolve_data (json ty) = json (type_of ty)
  resolve_data (form ty) = form (type_of ty)

  pub route_def : MatchedRouteAttr syn → RewriteSpec → RouteDef Pipeline
  unfolding generate_pipeline_wrapper body_in_query resolve_option resolve_data
  route_def matched rewrite_spec = record {
    method = matched.kind;
    path = matched.args.path;
    rewrite = rewrite_spec;
    policy = matched.args.policy;
    pipeline =
        generate_pipeline_wrapper http map_ serde env (map path_of matched.args.before)
          (resolve_data matched.args.data_kind) (resolve_option path_of matched.args.map)
          (resolve_option type_of matched.args.path_type)
          (resolve_option type_of matched.args.query_type) (body_in_query matched.kind);
  }

  pub expand_matched :
      Option (MatchedRouteAttr syn) → Run (Result MacroError (Option (RouteDef Pipeline)))
  unfolding build_rewrite_spec route_def
  expand_matched none = done (ok none)
  expand_matched (some matched) =
      run_then (build_rewrite_spec matched.args.path matched.args.to)
        λ rewrite_spec. done (ok (some (route_def matched rewrite_spec)))

  unfoldable pub expand_route_from_fn :
      List (Attribute syn.Tokens) → Run (Result MacroError (Option (RouteDef Pipeline)))
  unfolding find_route_attr expand_matched
  expand_route_from_fn attrs = run_then (done (find_route_attr syn attrs)) expand_matched

  pub push_some : Option (RouteDef Pipeline) → List (RouteDef Pipeline) → List (RouteDef Pipeline)
  push_some none route_defs = route_defs
  push_some (some extracted) route_defs = extracted ∷ route_defs

  -- The loop over the items of the module.
  pub expand_items : List (Item syn.Tokens) → Run (Result MacroError (List (RouteDef Pipeline)))
  unfolding expand_route_from_fn push_some
  expand_items [] = done (ok [])
  expand_items (other ∷ items) = expand_items items
  expand_items (function ident attrs ∷ items) = run_then (expand_route_from_fn attrs) λ extracted.
      run_then (expand_items items) λ route_defs. done (ok (push_some extracted route_defs))

  or_literal : Option Str → Str → Str
  or_literal none s = s
  or_literal (some s) t = s

  pub expand_content :
      ServiceArgs
      → Str
      → Option (List (Item syn.Tokens))
      → Run (Result MacroError (Routes Pipeline))
  unfolding expand_items or_literal
  expand_content sargs ident none = done (err no_inline_body)
  expand_content sargs ident (some items) = run_then (expand_items items) λ route_defs. done (
      ok (record {
        service = or_literal sargs.name ident;
        prefix = or_literal sargs.prefix [];
        policy = sargs.policy;
        routes = route_defs;
      }))

  unfoldable pub expand_service :
      List (Str × syn.Tokens) → ItemMod syn.Tokens → Run (Result MacroError (Routes Pipeline))
  unfolding parse_service_args expand_content
  expand_service raws module_ =
      run_then (done (map_err args (parse_service_args syn raws)))
        λ sargs. expand_content sargs module_.ident module_.content
