-- ===== src/Tests/Expansions.antt =====
-- The macros: parameters, arguments, attributes and services.
use apigate.Prelude.{◌≡◌, refl, List, [], ◌∷◌, true, false, none, some, ok, is_ok}
use apigate.Str.{Str, codes}
use apigate.Macros.Expand.{
  PathArguments, Segment, Ty, SpecialPath, SpecialTypePaths, ParamSource, ParamPlan, ExpansionMode,
}
use apigate.Macros.Expand.Fns.{
  ItemFn, FnArg, Expanded, Binding, validate_plans, build_bindings, expand_fn_params,
}
use apigate.Macros.Expand.Fns.Borrows.{borrow_check, validate_plans-borrow_check}
use apigate.Macros.Expand.Fns.Wrapper.{IsWrapper, expand_fn_params-IsWrapper}
use apigate.Macros.Args.{
  Syn, RawArg, bare, assigned, RouteArg, RouteArgsBuilder, no_args, parse_loop, parse_route_arg,
  parse_route_args,
}
use apigate.Macros.Args.Slots.{Slot, held, given, distinct, parse_route_args-distinct}
use apigate.Macros.Service.{Attribute, find_route_attr}
use apigate.Macros.Service.Attrs.{choose, route_attrs, find_route_attr-choose}

abbrev segment : Str → Segment
segment s = record { ident = s; arguments = PathArguments.bare }

abbrev special_path : Str → SpecialPath
special_path s = record { before = segment (codes "apigate") ∷ []; last = segment s }

abbrev special : SpecialTypePaths
special = record {
  ctx = special_path (codes "PartsCtx");
  scope = special_path (codes "RequestScope");
  raw_body = special_path (codes "RawBody");
}

abbrev named : Str → Ty
named s = Ty.path (record { has_qself = false; leading_colon = false; segments = segment s ∷ [] })

-- `user: &User, session: &mut Session`
abbrev two_borrows : List ParamPlan
two_borrows =
    record {
      pat = codes "user";
      ty = Ty.reference false (named (codes "User"));
      source = ParamSource.scope_ref (named (codes "User"));
    }
    ∷ record {
      pat = codes "session";
      ty = Ty.reference true (named (codes "Session"));
      source = ParamSource.scope_mut (named (codes "Session"));
    }
    ∷ []

two_borrows_refused : is_ok (validate_plans two_borrows) ≡ false
unfolding validate_plans
two_borrows_refused = refl

validate_plans-borrow_check_example :
    is_ok (validate_plans two_borrows) ≡ borrow_check (build_bindings two_borrows)
validate_plans-borrow_check_example = validate_plans-borrow_check two_borrows

-- `async fn remap(input: Item, ctx: &mut PartsCtx) -> MapResult<Out>`
abbrev remap : ItemFn
remap = record {
  is_async = true;
  inputs =
      FnArg.typed (codes "input") (named (codes "Item"))
      ∷ FnArg.typed (codes "ctx") (Ty.reference true (named (codes "PartsCtx")))
      ∷ [];
  output = some (named (codes "MapResult"));
  stmts = codes "Ok(input)" ∷ [];
}

abbrev wrapper : Expanded
wrapper = record {
  input = some (FnArg.typed (codes "input") (named (codes "Item")));
  names_ctx = true;
  names_scope = false;
  bindings = Binding.let_ctx (codes "ctx") (Ty.reference true (named (codes "PartsCtx"))) ∷ [];
  body = codes "Ok(input)" ∷ [];
  finishes = some (named (codes "MapResult"));
}

expand_fn_params-IsWrapper_example : IsWrapper ExpansionMode.map wrapper
unfolding expand_fn_params
expand_fn_params-IsWrapper_example =
    expand_fn_params-IsWrapper remap special ExpansionMode.map wrapper refl

-- Tokens are texts, and every text is a literal, a path and a type.
abbrev pub texts : Syn
texts = record {
  Tokens = Str;
  ItemPath = Str;
  Type_ = Str;
  lit_str = λ s. some s;
  path = λ s. some s;
  paths = λ s. some (s ∷ []);
  type_ = λ s. some s;
}

abbrev raws : List (RawArg Str)
raws =
    assigned (codes "to") (codes "/internal")
    ∷ bare (codes "multipart")
    ∷ assigned (codes "json") (codes "Input")
    ∷ []

abbrev arguments : List (RouteArg texts)
arguments =
    RouteArg.to (codes "/internal")
    ∷ RouteArg.multipart_flag
    ∷ RouteArg.json_arg (codes "Input")
    ∷ []

parse_route_args-distinct_example :
    (is_ok (parse_route_args texts (codes "/items") raws) ≡ distinct texts arguments)
    × ((b : RouteArgsBuilder texts)
        → parse_loop texts (no_args texts) raws ≡ ok b
        → (s : Slot) → held texts b s ≡ given texts arguments s)
unfolding parse_route_arg
parse_route_args-distinct_example =
    parse_route_args-distinct texts (codes "/items") raws arguments refl

-- `#[doc] #[apigate::get("/items", query = Page)]`
abbrev pub attrs : List (Attribute Str)
attrs =
    record { segments = codes "doc" ∷ []; literal = none; raws = [] }
    ∷ record {
      segments = codes "apigate" ∷ codes "get" ∷ [];
      literal = some (codes "/items");
      raws = assigned (codes "query") (codes "Page") ∷ [];
    }
    ∷ []

find_route_attr-choose_example :
    find_route_attr texts attrs ≡ choose texts (route_attrs texts 0 attrs)
find_route_attr-choose_example = find_route_attr-choose texts attrs
