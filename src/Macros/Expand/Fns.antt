-- ===== src/Macros/Expand/Fns.antt =====
-- apigate-macros/src/expand.rs: how the function of a hook or a map is rewritten.
pub mod Borrows
pub mod Wrapper
use apigate.Prelude.{
  ℕ, suc, ◌+◌, List, [], ◌∷◌, ◌++◌, Bool, true, false, not, ◌&&◌, ◌||◌, Option, none, some, is_some,
  Result, ok, err, ◌>>=◌, ltb, if◌then◌else◌,
}
use apigate.Str.{Str}
use apigate.Macros.Expand.{
  Ty, ParamSource, binds_ctx, binds_scope, ParamPlan, SpecialTypePaths, ExpandError, ExpansionMode,
  keeps_first_owned_param, classify_param,
}
use apigate.Macros.Expand.ExpandError.{
  raw_body_only_in_map, self_not_supported, duplicate_parts_ctx, duplicate_scope, duplicate_mut,
  scope_with_borrowed, mut_with_borrowed, not_async, no_owned_input, no_return_type,
}

pub record BorrowSummary : Type 0 where
  pub seen_ctx : ℕ
  pub seen_scope : ℕ
  pub immut_borrowed_from_scope : ℕ
  pub mut_borrowed_from_scope : ℕ

-- One turn of the loop of `validate_plans`.
pub count_source : BorrowSummary → ParamSource → BorrowSummary
count_source s ParamSource.parts_ctx = record s { seen_ctx = suc s.seen_ctx }
count_source s ParamSource.request_scope = record s { seen_scope = suc s.seen_scope }
count_source s (ParamSource.scope_ref ty) = record s {
  immut_borrowed_from_scope = suc s.immut_borrowed_from_scope;
}
count_source s (ParamSource.scope_mut ty) = record s {
  mut_borrowed_from_scope = suc s.mut_borrowed_from_scope;
}
count_source s ParamSource.scope_take = s
count_source s ParamSource.raw_body = s

pub summarize : BorrowSummary → List ParamPlan → BorrowSummary
unfolding count_source
summarize s [] = s
summarize s (plan ∷ plans) = summarize (count_source s plan.source) plans

unfoldable pub check_summary : BorrowSummary → Result {0, 0} ExpandError Unit
check_summary s =
    if ltb 1 s.seen_ctx
    then err duplicate_parts_ctx
    else if ltb 1 s.seen_scope
    then err duplicate_scope
    else if ltb 1 s.mut_borrowed_from_scope
    then err duplicate_mut
    else if ltb 0 s.seen_scope
        && (ltb 0 s.immut_borrowed_from_scope || ltb 0 s.mut_borrowed_from_scope)
    then err scope_with_borrowed
    else if ltb 0 s.mut_borrowed_from_scope && ltb 0 s.immut_borrowed_from_scope
    then err mut_with_borrowed
    else ok tt

abbrev pub no_borrows : BorrowSummary
no_borrows = record {
  seen_ctx = 0;
  seen_scope = 0;
  immut_borrowed_from_scope = 0;
  mut_borrowed_from_scope = 0;
}

unfoldable pub validate_plans : List ParamPlan → Result {0, 0} ExpandError Unit
unfolding summarize check_summary
validate_plans plans = check_summary (summarize no_borrows plans)

pub data FnArg : Type 0 where
  receiver : FnArg
  typed : (pat : Str) (ty : Ty) → FnArg

-- The generic parameters of the wrapper: those of the source, and `__apigate_format` of a map.
pub record ItemFn : Type 0 where
  pub is_async : Bool
  pub inputs : List FnArg
  pub output : Option Ty
  pub stmts : List Str

pub is_raw_body : ParamSource → Bool
is_raw_body ParamSource.raw_body = true
is_raw_body _ = false

-- `ScopeTake | RawBody`
pub is_owned : ParamSource → Bool
is_owned ParamSource.scope_take = true
is_owned ParamSource.raw_body = true
is_owned _ = false

abbrev pub Plans : Type 0
Plans = List ParamPlan × Option FnArg

-- The end of one turn of the loop: the parameter is kept as the input, or planned.
pub plan_param :
    ExpansionMode → Plans → (pat : Str) (ty : Ty) → ParamSource → Result ExpandError Plans
unfolding keeps_first_owned_param is_raw_body is_owned
plan_param mode (plans, kept) pat ty source =
    if is_raw_body source && not (keeps_first_owned_param mode)
    then err raw_body_only_in_map
    else if is_owned source && (keeps_first_owned_param mode && not (is_some kept))
    then ok (plans, some (typed pat ty))
    else ok (plans ++ record { pat = pat; ty = ty; source = source } ∷ [], kept)

pub plan_params : SpecialTypePaths → ExpansionMode → List FnArg → Plans → Result ExpandError Plans
unfolding classify_param plan_param
plan_params special mode [] so_far = ok so_far
plan_params special mode (receiver ∷ params) so_far = err self_not_supported
plan_params special mode (typed pat ty ∷ params) so_far = classify_param ty special >>= λ source.
    plan_param mode so_far pat ty source >>= λ next. plan_params special mode params next

unfoldable pub build_param_plans :
    ItemFn → SpecialTypePaths → ExpansionMode → Result ExpandError Plans
unfolding plan_params
build_param_plans f special mode = plan_params special mode f.inputs ([], none)

-- A generated `let pat: ty = …;`: from `ctx`, from `scope`, `scope.take::<ty>()`,
-- `scope.get::<inner>()`, `scope.get_mut::<inner>()`, `scope.raw_body_cloned()`; the last four
-- return `MissingFromScope` with the spelling of the type.
pub data Binding : Type 0 where
  let_ctx let_scope let_take let_raw : (pat : Str) (ty : Ty) → Binding
  let_get let_get_mut : (pat : Str) (ty inner : Ty) → Binding

pub record Tokens : Type 0 where
  pub raw_tokens : List Binding
  pub ctx_tokens : List Binding
  pub take_tokens : List Binding
  pub get_tokens : List Binding
  pub get_mut_tokens : List Binding
  pub scope_tokens : List Binding

-- The `match` of `build_bindings`.
pub push_token : Tokens → (pat : Str) (ty : Ty) → ParamSource → Tokens
push_token t pat ty ParamSource.parts_ctx = record t {
  ctx_tokens = t.ctx_tokens ++ let_ctx pat ty ∷ [];
}
push_token t pat ty ParamSource.request_scope = record t {
  scope_tokens = t.scope_tokens ++ let_scope pat ty ∷ [];
}
push_token t pat ty ParamSource.scope_take = record t {
  take_tokens = t.take_tokens ++ let_take pat ty ∷ [];
}
push_token t pat ty (ParamSource.scope_ref inner) = record t {
  get_tokens = t.get_tokens ++ let_get pat ty inner ∷ [];
}
push_token t pat ty (ParamSource.scope_mut inner) = record t {
  get_mut_tokens = t.get_mut_tokens ++ let_get_mut pat ty inner ∷ [];
}
push_token t pat ty ParamSource.raw_body = record t {
  raw_tokens = t.raw_tokens ++ let_raw pat ty ∷ [];
}

pub push_tokens : Tokens → List ParamPlan → Tokens
unfolding push_token
push_tokens t [] = t
push_tokens t (plan ∷ plans) = push_tokens (push_token t plan.pat plan.ty plan.source) plans

abbrev pub no_tokens : Tokens
no_tokens = record {
  raw_tokens = [];
  ctx_tokens = [];
  take_tokens = [];
  get_tokens = [];
  get_mut_tokens = [];
  scope_tokens = [];
}

pub chain : Tokens → List Binding
chain t =
    t.raw_tokens
    ++ (t.ctx_tokens ++ (t.take_tokens ++ (t.get_tokens ++ (t.get_mut_tokens ++ t.scope_tokens))))

unfoldable pub build_bindings : List ParamPlan → List Binding
unfolding push_tokens chain
build_bindings plans = chain (push_tokens no_tokens plans)

pub any_binds : (ParamSource → Bool) → List ParamPlan → Bool
any_binds p [] = false
any_binds p (plan ∷ plans) = p plan.source || any_binds p plans

-- The wrapper that the macro writes: the kept input, whether `ctx` and `scope` are named, the
-- bindings before the user's statements, and for a map the type whose output is finished.
pub record Expanded : Type 0 where
  pub input : Option FnArg
  pub names_ctx : Bool
  pub names_scope : Bool
  pub bindings : List Binding
  pub body : List Str
  pub finishes : Option Ty

unfoldable pub map_return_type : Option Ty → Result ExpandError Ty
map_return_type (some ty) = ok ty
map_return_type none = err no_return_type

-- `apply_map_output`, which a hook does not call.
pub finish_type : ExpansionMode → Option Ty → Result ExpandError (Option Ty)
unfolding map_return_type
finish_type ExpansionMode.hook output = ok none
finish_type ExpansionMode.map output = map_return_type output >>= λ ty. ok (some ty)

pub expand_plans : ItemFn → ExpansionMode → Plans → Result ExpandError Expanded
unfolding keeps_first_owned_param validate_plans any_binds binds_ctx binds_scope build_bindings
    finish_type
expand_plans f mode (plans, kept) =
    if keeps_first_owned_param mode && not (is_some kept)
    then err no_owned_input
    else (validate_plans plans >>= λ _. finish_type mode f.output >>= λ finishes. ok (record {
      input = kept;
      names_ctx = any_binds binds_ctx plans;
      names_scope = any_binds binds_scope plans;
      bindings = build_bindings plans;
      body = f.stmts;
      finishes = finishes;
    }))

unfoldable pub expand_fn_params :
    ItemFn → SpecialTypePaths → ExpansionMode → Result ExpandError Expanded
unfolding build_param_plans expand_plans
expand_fn_params f special mode =
    if f.is_async
    then (build_param_plans f special mode >>= λ plans. expand_plans f mode plans)
    else err not_async
