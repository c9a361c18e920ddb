-- ===== src/Macros/Expand/Fns/Wrapper.antt =====
-- The wrapper that apigate-macros/src/expand.rs writes for a hook or a map.
use apigate.Prelude.{
  ◌≡◌, refl, ◌∙◌, ap, sym, List, [], ◌∷◌, ◌++◌, Bool, true, false, not, ◌&&◌, ◌||◌, Option, none,
  some, is_some, Result, ok, err, is_ok, bind-ok, if◌then◌else◌, arith,
}
use mathlib.Core.Path.{subst}
use apigate.Str.{Str}
use apigate.Macros.Expand.{
  ParamSource, ParamPlan, Ty, SpecialTypePaths, ExpandError, ExpansionMode, binds_ctx, binds_scope,
  keeps_first_owned_param,
}
use apigate.Macros.Expand.Fns.{
  ItemFn, Plans, Binding, let_ctx, let_scope, let_take, let_raw, let_get, let_get_mut, Tokens,
  push_token, push_tokens, no_tokens, chain, build_bindings, any_binds, Expanded, finish_type,
  expand_plans, build_param_plans, expand_fn_params, validate_plans,
}
use apigate.Macros.Expand.Fns.Borrows.{borrow_check, validate_plans-borrow_check}

-- Which of the two generated parameters a binding names.
abbrev pub names_ctx_in : Binding → Bool
names_ctx_in (let_ctx pat ty) = true
names_ctx_in (let_scope pat ty) = false
names_ctx_in (let_take pat ty) = false
names_ctx_in (let_raw pat ty) = false
names_ctx_in (let_get pat ty inner) = false
names_ctx_in (let_get_mut pat ty inner) = false

abbrev pub any : (Binding → Bool) → List Binding → Bool
any p [] = false
any p (x ∷ xs) = p x || any p xs

or_assoc : (a b c : Bool) → (a || (b || c)) ≡ ((a || b) || c)
or_assoc true b c = refl
or_assoc false b c = refl

or_false : (a : Bool) → a ≡ (a || false)
or_false true = refl
or_false false = refl

any-append : (p : Binding → Bool) (xs ys : List Binding) → any p (xs ++ ys) ≡ (any p xs || any p ys)
any-append p [] ys = refl
any-append p (x ∷ xs) ys = rw (any-append p xs ys) (or_assoc (p x) (any p xs) (any p ys))

any-chain :
    (p : Binding → Bool) (t : Tokens)
    → any p (chain t) ≡ (
        any p t.raw_tokens
        || (any p t.ctx_tokens
            || (any p t.take_tokens
                || (any p t.get_tokens || (any p t.get_mut_tokens || any p t.scope_tokens)))))
unfolding chain
any-chain p t = rw (any-append, any-append, any-append, any-append, any-append) refl

-- The binding that is written for a source.
abbrev binding_of : Str → Ty → ParamSource → Binding
binding_of pat ty ParamSource.parts_ctx = let_ctx pat ty
binding_of pat ty ParamSource.request_scope = let_scope pat ty
binding_of pat ty ParamSource.scope_take = let_take pat ty
binding_of pat ty (ParamSource.scope_ref inner) = let_get pat ty inner
binding_of pat ty (ParamSource.scope_mut inner) = let_get_mut pat ty inner
binding_of pat ty ParamSource.raw_body = let_raw pat ty

any-push_token :
    (p : Binding → Bool) (t : Tokens) (pat : Str) (ty : Ty) (source : ParamSource)
    → any p (chain (push_token t pat ty source)) ≡ (any p (chain t) || p (binding_of pat ty source))
unfolding push_token
any-push_token p t pat ty ParamSource.parts_ctx = ground (
  arith,
  any-chain p t,
  any-chain p (push_token t pat ty ParamSource.parts_ctx),
  any-append p t.ctx_tokens (let_ctx pat ty ∷ []),
)
any-push_token p t pat ty ParamSource.request_scope = ground (
  arith,
  any-chain p t,
  any-chain p (push_token t pat ty ParamSource.request_scope),
  any-append p t.scope_tokens (let_scope pat ty ∷ []),
)
any-push_token p t pat ty ParamSource.scope_take = ground (
  arith,
  any-chain p t,
  any-chain p (push_token t pat ty ParamSource.scope_take),
  any-append p t.take_tokens (let_take pat ty ∷ []),
)
any-push_token p t pat ty (ParamSource.scope_ref inner) = ground (
  arith,
  any-chain p t,
  any-chain p (push_token t pat ty (ParamSource.scope_ref inner)),
  any-append p t.get_tokens (let_get pat ty inner ∷ []),
)
any-push_token p t pat ty (ParamSource.scope_mut inner) = ground (
  arith,
  any-chain p t,
  any-chain p (push_token t pat ty (ParamSource.scope_mut inner)),
  any-append p t.get_mut_tokens (let_get_mut pat ty inner ∷ []),
)
any-push_token p t pat ty ParamSource.raw_body = ground (
  arith,
  any-chain p t,
  any-chain p (push_token t pat ty ParamSource.raw_body),
  any-append p t.raw_tokens (let_raw pat ty ∷ []),
)

-- A binding names a parameter exactly where its source binds it.
any-push_tokens :
    (p : Binding → Bool) (q : ParamSource → Bool)
    → ((pat : Str) (ty : Ty) (source : ParamSource) → p (binding_of pat ty source) ≡ q source)
    → (t : Tokens) (plans : List ParamPlan)
    → any p (chain (push_tokens t plans)) ≡ (any p (chain t) || any_binds q plans)
unfolding push_tokens any_binds
any-push_tokens p q h t [] = or_false (any p (chain t))
any-push_tokens p q h t (plan ∷ plans) =
    any-push_tokens p q h (push_token t plan.pat plan.ty plan.source) plans
    ∙ rw (any-push_token p t plan.pat plan.ty plan.source, h plan.pat plan.ty plan.source)
        (sym (or_assoc (any p (chain t)) (q plan.source) (any_binds q plans)))

any-build_bindings :
    (p : Binding → Bool) (q : ParamSource → Bool)
    → ((pat : Str) (ty : Ty) (source : ParamSource) → p (binding_of pat ty source) ≡ q source)
    → (plans : List ParamPlan) → any p (build_bindings plans) ≡ any_binds q plans
unfolding build_bindings chain
any-build_bindings p q h plans = any-push_tokens p q h no_tokens plans

of_ctx :
    (pat : Str) (ty : Ty) (source : ParamSource)
    → names_ctx_in (binding_of pat ty source) ≡ binds_ctx source
unfolding binds_ctx
of_ctx pat ty ParamSource.parts_ctx = refl
of_ctx pat ty _ = refl

of_scope :
    (pat : Str) (ty : Ty) (source : ParamSource)
    → not (names_ctx_in (binding_of pat ty source)) ≡ binds_scope source
unfolding binds_scope
of_scope pat ty ParamSource.parts_ctx = refl
of_scope pat ty _ = refl

-- What holds of a wrapper: the borrow checker accepts its bindings, each generated parameter is named
-- exactly if a binding uses it, and a map has an input and the type of its output, a hook neither.
pub record IsWrapper (mode : ExpansionMode) (e : Expanded) : Type 0 where
  pub borrows : borrow_check e.bindings ≡ true
  pub ctx_named : e.names_ctx ≡ any names_ctx_in e.bindings
  pub scope_named : e.names_scope ≡ any (λ b. not (names_ctx_in b)) e.bindings
  pub has_input : keeps_first_owned_param mode ≡ true → is_some e.input ≡ true
  pub finishes : is_some e.finishes ≡ keeps_first_owned_param mode

finish_type-keeps :
    (mode : ExpansionMode) (output finishes : Option Ty)
    → finish_type mode output ≡ ok finishes
    → is_some finishes ≡ keeps_first_owned_param mode
unfolding finish_type keeps_first_owned_param
finish_type-keeps ExpansionMode.hook output finishes h = cc
finish_type-keeps ExpansionMode.map (some ty) finishes h = cc
finish_type-keeps ExpansionMode.map none finishes h = cc

input_kept : (a b : Bool) → (a && not b) ≡ false → a ≡ true → b ≡ true
input_kept a b h k = ground arith

ok_inj : {A : Type 0} {a b : A} → ◌≡◌ {A = Result ExpandError A} (ok a) (ok b) → a ≡ b
ok_inj h = cc

-- A test in front of a result that succeeds.
otherwise :
    {A : Type 0} (b : Bool) (e : ExpandError) (r : Result ExpandError A) {a : A}
    → (if b then err e else r) ≡ ok a
    → (b ≡ false) × (r ≡ ok a)
otherwise true e r h = cc
otherwise false e r h = (refl, h)

granted :
    {A : Type 0} (b : Bool) (e : ExpandError) (r : Result ExpandError A) {a : A}
    → (if b then r else err e) ≡ ok a
    → r ≡ ok a
granted true e r h = h
granted false e r h = cc

expand_plans-IsWrapper :
    (f : ItemFn) (mode : ExpansionMode) (plans : Plans) (e : Expanded)
    → expand_plans f mode plans ≡ ok e
    → IsWrapper mode e
unfolding expand_plans
expand_plans-IsWrapper f mode (plans, kept) e h =
    let (has, h0) = otherwise (keeps_first_owned_param mode && not (is_some kept)) _ _ h in
    let (_, h1, valid) = bind-ok (validate_plans plans) _ h0 in
    let (finishes, h2, typed) = bind-ok (finish_type mode f.output) _ h1 in
    subst (IsWrapper mode) (ok_inj h2) (record {
      borrows = sym (validate_plans-borrow_check plans) ∙ ap is_ok valid;
      ctx_named = sym (any-build_bindings names_ctx_in binds_ctx of_ctx plans);
      scope_named = sym (any-build_bindings (λ b. not (names_ctx_in b)) binds_scope of_scope plans);
      has_input = input_kept (keeps_first_owned_param mode) (is_some kept) has;
      finishes = finish_type-keeps mode f.output finishes typed;
    })

-- A function that the macro accepts gets a sound wrapper: Rust accepts the borrows of its bindings,
-- `ctx` and `scope` are named exactly if a binding uses them, and a map has an input and a declared
-- output.
pub expand_fn_params-IsWrapper :
    (f : ItemFn) (special : SpecialTypePaths) (mode : ExpansionMode) (e : Expanded)
    → expand_fn_params f special mode ≡ ok e
    → IsWrapper mode e
unfolding expand_fn_params
expand_fn_params-IsWrapper f special mode e h =
    let h0 = granted f.is_async ExpandError.not_async _ h in
    let (plans, h1, planned) = bind-ok (build_param_plans f special mode) _ h0 in
    expand_plans-IsWrapper f mode plans e h1
