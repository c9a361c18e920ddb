-- ===== src/Macros/Expand.antt =====
-- apigate-macros/src/expand.rs: how the parameters of a hook or a map are classified, checked and
-- bound. Of a type the model keeps what the code matches on; spans and error texts are left out, and
-- so are the generics that a map's wrapper gets for its output.
pub mod Fns
use apigate.Prelude.{
  ℕ, suc, ◌+◌, List, [], ◌∷◌, ◌++◌, Bool, true, false, not, ◌&&◌, ◌||◌, Option, none, some, is_some,
  Result, ok, err, ◌>>=◌, ltb, ◌==◌, length, if◌then◌else◌,
}
use apigate.Str
use apigate.Str.{Str}

-- `syn::PathArguments`, `PathSegment`, and the parts of `TypePath`
pub data PathArguments : Type 0 where
  bare angled parenthesized : PathArguments

pub record Segment : Type 0 where
  pub ident : Str
  pub arguments : PathArguments

pub record TypePath : Type 0 where
  pub has_qself : Bool
  pub leading_colon : Bool
  pub segments : List Segment

-- `syn::Type`; the other types are not looked into.
pub data Ty : Type 0 where
  group : Ty → Ty
  paren : Ty → Ty
  reference : (is_mut : Bool) → Ty → Ty
  path : TypePath → Ty
  other : Str → Ty

-- The path of a special type, which is never empty.
pub record SpecialPath : Type 0 where
  pub before : List Segment
  pub last : Segment

pub data ParamSource : Type 0 where
  parts_ctx request_scope scope_take raw_body : ParamSource
  scope_ref scope_mut : Ty → ParamSource

unfoldable pub binds_ctx : ParamSource → Bool
binds_ctx ParamSource.parts_ctx = true
binds_ctx _ = false

unfoldable pub binds_scope : ParamSource → Bool
binds_scope ParamSource.parts_ctx = false
binds_scope _ = true

pub record ParamPlan : Type 0 where
  pub pat : Str
  pub ty : Ty
  pub source : ParamSource

pub record SpecialTypePaths : Type 0 where
  pub ctx : SpecialPath
  pub scope : SpecialPath
  pub raw_body : SpecialPath

pub data SpecialKind : Type 0 where
  parts_ctx request_scope raw_body : SpecialKind

pub data ExpandError : Type 0 where
  parts_ctx_must_be_mut scope_must_be_mut raw_body_by_reference self_not_supported : ExpandError
  raw_body_only_in_map duplicate_parts_ctx duplicate_scope duplicate_mut : ExpandError
  scope_with_borrowed mut_with_borrowed not_async no_owned_input no_return_type : ExpandError

pub data ExpansionMode : Type 0 where
  hook map : ExpansionMode

unfoldable pub keeps_first_owned_param : ExpansionMode → Bool
keeps_first_owned_param ExpansionMode.hook = false
keeps_first_owned_param ExpansionMode.map = true

unfoldable pub peel_type : Ty → Ty
peel_type (Ty.group t) = peel_type t
peel_type (Ty.paren t) = peel_type t
peel_type (Ty.reference m t) = Ty.reference m t
peel_type (Ty.path p) = Ty.path p
peel_type (Ty.other s) = Ty.other s

pub is_parenthesized : PathArguments → Bool
is_parenthesized PathArguments.parenthesized = true
is_parenthesized _ = false

pub single_is : List Segment → Str → Bool
unfolding is_parenthesized Str.eq
single_is (s ∷ []) ident = Str.eq s.ident ident && not (is_parenthesized s.arguments)
single_is _ ident = false

unfoldable pub is_bare_special_path : TypePath → Str → Bool
unfolding single_is
is_bare_special_path p ident = not p.leading_colon && single_is p.segments ident

-- `zip` stops at the shorter list; the lengths are compared before.
pub all_match : List Segment → List Segment → Bool
unfolding is_parenthesized Str.eq
all_match (l ∷ ls) (r ∷ rs) =
    let rest = all_match ls rs in
    Str.eq l.ident r.ident && (not (is_parenthesized l.arguments) && rest)
all_match _ _ = true

unfoldable pub path_eq_ignoring_args : List Segment → List Segment → Bool
unfolding all_match
path_eq_ignoring_args a b = if length a == length b then all_match a b else false

pub path_is_special : TypePath → SpecialPath → Bool
unfolding is_bare_special_path path_eq_ignoring_args
path_is_special p expected =
    not p.has_qself
    && (is_bare_special_path p expected.last.ident
        || path_eq_ignoring_args p.segments (expected.before ++ expected.last ∷ []))

-- A type that is already peeled.
pub peeled_is_special : Ty → SpecialPath → Bool
unfolding path_is_special
peeled_is_special (Ty.path p) expected = path_is_special p expected
peeled_is_special _ expected = false

unfoldable pub is_special_type : Ty → SpecialPath → Bool
unfolding peel_type peeled_is_special
is_special_type ty expected = peeled_is_special (peel_type ty) expected

unfoldable pub match_kind : SpecialTypePaths → Ty → Option SpecialKind
unfolding is_special_type
match_kind special ty =
    if is_special_type ty special.ctx
    then some SpecialKind.parts_ctx
    else if is_special_type ty special.scope
    then some SpecialKind.request_scope
    else if is_special_type ty special.raw_body
    then some SpecialKind.raw_body
    else none

-- A reference, by the special type that it refers to.
unfoldable pub classify_ref_param :
    (is_mut : Bool) → Ty → Option SpecialKind → Result ExpandError ParamSource
classify_ref_param is_mut inner (some SpecialKind.parts_ctx) =
    if is_mut then ok ParamSource.parts_ctx else err parts_ctx_must_be_mut
classify_ref_param is_mut inner (some SpecialKind.request_scope) =
    if is_mut then ok ParamSource.request_scope else err scope_must_be_mut
classify_ref_param is_mut inner (some SpecialKind.raw_body) = err raw_body_by_reference
classify_ref_param is_mut inner none =
    if is_mut then ok (ParamSource.scope_mut inner) else ok (ParamSource.scope_ref inner)

pub classify_owned : Option SpecialKind → Result ExpandError ParamSource
classify_owned (some SpecialKind.parts_ctx) = err parts_ctx_must_be_mut
classify_owned (some SpecialKind.request_scope) = err scope_must_be_mut
classify_owned (some SpecialKind.raw_body) = ok ParamSource.raw_body
classify_owned none = ok ParamSource.scope_take

pub classify_peeled : SpecialTypePaths → Ty → Result ExpandError ParamSource
unfolding classify_ref_param classify_owned match_kind peel_type
classify_peeled special (Ty.reference is_mut elem) =
    classify_ref_param is_mut (peel_type elem) (match_kind special (peel_type elem))
classify_peeled special ty = classify_owned (match_kind special ty)

unfoldable pub classify_param : Ty → SpecialTypePaths → Result ExpandError ParamSource
unfolding classify_peeled peel_type
classify_param ty special = classify_peeled special (peel_type ty)
