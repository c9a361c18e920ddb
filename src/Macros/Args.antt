-- ===== src/Macros/Args.antt =====
-- apigate-macros/src/route.rs, service.rs and parse.rs: the arguments of the route attributes and of
-- the service attribute. An argument is a key with the tokens after `=`, or a bare key.
pub mod Slots
use apigate.Prelude.{
  List, [], ◌∷◌, Bool, true, false, Option, none, some, Result, ok, err, ◌>>=◌, map_err,
  if◌then◌else◌,
}
use apigate.Str
use apigate.Str.{Str}

-- `syn`: what it parses the tokens after `=` as, and the types of a path and of a type.
pub record Syn : Type 1 where
  pub Tokens : Type 0
  pub ItemPath : Type 0
  pub Type_ : Type 0
  pub lit_str : Tokens → Option Str
  pub path : Tokens → Option ItemPath
  pub paths : Tokens → Option (List ItemPath)
  pub type_ : Tokens → Option Type_

pub data ArgsError : Type 0 where
  duplicate : (name : Str) → ArgsError
  one_data_kind : ArgsError
  unknown_argument : (key : Str) → ArgsError
  not_a_flag : (key : Str) → ArgsError
  not_parsed : ArgsError

unfoldable pub set_once : {A : Type 0} → Option A → A → Str → Result ArgsError (Option A)
set_once none value name = ok (some value)
set_once (some old) value name = err (ArgsError.duplicate name)

-- `parse_assigned`, with what `syn` makes of the value
unfoldable pub parse_assigned : {A B : Type 0} → (A → B) → Option A → Result ArgsError B
parse_assigned f none = err ArgsError.not_parsed
parse_assigned f (some a) = ok (f a)

pub data RawArg (Tokens : Type 0) : Type 0 where
  bare : (key : Str) → RawArg Tokens
  assigned : (key : Str) → Tokens → RawArg Tokens

pub record ServiceArgs : Type 0 where
  pub name : Option Str
  pub prefix : Option Str
  pub policy : Option Str

pub data ServiceArg : Type 0 where
  name_arg prefix_arg policy_arg : Str → ServiceArg

-- `impl Parse for ServiceArg`, on an argument with a value
unfoldable pub parse_service_arg : (key : Str) → Option Str → Result ArgsError ServiceArg
unfolding Str.eq
parse_service_arg key none = err ArgsError.not_parsed
parse_service_arg key (some value) =
    if Str.eq key (Str.codes "name")
    then ok (name_arg value)
    else if Str.eq key (Str.codes "prefix")
    then ok (prefix_arg value)
    else if Str.eq key (Str.codes "policy")
    then ok (policy_arg value)
    else err (ArgsError.unknown_argument key)

unfoldable pub set_service_arg : ServiceArgs → ServiceArg → Result ArgsError ServiceArgs
unfolding set_once
set_service_arg s (name_arg v) =
    set_once s.name v (Str.codes "name") >>= λ x. ok (record s { name = x })
set_service_arg s (prefix_arg v) =
    set_once s.prefix v (Str.codes "prefix") >>= λ x. ok (record s { prefix = x })
set_service_arg s (policy_arg v) =
    set_once s.policy v (Str.codes "policy") >>= λ x. ok (record s { policy = x })

unfoldable pub set_service_args : ServiceArgs → List ServiceArg → Result ArgsError ServiceArgs
unfolding set_service_arg
set_service_args s [] = ok s
set_service_args s (arg ∷ args) = set_service_arg s arg >>= λ s'. set_service_args s' args

pub data DataKind (Ty : Type 0) : Type 0 where
  nothing multipart : DataKind Ty
  json form : Ty → DataKind Ty

unfoldable pub set_data : {Ty : Type 0} → DataKind Ty → DataKind Ty → Result ArgsError (DataKind Ty)
set_data nothing next = ok next
set_data _ next = err ArgsError.one_data_kind

module _ (syn : Syn) where
  pub data RouteArg : Type 0 where
    to policy : Str → RouteArg
    before : List syn.ItemPath → RouteArg
    map : syn.ItemPath → RouteArg
    query json_arg form_arg path_type : syn.Type_ → RouteArg
    multipart_flag : RouteArg

  pub record RouteArgsBuilder : Type 0 where
    pub to_ : Option Str
    pub policy_ : Option Str
    pub before_ : Option (List syn.ItemPath)
    pub map_ : Option syn.ItemPath
    pub query_type : Option syn.Type_
    pub data_ : DataKind syn.Type_
    pub path_type_ : Option syn.Type_

  abbrev pub no_args : RouteArgsBuilder
  no_args = record {
    to_ = none;
    policy_ = none;
    before_ = none;
    map_ = none;
    query_type = none;
    data_ = nothing;
    path_type_ = none;
  }

  unfoldable pub apply : RouteArgsBuilder → RouteArg → Result ArgsError RouteArgsBuilder
  unfolding set_once set_data
  apply b (to v) = set_once b.to_ v (Str.codes "to") >>= λ x. ok (record b { to_ = x })
  apply b (policy v) =
      set_once b.policy_ v (Str.codes "policy") >>= λ x. ok (record b { policy_ = x })
  apply b (before v) =
      set_once b.before_ v (Str.codes "before") >>= λ x. ok (record b { before_ = x })
  apply b (map v) = set_once b.map_ v (Str.codes "map") >>= λ x. ok (record b { map_ = x })
  apply b (query v) =
      set_once b.query_type v (Str.codes "query") >>= λ x. ok (record b { query_type = x })
  apply b (json_arg v) = set_data b.data_ (json v) >>= λ x. ok (record b { data_ = x })
  apply b (form_arg v) = set_data b.data_ (form v) >>= λ x. ok (record b { data_ = x })
  apply b (path_type v) =
      set_once b.path_type_ v (Str.codes "path") >>= λ x. ok (record b { path_type_ = x })
  apply b multipart_flag = set_data b.data_ multipart >>= λ x. ok (record b { data_ = x })

  pub record RouteArgs : Type 0 where
    pub path : Str
    pub to : Option Str
    pub policy : Option Str
    pub before : List syn.ItemPath
    pub map : Option syn.ItemPath
    pub query_type : Option syn.Type_
    pub data_kind : DataKind syn.Type_
    pub path_type : Option syn.Type_

  or_empty : Option (List syn.ItemPath) → List syn.ItemPath
  or_empty none = []
  or_empty (some paths) = paths

  unfoldable pub build_args : RouteArgsBuilder → Str → RouteArgs
  unfolding or_empty
  build_args b path = record {
    path = path;
    to = b.to_;
    policy = b.policy_;
    before = or_empty b.before_;
    map = b.map_;
    query_type = b.query_type;
    data_kind = b.data_;
    path_type = b.path_type_;
  }

  -- `impl Parse for RouteArg`
  unfoldable pub parse_route_arg : RawArg syn.Tokens → Result ArgsError RouteArg
  unfolding Str.eq parse_assigned
  parse_route_arg (bare key) =
      if Str.eq key (Str.codes "multipart")
      then ok multipart_flag
      else err (ArgsError.not_a_flag key)
  parse_route_arg (assigned key value) =
      if Str.eq key (Str.codes "to")
      then parse_assigned to (syn.lit_str value)
      else if Str.eq key (Str.codes "policy")
      then parse_assigned policy (syn.lit_str value)
      else if Str.eq key (Str.codes "before")
      then parse_assigned before (syn.paths value)
      else if Str.eq key (Str.codes "map")
      then parse_assigned map (syn.path value)
      else if Str.eq key (Str.codes "query")
      then parse_assigned query (syn.type_ value)
      else if Str.eq key (Str.codes "json")
      then parse_assigned json_arg (syn.type_ value)
      else if Str.eq key (Str.codes "form")
      then parse_assigned form_arg (syn.type_ value)
      else if Str.eq key (Str.codes "path")
      then parse_assigned path_type (syn.type_ value)
      else err (ArgsError.unknown_argument key)

  -- The loop of `impl Parse for RouteArgs`.
  unfoldable pub parse_loop :
      RouteArgsBuilder → List (RawArg syn.Tokens) → Result ArgsError RouteArgsBuilder
  unfolding parse_route_arg apply
  parse_loop b [] = ok b
  parse_loop b (raw ∷ rest) =
      parse_route_arg raw >>= λ arg. apply b arg >>= λ b'. parse_loop b' rest

  unfoldable pub parse_route_args : Str → List (RawArg syn.Tokens) → Result ArgsError RouteArgs
  unfolding parse_loop build_args
  parse_route_args path raws = parse_loop no_args raws >>= λ b. ok (build_args b path)

  -- `parse_terminated` parses all arguments before one is set.
  unfoldable pub parse_terminated : List (Str × syn.Tokens) → Result ArgsError (List ServiceArg)
  unfolding parse_service_arg
  parse_terminated [] = ok []
  parse_terminated ((key, value) ∷ rest) = parse_service_arg key (syn.lit_str value) >>= λ arg.
      parse_terminated rest >>= λ args. ok (arg ∷ args)

  unfoldable pub parse_service_args : List (Str × syn.Tokens) → Result ArgsError ServiceArgs
  unfolding parse_terminated set_service_args
  parse_service_args raws = parse_terminated raws >>= λ args.
      set_service_args (record { name = none; prefix = none; policy = none }) args
