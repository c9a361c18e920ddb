-- ===== src/Macros/Args/Slots.antt =====
-- Which lists of route arguments are accepted, and what they come to.
use apigate.Prelude.{
  ◌≡◌, refl, sym, ◌∙◌, ap, List, [], ◌∷◌, Bool, true, false, not, ◌&&◌, Option, none, some, is_some,
  or_else, Result, ok, err, ◌>>=◌, is_ok, if◌then◌else◌, Option-cases, bind-ok, inl, inr, arith,
}
use mathlib.Core.Path.{fun_ext}
use apigate.Str
use apigate.Str.{Str}
use apigate.Macros.Args.{
  Syn, ArgsError, set_once, DataKind, nothing, multipart, json, form, set_data, RouteArg, to,
  policy, before, map, query, json_arg, form_arg, path_type, multipart_flag, RouteArgsBuilder,
  no_args, apply, build_args, RawArg, parse_route_arg, parse_loop, parse_route_args,
}

-- What a route can be given once: `json`, `form` and `multipart` are one choice.
pub data Slot : Type 0 where
  target balancing hooks mapper query_params body params : Slot

abbrev pub same : Slot → Slot → Bool
same Slot.target Slot.target = true
same Slot.balancing Slot.balancing = true
same Slot.hooks Slot.hooks = true
same Slot.mapper Slot.mapper = true
same Slot.query_params Slot.query_params = true
same Slot.body Slot.body = true
same Slot.params Slot.params = true
same _ _ = false

by_slot :
    (P : Slot → Type 0)
    → P Slot.target
    → P Slot.balancing
    → P Slot.hooks
    → P Slot.mapper
    → P Slot.query_params
    → P Slot.body
    → P Slot.params
    → (s : Slot) → P s
by_slot P a b c d e f g Slot.target = a
by_slot P a b c d e f g Slot.balancing = b
by_slot P a b c d e f g Slot.hooks = c
by_slot P a b c d e f g Slot.mapper = d
by_slot P a b c d e f g Slot.query_params = e
by_slot P a b c d e f g Slot.body = f
by_slot P a b c d e f g Slot.params = g

same_comm : (s t : Slot) → same s t ≡ same t s
same_comm Slot.target = by_slot _ refl refl refl refl refl refl refl
same_comm Slot.balancing = by_slot _ refl refl refl refl refl refl refl
same_comm Slot.hooks = by_slot _ refl refl refl refl refl refl refl
same_comm Slot.mapper = by_slot _ refl refl refl refl refl refl refl
same_comm Slot.query_params = by_slot _ refl refl refl refl refl refl refl
same_comm Slot.body = by_slot _ refl refl refl refl refl refl refl
same_comm Slot.params = by_slot _ refl refl refl refl refl refl refl

room :
    {A : Type 0} (x y : A) (p : Bool) (o : Option A) (f : Bool) (g : Option A)
    → (not (is_some (if p then some x else o)) && (f && not (is_some g)))
      ≡ ((not (is_some o) && f) && not (is_some (if p then some y else g)))
room x y p o f g = ground arith

merge :
    {A : Type 0} (x : A) (p : Bool) (o g : Option A)
    → (p ≡ true → o ≡ none)
    → or_else (if p then some x else o) g ≡ or_else o (if p then some x else g)
merge x true o g h = rw (h refl) refl
merge x false o g h = refl

or_else-none : {A : Type 0} (o : Option A) → o ≡ or_else o none
or_else-none none = refl
or_else-none (some a) = refl

ok_inj : {A : Type 0} {a b : A} → ◌≡◌ {A = Result ArgsError A} (ok a) (ok b) → a ≡ b
ok_inj h = cc

same→eq : (s t : Slot) → same s t ≡ true → s ≡ t
same→eq Slot.target =
    by_slot _ (λ h. refl) (λ h. cc) (λ h. cc) (λ h. cc) (λ h. cc) (λ h. cc) (λ h. cc)
same→eq Slot.balancing =
    by_slot _ (λ h. cc) (λ h. refl) (λ h. cc) (λ h. cc) (λ h. cc) (λ h. cc) (λ h. cc)
same→eq Slot.hooks =
    by_slot _ (λ h. cc) (λ h. cc) (λ h. refl) (λ h. cc) (λ h. cc) (λ h. cc) (λ h. cc)
same→eq Slot.mapper =
    by_slot _ (λ h. cc) (λ h. cc) (λ h. cc) (λ h. refl) (λ h. cc) (λ h. cc) (λ h. cc)
same→eq Slot.query_params =
    by_slot _ (λ h. cc) (λ h. cc) (λ h. cc) (λ h. cc) (λ h. refl) (λ h. cc) (λ h. cc)
same→eq Slot.body =
    by_slot _ (λ h. cc) (λ h. cc) (λ h. cc) (λ h. cc) (λ h. cc) (λ h. refl) (λ h. cc)
same→eq Slot.params =
    by_slot _ (λ h. cc) (λ h. cc) (λ h. cc) (λ h. cc) (λ h. cc) (λ h. cc) (λ h. refl)

stops :
    {A B : Type 0} (r : Result ArgsError A) (f : A → Result ArgsError B)
    → is_ok r ≡ false
    → is_ok (r >>= f) ≡ false
stops (ok a) f h = cc
stops (err e) f h = refl

module _ (syn : Syn) where
  abbrev Arg : Type 0
  Arg = RouteArg syn

  abbrev Builder : Type 0
  Builder = RouteArgsBuilder syn

  abbrev pub slot : Arg → Slot
  slot (to v) = Slot.target
  slot (policy v) = Slot.balancing
  slot (before v) = Slot.hooks
  slot (map v) = Slot.mapper
  slot (query v) = Slot.query_params
  slot (json_arg v) = Slot.body
  slot (form_arg v) = Slot.body
  slot (path_type v) = Slot.params
  slot multipart_flag = Slot.body

  abbrev as_arg : {A : Type 0} → (A → Arg) → Option A → Option Arg
  as_arg f none = none
  as_arg f (some a) = some (f a)

  abbrev data_arg : DataKind syn.Type_ → Option Arg
  data_arg nothing = none
  data_arg multipart = some multipart_flag
  data_arg (json t) = some (json_arg t)
  data_arg (form t) = some (form_arg t)

  -- The argument that the builder holds in a slot.
  abbrev pub held : Builder → Slot → Option Arg
  held b Slot.target = as_arg to b.to_
  held b Slot.balancing = as_arg policy b.policy_
  held b Slot.hooks = as_arg before b.before_
  held b Slot.mapper = as_arg map b.map_
  held b Slot.query_params = as_arg query b.query_type
  held b Slot.body = data_arg b.data_
  held b Slot.params = as_arg path_type b.path_type_

  -- The first argument for a slot, and whether no slot is given twice.
  abbrev pub given : List Arg → Slot → Option Arg
  given [] s = none
  given (a ∷ args) s = if same (slot a) s then some a else given args s

  abbrev pub distinct : List Arg → Bool
  distinct [] = true
  distinct (a ∷ args) = not (is_some (given args (slot a))) && distinct args

  -- `apply` to each argument in turn, which is what the loop of the parser does.
  apply_all : Builder → List Arg → Result ArgsError Builder
  unfolding apply
  apply_all b [] = ok b
  apply_all b (a ∷ args) = apply syn b a >>= λ b'. apply_all b' args

  abbrev Takes : Builder → Arg → Type 0
  Takes b a =
      (b' : Builder) × (apply syn b a ≡ ok b')
      × ((s : Slot) → held b' s ≡ (if same (slot a) s then some a else held b s))

  set_once-free :
      {A : Type 0} (f : A → Arg) (o : Option A) (v : A) (name : Str)
      → as_arg f o ≡ none
      → set_once o v name ≡ ok (some v)
  unfolding set_once
  set_once-free f none v name h = refl
  set_once-free f (some a) v name h = cc

  set_data-free : (d next : DataKind syn.Type_) → data_arg d ≡ none → set_data d next ≡ ok next
  unfolding set_data
  set_data-free nothing next h = refl
  set_data-free multipart next h = cc
  set_data-free (json t) next h = cc
  set_data-free (form t) next h = cc

  apply-free : (b : Builder) (a : Arg) → held b (slot a) ≡ none → Takes b a
  unfolding apply
  apply-free b (to v) h = (
    record b { to_ = some v },
    rw (set_once-free to b.to_ v _ h) refl,
    by_slot _ refl refl refl refl refl refl refl,
  )
  apply-free b (policy v) h = (
    record b { policy_ = some v },
    rw (set_once-free policy b.policy_ v _ h) refl,
    by_slot _ refl refl refl refl refl refl refl,
  )
  apply-free b (before v) h = (
    record b { before_ = some v },
    rw (set_once-free before b.before_ v _ h) refl,
    by_slot _ refl refl refl refl refl refl refl,
  )
  apply-free b (map v) h = (
    record b { map_ = some v },
    rw (set_once-free map b.map_ v _ h) refl,
    by_slot _ refl refl refl refl refl refl refl,
  )
  apply-free b (query v) h = (
    record b { query_type = some v },
    rw (set_once-free query b.query_type v _ h) refl,
    by_slot _ refl refl refl refl refl refl refl,
  )
  apply-free b (json_arg v) h = (
    record b { data_ = json v },
    rw (set_data-free b.data_ (json v) h) refl,
    by_slot _ refl refl refl refl refl refl refl,
  )
  apply-free b (form_arg v) h = (
    record b { data_ = form v },
    rw (set_data-free b.data_ (form v) h) refl,
    by_slot _ refl refl refl refl refl refl refl,
  )
  apply-free b (path_type v) h = (
    record b { path_type_ = some v },
    rw (set_once-free path_type b.path_type_ v _ h) refl,
    by_slot _ refl refl refl refl refl refl refl,
  )
  apply-free b multipart_flag h = (
    record b { data_ = multipart },
    rw (set_data-free b.data_ multipart h) refl,
    by_slot _ refl refl refl refl refl refl refl,
  )

  set_once-taken :
      {A : Type 0} (f : A → Arg) (o : Option A) (v : A) (name : Str) {x : Arg}
      → as_arg f o ≡ some x
      → set_once o v name ≡ err (ArgsError.duplicate name)
  unfolding set_once
  set_once-taken f none v name h = cc
  set_once-taken f (some a) v name h = refl

  set_data-taken :
      (d next : DataKind syn.Type_) {x : Arg}
      → data_arg d ≡ some x
      → set_data d next ≡ err ArgsError.one_data_kind
  unfolding set_data
  set_data-taken nothing next h = cc
  set_data-taken multipart next h = refl
  set_data-taken (json t) next h = refl
  set_data-taken (form t) next h = refl

  apply-taken :
      (b : Builder) (a : Arg) {x : Arg} → held b (slot a) ≡ some x → is_ok (apply syn b a) ≡ false
  unfolding apply
  apply-taken b (to v) h = rw (set_once-taken to b.to_ v (Str.codes "to") h) refl
  apply-taken b (policy v) h = rw (set_once-taken policy b.policy_ v (Str.codes "policy") h) refl
  apply-taken b (before v) h = rw (set_once-taken before b.before_ v (Str.codes "before") h) refl
  apply-taken b (map v) h = rw (set_once-taken map b.map_ v (Str.codes "map") h) refl
  apply-taken b (query v) h = rw (set_once-taken query b.query_type v (Str.codes "query") h) refl
  apply-taken b (json_arg v) h = rw (set_data-taken b.data_ (json v) h) refl
  apply-taken b (form_arg v) h = rw (set_data-taken b.data_ (form v) h) refl
  apply-taken b (path_type v) h =
      rw (set_once-taken path_type b.path_type_ v (Str.codes "path") h) refl
  apply-taken b multipart_flag h = rw (set_data-taken b.data_ multipart h) refl

  held-empty : (s : Slot) → held (no_args syn) s ≡ none
  held-empty = by_slot _ refl refl refl refl refl refl refl

  -- Every argument finds its slot free.
  abbrev fits : Builder → List Arg → Bool
  fits b [] = true
  fits b (a ∷ args) = not (is_some (held b (slot a))) && fits b args

  -- Setting a free slot leaves room for those that want another.
  fits-next :
      (b b' : Builder) (a : Arg) (args : List Arg)
      → ((s : Slot) → held b' s ≡ (if same (slot a) s then some a else held b s))
      → fits b' args ≡ (fits b args && not (is_some (given args (slot a))))
  fits-next b b' a [] h = refl
  fits-next b b' a (x ∷ args) h =
      rw (h (slot x), fits-next b b' a args h, same_comm (slot x) (slot a))
        (room a x (same (slot a) (slot x)) (held b (slot x)) (fits b args) (given args (slot a)))

  and_last : (p q r : Bool) → ((p && q) && r) ≡ (p && (q && r))
  and_last true q r = refl
  and_last false q r = refl

  is_ok-apply_all :
      (b : Builder) (args : List Arg) → is_ok (apply_all b args) ≡ (fits b args && distinct args)
  unfolding apply_all
  is_ok-apply_all b [] = refl
  is_ok-apply_all b (a ∷ args) = elim (Option-cases (held b (slot a))) [
    | inl free ↦
        let (b', set, now) = apply-free b a free in
        rw (set, free, is_ok-apply_all b' args, fits-next b b' a args now)
          (and_last (fits b args) (not (is_some (given args (slot a)))) (distinct args))
    | inr (x, taken) ↦
        rw taken (stops (apply syn b a) (λ b'. apply_all b' args) (apply-taken b a taken))
  ]

  apply_all-held :
      (b b' : Builder) (args : List Arg)
      → apply_all b args ≡ ok b'
      → (s : Slot) → held b' s ≡ or_else (held b s) (given args s)
  unfolding apply_all
  apply_all-held b b' [] h s = ap (λ b. held b s) (sym (ok_inj h)) ∙ or_else-none (held b s)
  apply_all-held b b' (a ∷ args) h s = elim (Option-cases (held b (slot a))) [
    | inl free ↦
        let (b1, set, now) = apply-free b a free in
        apply_all-held b1 b' args (sym (rw set refl) ∙ h) s
        ∙ rw (now s) (
            merge a (same (slot a) s) (held b s) (given args s)
              (λ e. sym (ap (held b) (same→eq (slot a) s e)) ∙ free))
    | inr (x, taken) ↦ cc (stops (apply syn b a) (λ b'. apply_all b' args) (apply-taken b a taken))
  ]

  fits-empty : (args : List Arg) → fits (no_args syn) args ≡ true
  fits-empty [] = refl
  fits-empty (a ∷ args) = rw (held-empty (slot a)) (fits-empty args)

  is_ok-built :
      (r : Result ArgsError Builder) (path : Str)
      → is_ok (r >>= λ b. ok (build_args syn b path)) ≡ is_ok r
  is_ok-built (ok b) path = refl
  is_ok-built (err e) path = refl

  -- What the parser makes of each argument.
  abbrev pub parse_each : List (RawArg syn.Tokens) → Result ArgsError (List Arg)
  parse_each [] = ok []
  parse_each (raw ∷ rest) =
      parse_route_arg syn raw >>= λ arg. parse_each rest >>= λ args. ok (arg ∷ args)

  parse_loop-parsed :
      (b : Builder) (raws : List (RawArg syn.Tokens)) (args : List Arg)
      → parse_each raws ≡ ok args
      → parse_loop syn b raws ≡ apply_all b args
  unfolding parse_loop apply_all
  parse_loop-parsed b [] args h = rw (← ok_inj h) refl
  parse_loop-parsed b (raw ∷ rest) args h =
      let (arg, later, here) = bind-ok (parse_route_arg syn raw) _ h in
      let (rest', e, parsed) = bind-ok (parse_each rest) _ later in
      rw (here, ← ok_inj e)
        (ap (λ k. apply syn b arg >>= k) (fun_ext λ b'. parse_loop-parsed b' rest rest' parsed))

  -- Route arguments that parse one by one are accepted exactly when no slot is given twice, `json`,
  -- `form` and `multipart` being one slot. If they are accepted, each slot holds what they give it,
  -- and a slot that they do not give is empty.
  pub parse_route_args-distinct :
      (path : Str) (raws : List (RawArg syn.Tokens)) (args : List Arg)
      → parse_each raws ≡ ok args
      → (is_ok (parse_route_args syn path raws) ≡ distinct args)
        × ((b : Builder)
            → parse_loop syn (no_args syn) raws ≡ ok b
            → (s : Slot) → held b s ≡ given args s)
  unfolding parse_route_args
  parse_route_args-distinct path raws args h =
      let e = parse_loop-parsed (no_args syn) raws args h in
      (
        is_ok-built (parse_loop syn (no_args syn) raws) path
            ∙ ap is_ok e
            ∙ is_ok-apply_all (no_args syn) args
            ∙ rw (fits-empty args) refl,
        λ b set s. apply_all-held (no_args syn) b args (sym e ∙ set) s ∙ rw (held-empty s) refl,
      )
