-- ===== src/Macros/Expand/Fns/Borrows.antt =====
-- The borrows that the generated bindings of apigate-macros/src/expand.rs take: Rust's rules for the
-- mutable borrows `ctx` and `scope`, with every parameter alive to the end of the function.
use apigate.Prelude.{
  ℕ, zero, suc, ◌≡◌, refl, sym, ◌∙◌, ap, List, [], ◌∷◌, ◌++◌, Bool, false, Option, none, some,
  is_some, is_ok, ltb, arith,
}
use apigate.Str.{Str}
use apigate.Macros.Expand.{ParamSource, ParamPlan, Ty}
use apigate.Macros.Expand.Fns.{
  BorrowSummary, count_source, summarize, check_summary, no_borrows, validate_plans, Binding,
  let_ctx, let_scope, let_take, let_raw, let_get, let_get_mut, Tokens, push_token, push_tokens,
  no_tokens, chain, build_bindings,
}

pub data Borrow : Type 0 where
  free shared exclusive : Borrow

-- How `ctx` and `scope` are borrowed; `none` after a conflict.
abbrev pub Borrows : Type 0
Borrows = Option (Borrow × Borrow)

-- `&mut` for as long as the binding lives
pub exclusively : Borrow → Option Borrow
exclusively Borrow.free = some Borrow.exclusive
exclusively _ = none

-- `&` for as long as the binding lives
pub sharing : Borrow → Option Borrow
sharing Borrow.exclusive = none
sharing _ = some Borrow.shared

-- `&mut` for the call only
pub changing : Borrow → Option Borrow
changing Borrow.free = some Borrow.free
changing _ = none

-- `&` for the call only
pub reading : Borrow → Option Borrow
reading Borrow.exclusive = none
reading b = some b

pub on_ctx : (Borrow → Option Borrow) → Borrows → Borrows
on_ctx f none = none
on_ctx f (some (c, s)) = elim (f c) [ none ↦ none | some c' ↦ some (c', s) ]

pub on_scope : (Borrow → Option Borrow) → Borrows → Borrows
on_scope f none = none
on_scope f (some (c, s)) = elim (f s) [ none ↦ none | some s' ↦ some (c, s') ]

pub bind : Binding → Borrows → Borrows
unfolding exclusively sharing changing reading on_ctx on_scope
bind (let_ctx pat ty) = on_ctx exclusively
bind (let_scope pat ty) = on_scope exclusively
bind (let_take pat ty) = on_scope changing
bind (let_raw pat ty) = on_scope reading
bind (let_get pat ty inner) = on_scope sharing
bind (let_get_mut pat ty inner) = on_scope exclusively

pub bind_all : List Binding → Borrows → Borrows
unfolding bind
bind_all [] b = b
bind_all (x ∷ xs) b = bind_all xs (bind x b)

-- Every `let` is accepted.
unfoldable pub borrow_check : List Binding → Bool
unfolding bind_all
borrow_check xs = is_some (bind_all xs (some (Borrow.free, Borrow.free)))

bind_all-append :
    (xs ys : List Binding) (b : Borrows) → bind_all (xs ++ ys) b ≡ bind_all ys (bind_all xs b)
unfolding bind_all
bind_all-append [] ys b = refl
bind_all-append (x ∷ xs) ys b = bind_all-append xs ys (bind x b)

bind_all-none : (xs : List Binding) → bind_all xs none ≡ none
unfolding bind_all bind
bind_all-none [] = refl
bind_all-none (let_ctx pat ty ∷ xs) = bind_all-none xs
bind_all-none (let_scope pat ty ∷ xs) = bind_all-none xs
bind_all-none (let_take pat ty ∷ xs) = bind_all-none xs
bind_all-none (let_raw pat ty ∷ xs) = bind_all-none xs
bind_all-none (let_get pat ty inner ∷ xs) = bind_all-none xs
bind_all-none (let_get_mut pat ty inner ∷ xs) = bind_all-none xs

abbrev times : ℕ → (Borrows → Borrows) → Borrows → Borrows
times zero f b = b
times (suc n) f b = f (times n f b)

-- What the lists of tokens do, by the counts of the check.
record Counts (t : Tokens) (s : BorrowSummary) : Type 0 where
  raw : (c : Borrow) → bind_all t.raw_tokens (some (c, Borrow.free)) ≡ some (c, Borrow.free)
  take : (c : Borrow) → bind_all t.take_tokens (some (c, Borrow.free)) ≡ some (c, Borrow.free)
  ctx : (b : Borrows) → bind_all t.ctx_tokens b ≡ times s.seen_ctx (on_ctx exclusively) b
  get :
      (b : Borrows)
      → bind_all t.get_tokens b ≡ times s.immut_borrowed_from_scope (on_scope sharing) b
  get_mut :
      (b : Borrows)
      → bind_all t.get_mut_tokens b ≡ times s.mut_borrowed_from_scope (on_scope exclusively) b
  scope : (b : Borrows) → bind_all t.scope_tokens b ≡ times s.seen_scope (on_scope exclusively) b

-- One more token of a kind.
snoc :
    (xs : List Binding) (x : Binding) (b c : Borrows)
    → bind_all xs b ≡ c
    → bind_all (xs ++ x ∷ []) b ≡ bind x c
unfolding bind_all
snoc xs x b c e = bind_all-append xs (x ∷ []) b ∙ ap (bind x) e

push_token-Counts :
    (t : Tokens) (s : BorrowSummary) (pat : Str) (ty : Ty) (source : ParamSource)
    → Counts t s
    → Counts (push_token t pat ty source) (count_source s source)
unfolding push_token count_source bind
push_token-Counts t s pat ty ParamSource.parts_ctx h = record {
  raw = h.raw;
  take = h.take;
  ctx = λ b. snoc t.ctx_tokens (let_ctx pat ty) b _ (h.ctx b);
  get = h.get;
  get_mut = h.get_mut;
  scope = h.scope;
}
push_token-Counts t s pat ty ParamSource.request_scope h = record {
  raw = h.raw;
  take = h.take;
  ctx = h.ctx;
  get = h.get;
  get_mut = h.get_mut;
  scope = λ b. snoc t.scope_tokens (let_scope pat ty) b _ (h.scope b);
}
push_token-Counts t s pat ty ParamSource.scope_take h = record {
  raw = h.raw;
  take = λ c. snoc t.take_tokens (let_take pat ty) (some (c, Borrow.free)) _ (h.take c);
  ctx = h.ctx;
  get = h.get;
  get_mut = h.get_mut;
  scope = h.scope;
}
push_token-Counts t s pat ty (ParamSource.scope_ref inner) h = record {
  raw = h.raw;
  take = h.take;
  ctx = h.ctx;
  get = λ b. snoc t.get_tokens (let_get pat ty inner) b _ (h.get b);
  get_mut = h.get_mut;
  scope = h.scope;
}
push_token-Counts t s pat ty (ParamSource.scope_mut inner) h = record {
  raw = h.raw;
  take = h.take;
  ctx = h.ctx;
  get = h.get;
  get_mut = λ b. snoc t.get_mut_tokens (let_get_mut pat ty inner) b _ (h.get_mut b);
  scope = h.scope;
}
push_token-Counts t s pat ty ParamSource.raw_body h = record {
  raw = λ c. snoc t.raw_tokens (let_raw pat ty) (some (c, Borrow.free)) _ (h.raw c);
  take = h.take;
  ctx = h.ctx;
  get = h.get;
  get_mut = h.get_mut;
  scope = h.scope;
}

push_tokens-Counts :
    (t : Tokens) (s : BorrowSummary) (plans : List ParamPlan)
    → Counts t s
    → Counts (push_tokens t plans) (summarize s plans)
unfolding push_tokens summarize
push_tokens-Counts t s [] h = h
push_tokens-Counts t s (plan ∷ plans) h =
    push_tokens-Counts (push_token t plan.pat plan.ty plan.source) (count_source s plan.source)
      plans (push_token-Counts t s plan.pat plan.ty plan.source h)

times-none : (n : ℕ) (f : Borrows → Borrows) → f none ≡ none → times n f none ≡ none
times-none zero f h = refl
times-none (suc n) f h = ap f (times-none n f h) ∙ h

-- After two exclusive borrows nothing is left.
exclusive_twice :
    (n : ℕ) (c : Borrow) → times (suc (suc n)) (on_scope exclusively) (some (c, Borrow.free)) ≡ none
unfolding on_scope exclusively
exclusive_twice zero c = refl
exclusive_twice (suc n) c = ap (on_scope exclusively) (exclusive_twice n c)

exclusive_ctx_twice :
    (n : ℕ) (s : Borrow) → times (suc (suc n)) (on_ctx exclusively) (some (Borrow.free, s)) ≡ none
unfolding on_ctx exclusively
exclusive_ctx_twice zero s = refl
exclusive_ctx_twice (suc n) s = ap (on_ctx exclusively) (exclusive_ctx_twice n s)

sharing_many :
    (n : ℕ) (c : Borrow)
    → times (suc n) (on_scope sharing) (some (c, Borrow.free)) ≡ some (c, Borrow.shared)
unfolding on_scope sharing
sharing_many zero c = refl
sharing_many (suc n) c = ap (on_scope sharing) (sharing_many n c)

exclusive_shared :
    (n : ℕ) (c : Borrow) → times (suc n) (on_scope exclusively) (some (c, Borrow.shared)) ≡ none
unfolding on_scope exclusively
exclusive_shared zero c = refl
exclusive_shared (suc n) c = ap (on_scope exclusively) (exclusive_shared n c)

exclusive_again :
    (n : ℕ) (c : Borrow) → times (suc n) (on_scope exclusively) (some (c, Borrow.exclusive)) ≡ none
unfolding on_scope exclusively
exclusive_again zero c = refl
exclusive_again (suc n) c = ap (on_scope exclusively) (exclusive_again n c)

abbrev scope_phase : (get get_mut scope : ℕ) → Borrows → Borrows
scope_phase g m s b =
    times s (on_scope exclusively) (times m (on_scope exclusively) (times g (on_scope sharing) b))

abbrev counted : (c s g m : ℕ) → BorrowSummary
counted c s g m = record {
  seen_ctx = c;
  seen_scope = s;
  immut_borrowed_from_scope = g;
  mut_borrowed_from_scope = m;
}

scope_phase-none : (g m s : ℕ) → scope_phase g m s none ≡ none
unfolding on_scope
scope_phase-none g m s =
    rw
      (
        times-none g (on_scope sharing) refl,
        times-none m (on_scope exclusively) refl,
        times-none s (on_scope exclusively) refl,
      )
      refl

-- The scope part of the check, with `ctx` bound at most once.
scope_phase-lem :
    (b : Borrow) (c g m s : ℕ)
    → ltb 1 c ≡ false
    → is_some (scope_phase g m s (some (b, Borrow.free))) ≡ is_ok (check_summary (counted c s g m))
unfolding check_summary on_scope exclusively sharing
scope_phase-lem b c zero zero zero h = ground arith
scope_phase-lem b c zero zero (suc zero) h = ground arith
scope_phase-lem b c zero zero (suc (suc s)) h = rw (exclusive_twice s b) (ground arith)
scope_phase-lem b c zero (suc zero) zero h = ground arith
scope_phase-lem b c zero (suc zero) (suc s) h = rw (exclusive_again s b) (ground arith)
scope_phase-lem b c zero (suc (suc m)) s h =
    rw (exclusive_twice m b, times-none s (on_scope exclusively) refl) (ground arith)
scope_phase-lem b c (suc g) zero zero h = rw (sharing_many g b) (ground arith)
scope_phase-lem b c (suc g) zero (suc s) h =
    rw (sharing_many g b, exclusive_shared s b) (ground arith)
scope_phase-lem b c (suc g) (suc m) s h =
    rw (sharing_many g b, exclusive_shared m b, times-none s (on_scope exclusively) refl)
      (ground arith)

phases :
    (c g m s : ℕ)
    → is_some (scope_phase g m s (times c (on_ctx exclusively) (some (Borrow.free, Borrow.free))))
      ≡ is_ok (check_summary (counted c s g m))
unfolding on_ctx exclusively
phases zero g m s = scope_phase-lem Borrow.free 0 g m s refl
phases (suc zero) g m s = scope_phase-lem Borrow.exclusive 1 g m s refl
phases (suc (suc c)) g m s =
    rw (exclusive_ctx_twice c Borrow.free, scope_phase-none g m s)
      (unfold check_summary in ground arith)

-- Taking a value leaves the borrows as they are, whatever was done with `ctx`.
take_after :
    (t : Tokens) (n : ℕ)
    → ((c : Borrow) → bind_all t.take_tokens (some (c, Borrow.free)) ≡ some (c, Borrow.free))
    → bind_all t.take_tokens (times n (on_ctx exclusively) (some (Borrow.free, Borrow.free)))
      ≡ times n (on_ctx exclusively) (some (Borrow.free, Borrow.free))
unfolding on_ctx exclusively
take_after t zero h = h Borrow.free
take_after t (suc zero) h = h Borrow.exclusive
take_after t (suc (suc n)) h = rw (exclusive_ctx_twice n Borrow.free) (bind_all-none t.take_tokens)

chain-lem :
    (t : Tokens) (s : BorrowSummary)
    → Counts t s
    → bind_all (chain t) (some (Borrow.free, Borrow.free))
      ≡ scope_phase s.immut_borrowed_from_scope s.mut_borrowed_from_scope s.seen_scope
          (times s.seen_ctx (on_ctx exclusively) (some (Borrow.free, Borrow.free)))
unfolding chain
chain-lem t s h =
    rw
      (
        bind_all-append,
        h.raw Borrow.free,
        bind_all-append,
        h.ctx,
        bind_all-append,
        take_after t s.seen_ctx h.take,
        bind_all-append,
        h.get,
        bind_all-append,
        h.get_mut,
        h.scope,
      )
      refl

-- The check of the macro accepts the parameters exactly when Rust accepts the bindings that it writes
-- for them.
pub validate_plans-borrow_check :
    (plans : List ParamPlan) → is_ok (validate_plans plans) ≡ borrow_check (build_bindings plans)
unfolding validate_plans borrow_check build_bindings
validate_plans-borrow_check plans =
    let s = summarize no_borrows plans in
    let h = push_tokens-Counts no_tokens no_borrows plans (record {
      raw = λ c. refl;
      take = λ c. refl;
      ctx = λ b. refl;
      get = λ b. refl;
      get_mut = λ b. refl;
      scope = λ b. refl;
    }) in
    sym (
      ap is_some (chain-lem (push_tokens no_tokens plans) s h)
      ∙ phases s.seen_ctx s.immut_borrowed_from_scope s.mut_borrowed_from_scope s.seen_scope)
