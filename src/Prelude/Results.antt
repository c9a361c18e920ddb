-- ===== src/Prelude/Results.antt =====
-- Rust's `Result`, and the outcome of code that can panic or that is run on fuel.
use mathlib.Core.Path.{◌≡◌, refl}
use mathlib.Core.Bool.{Bool, true, false}
use mathlib.Core.Option.{Option, none, some}
use mathlib.Core.Logic.{◌⊎◌, inl, inr}

pub data Result {ℓ κ} (E : Type ℓ) (A : Type κ) : Type (ℓ ⊔ κ) where
  ok : A → Result E A
  err : E → Result E A

infixl 5 ◌>>=◌
abbrev pub ◌>>=◌ {ℓ κ ι} :
    {E : Type ℓ} {A : Type κ} {B : Type ι} → Result E A → (A → Result E B) → Result E B
ok a >>= f = f a
err e >>= f = err e

-- `Option::ok_or`
abbrev pub ok_or {ℓ κ} : {E : Type ℓ} {A : Type κ} → Option A → E → Result E A
ok_or none e = err e
ok_or (some a) e = ok a

-- `Result::map_err`
abbrev pub map_err {ℓ κ ι} :
    {E : Type ℓ} {F : Type κ} {A : Type ι} → (E → F) → Result E A → Result F A
map_err f (ok a) = ok a
map_err f (err e) = err (f e)

abbrev pub is_ok {ℓ κ} : {E : Type ℓ} {A : Type κ} → Result E A → Bool
is_ok (ok a) = true
is_ok (err e) = false

-- What a chain that succeeds went through, the later step first.
pub bind-ok {ℓ κ ι} :
    {E : Type ℓ} {A : Type κ} {B : Type ι} (r : Result E A) (next : A → Result E B) {z : B}
    → (r >>= next) ≡ ok z
    → (x : A) × (next x ≡ ok z) × (r ≡ ok x)
bind-ok (err d) next done_ = cc
bind-ok (ok x) next done_ = (x, done_, refl)

pub Result-cases {ℓ κ} :
    {E : Type ℓ} {A : Type κ} (r : Result E A) → ((a : A) × (r ≡ ok a)) ⊎ ((e : E) × (r ≡ err e))
Result-cases (ok a) = inl (a, refl)
Result-cases (err e) = inr (e, refl)

-- What a computation comes to: a value, a panic, or no result within its fuel.
pub data Run {ℓ} (A : Type ℓ) : Type ℓ where
  done : A → Run A
  panic : Run A
  out_of_fuel : Run A

abbrev pub run_bind {ℓ κ} : {A : Type ℓ} {B : Type κ} → Run A → (A → Run B) → Run B
run_bind (done a) f = f a
run_bind panic f = panic
run_bind out_of_fuel f = out_of_fuel

-- An index or slice that the code takes without a test panics where it is out of range.
abbrev pub or_panic {ℓ} : {A : Type ℓ} → Option A → Run A
or_panic none = panic
or_panic (some a) = done a

-- The next step of a computation that can panic or fail.
abbrev pub run_then {ℓ κ ι} :
    {E : Type ℓ} {A : Type κ} {B : Type ι}
    → Run (Result E A)
    → (A → Run (Result E B))
    → Run (Result E B)
run_then (done (ok a)) f = f a
run_then (done (err e)) f = done (err e)
run_then panic f = panic
run_then out_of_fuel f = out_of_fuel

pub run_then-ok {ℓ κ ι} :
    {E : Type ℓ} {A : Type κ} {B : Type ι} (r : Run (Result E A)) (f : A → Run (Result E B)) (b : B)
    → run_then r f ≡ done (ok b)
    → (a : A) × (r ≡ done (ok a)) × (f a ≡ done (ok b))
run_then-ok (done (ok a)) f b h = (a, refl, h)
run_then-ok (done (err e)) f b h = cc
run_then-ok panic f b h = cc
run_then-ok out_of_fuel f b h = cc

pub run_bind-done {ℓ κ} :
    {A : Type ℓ} {B : Type κ} (r : Run A) (f : A → Run B) (b : B)
    → run_bind r f ≡ done b
    → (a : A) × (r ≡ done a) × (f a ≡ done b)
run_bind-done (done a) f b h = (a, refl, h)
run_bind-done panic f b h = cc
run_bind-done out_of_fuel f b h = cc

pub done-ok_inj {ℓ κ} :
    {E : Type ℓ} {A : Type κ} (a b : A)
    → ◌≡◌ {A = Run (Result E A)} (done (ok a)) (done (ok b))
    → a ≡ b
done-ok_inj a b h = cc

pub done_inj {ℓ} : {A : Type ℓ} {a b : A} → ◌≡◌ {A = Run A} (done a) (done b) → a ≡ b
done_inj h = cc

-- An error of a sequence is the error of its first part or of what follows.
pub run_then-err {ℓ κ ι} :
    {E : Type ℓ} {A : Type κ} {B : Type ι} (r : Run (Result E A)) (f : A → Run (Result E B)) (e : E)
    → run_then r f ≡ done (err e)
    → (r ≡ done (err e)) ⊎ ((a : A) × (r ≡ done (ok a)) × (f a ≡ done (err e)))
run_then-err (done (ok a)) f e h = inr (a, refl, h)
run_then-err (done (err e')) f e h = inl cc
run_then-err panic f e h = cc
run_then-err out_of_fuel f e h = cc

pub bind-err {ℓ κ ι} :
    {E : Type ℓ} {A : Type κ} {B : Type ι} (r : Result E A) (next : A → Result E B) {e : E}
    → (r >>= next) ≡ err e
    → (r ≡ err e) ⊎ ((x : A) × (r ≡ ok x) × (next x ≡ err e))
bind-err (err d) next h = inl cc
bind-err (ok x) next h = inr (x, refl, h)

pub map_err-err {ℓ κ ι} :
    {D : Type ℓ} {E : Type κ} {A : Type ι} (f : D → E) (r : Result D A) {e : E}
    → map_err f r ≡ err e
    → (d : D) × (r ≡ err d) × (e ≡ f d)
map_err-err f (err d) h = (d, refl, cc)
map_err-err f (ok x) h = cc
