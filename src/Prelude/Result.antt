-- ===== src/Prelude/Result.antt =====
-- `anyhow::Result`: a value, or an error with its message.
use mathlib.Core.Path.{◌≡◌, refl}
use mathlib.Core.Bool.{Bool, true, false}
use mathlib.Core.Option.{Option, none, some}
use mathlib.Core.Logic.{◌⊎◌, inl, inr}
use native.Mathlib.Omega.{arith}
use ai_channel.Prelude.Text.{Text}

pub data Result {ℓ} (A : Type ℓ) : Type ℓ where
  err : Text → Result A
  ok : A → Result A

-- a result is a value or an error, with the equation
pub Result-cases {ℓ} :
    {A : Type ℓ} (r : Result A) → ((a : A) × (r ≡ ok a)) ⊎ ((e : Text) × (r ≡ err e))
Result-cases (err e) = inr (e, refl)
Result-cases (ok a) = inl (a, refl)

module _ {ℓ} {A : Type ℓ} where
  -- `Option::context`
  abbrev pub context : Option A → Text → Result A
  context none message = err message
  context (some a) message = ok a

  -- `Result::map_err`, on the message
  abbrev pub map_err : (Text → Text) → Result A → Result A
  map_err f (ok a) = ok a
  map_err f (err message) = err (f message)

infixl 5 ◌>>=◌ ◌>>◌
-- the `?` operator: the rest runs on the value
abbrev pub ◌>>=◌ {ℓ κ} : {A : Type ℓ} {B : Type κ} → Result A → (A → Result B) → Result B
err message >>= rest = err message
ok a >>= rest = rest a

-- the `?` operator on a check
abbrev pub ◌>>◌ {ℓ} : {B : Type ℓ} → Result (Unit {0}) → Result B → Result B
check >> rest = check >>= λ u. rest

-- `if !test { bail!(message) }`
abbrev pub ensure : Bool → Text → Result (Unit {0})
ensure false message = err message
ensure true message = ok tt

-- a chain that returns has returned at each step
pub bind-ok {ℓ κ} :
    {A : Type ℓ} {B : Type κ} (r : Result A) (f : A → Result B) (b : B)
    → (r >>= f) ≡ ok b
    → (a : A) × (r ≡ ok a) × (f a ≡ ok b)
bind-ok (err e) f b h = absurd (ground arith)
bind-ok (ok a) f b h = (a, refl, h)

pub check-ok {ℓ} :
    {B : Type ℓ} (r : Result (Unit {0})) (rest : Result B) (b : B)
    → (r >> rest) ≡ ok b
    → (r ≡ ok tt) × (rest ≡ ok b)
check-ok (err e) rest b h = absurd (ground arith)
check-ok (ok a) rest b h = (refl, h)

pub map_err-ok {ℓ} :
    {A : Type ℓ} (f : Text → Text) (r : Result A) (a : A) → map_err f r ≡ ok a → r ≡ ok a
map_err-ok f (err e) a h = absurd (ground arith)
map_err-ok f (ok b) a h = ground arith

pub ensure-ok : (test : Bool) (message : Text) → ensure test message ≡ ok tt → test ≡ true
ensure-ok false message h = absurd (ground arith)
ensure-ok true message h = refl

pub context-ok {ℓ} :
    {A : Type ℓ} (o : Option A) (message : Text) (a : A) → context o message ≡ ok a → o ≡ some a
context-ok none message a h = absurd (ground arith)
context-ok (some b) message a h = ground arith
