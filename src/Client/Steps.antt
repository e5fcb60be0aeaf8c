-- ===== src/Client/Steps.antt =====
-- Steps that can fail and that change a state: what a step has changed before an error stays changed.
use ai_channel.Prelude.Result.{Result, ok, err}

abbrev pub Step : Type 0 → Type 0 → Type 0
Step S A = S → Result A × S

module _ {S : Type 0} where
  abbrev continue_with : {A B : Type 0} → Result A → S → (A → Step S B) → Result B × S
  continue_with (ok a) state rest = rest a state
  continue_with (err e) state rest = (err e, state)

  infixl 5 ◌>>=◌ ◌>>◌
  -- the `?` operator
  abbrev pub ◌>>=◌ : {A B : Type 0} → Step S A → (A → Step S B) → Step S B
  first >>= rest = λ state. (let (done, after) = first state in continue_with done after rest)

  abbrev pub ◌>>◌ : {B : Type 0} → Step S (Unit {0}) → Step S B → Step S B
  first >> rest = first >>= λ u. rest

  -- a result that changes nothing
  abbrev pub pure : {A : Type 0} → Result A → Step S A
  pure result state = (result, state)
