-- ===== src/Prelude/Command.antt =====
-- Commands over a state: they end with a result and a new state, or are at fault, or the model's
-- fuel for a loop was not enough.

use mathlib.Core.Path.{◌≡◌, subst}

-- A fault is the use of a null or dangling pointer; `out_of_fuel` is a loop cut short by the model.
pub data Run (S A : Type 0) : Type 0 where
  done : A → S → Run S A
  fault : Run S A
  out_of_fuel : Run S A

abbrev pub Cmd : Type 0 → Type 0 → Type 0
Cmd S A = S → Run S A

abbrev pub pure : {S A : Type 0} → A → Cmd S A
pure a w = done a w

module _ {S A B : Type 0} where
  abbrev pub and_then : Run S A → (A → Cmd S B) → Run S B
  and_then (done a w) k = k a w
  and_then fault k = fault
  and_then out_of_fuel k = out_of_fuel

  infixl 5 ◌>>=◌ ◌>>◌
  abbrev pub ◌>>=◌ : Cmd S A → (A → Cmd S B) → Cmd S B
  m >>= k = λ w. and_then (m w) k

  abbrev pub ◌>>◌ : Cmd S A → Cmd S B → Cmd S B
  m >> n = m >>= λ _. n

module _ {S : Type 0} where
  abbrev pub get : Cmd S S
  get w = done w w

  abbrev pub put : S → Cmd S (Unit {0})
  put w _ = done tt w

  abbrev pub skip : Cmd S (Unit {0})
  skip = pure tt

-- Total correctness of a command: no fault, enough fuel, and a condition on the result.
pub data Returns {S A : Type 0} (P : A → S → Type 0) : Run S A → Type 0 where
  returns : {a : A} {w : S} → P a w → Returns P (done a w)

abbrev IfDone : {S A : Type 0} → (A → S → Type 0) → Run S A → Type 0
IfDone P (done a w) = P a w
IfDone P fault = Unit {0}
IfDone P out_of_fuel = Unit {0}

module _ {S A : Type 0} {P : A → S → Type 0} where
  pub bind :
      {B : Type 0} {Q : B → S → Type 0} {r : Run S A} {k : A → Cmd S B}
      → Returns P r
      → ((a : A) (w : S) → P a w → Returns Q (k a w))
      → Returns Q (and_then r k)
  bind (returns p) rest = rest _ _ p

  pub weaken :
      {Q : A → S → Type 0} {r : Run S A}
      → Returns P r
      → ((a : A) (w : S) → P a w → Q a w)
      → Returns Q r
  weaken (returns p) f = returns (f _ _ p)

  Returns-IfDone : {r : Run S A} → Returns P r → IfDone P r
  Returns-IfDone (returns p) = p

  pub Returns-done : {a : A} {w : S} {r : Run S A} → Returns P r → r ≡ done a w → P a w
  Returns-done h e = subst (IfDone P) e (Returns-IfDone h)
