-- ===== src/Api/Action/Errors.antt =====
-- What every error of an outcome, or of a step from any state, satisfies.
use unitra_service_api.Common.{Bool, true, false, if◌then◌else◌}
use unitra_service_api.Errors.Handlers.{Raised}
use unitra_service_api.Api.Action.{Outcome, returned, raised, Action, pure, lift, raise_if, ◌>>=◌}

abbrev pub ErrorIs : (Raised → Type 0) → {A : Type 0} → Outcome A → Type 0
ErrorIs P (returned _) = Unit
ErrorIs P (raised e) = P e

-- Whatever state the step starts from, what it raises satisfies `P`.
pub record OnlyRaises (P : Raised → Type 0) {S A : Type 0} (m : Action S A) : Type 0 where
  pub error_is : (s : S) → ErrorIs P (m s).0

module _ (P : Raised → Type 0) where
  pub ErrorIs-if_else :
      {A : Type 0} (c : Bool) (a : A) (e : Raised)
      → P e
      → ErrorIs P (if c then returned a else raised e)
  ErrorIs-if_else true a e h = tt
  ErrorIs-if_else false a e h = h

module _ {P : Raised → Type 0} {S : Type 0} where
  pub OnlyRaises-lift : {A : Type 0} {o : Outcome A} → ErrorIs P o → OnlyRaises P {S = S} (lift o)
  OnlyRaises-lift h = record { error_is = λ s. h }

  pub OnlyRaises-pure : {A : Type 0} {a : A} → OnlyRaises P {S = S} (pure a)
  OnlyRaises-pure = record { error_is = λ s. tt }

  pub OnlyRaises-raise_if : (c : Bool) (e : Raised) → P e → OnlyRaises P {S = S} (raise_if c e)
  OnlyRaises-raise_if true e h = record { error_is = λ s. h }
  OnlyRaises-raise_if false e h = record { error_is = λ s. tt }

  bind_run :
      {A B : Type 0} (f : A → Action S B) (r : Outcome A × S) (s : S)
      → ErrorIs P r.0
      → ((a : A) → OnlyRaises P (f a))
      → ErrorIs P (((λ (_ : S). r) >>= f) s).0
  bind_run f (returned a, s') s h k = (k a).error_is s'
  bind_run f (raised e, s') s h k = h

  pub OnlyRaises-bind :
      {A B : Type 0} {m : Action S A} {f : A → Action S B}
      → OnlyRaises P m
      → ((a : A) → OnlyRaises P (f a))
      → OnlyRaises P (m >>= f)
  OnlyRaises-bind {A} {B} {m} {f} h k = record {
    error_is = λ s. bind_run f (m s) s (h.error_is s) k;
  }
