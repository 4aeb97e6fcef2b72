-- ===== src/Api/Action.antt =====
-- How a request handler ends, and handlers as steps on a state: it returns or raises, and what it
-- wrote before it raised stays written.
pub mod Errors
use unitra_service_api.Common.{◌≡◌, ap, Bool, if◌then◌else◌}
use unitra_service_api.Errors.Handlers.{Raised}

pub data Outcome (A : Type 0) : Type 0 where
  returned : A → Outcome A
  raised : Raised → Outcome A

abbrev pub Action : Type 0 → Type 0 → Type 0
Action S A = S → Outcome A × S

module _ {S A : Type 0} where
  abbrev pub pure : A → Action S A
  pure a s = (returned a, s)

  abbrev pub raise : Raised → Action S A
  raise e s = (raised e, s)

  abbrev pub lift : Outcome A → Action S A
  lift o s = (o, s)

infixl 5 ◌>>=◌ ◌>>◌
abbrev pub ◌>>=◌ : {S A B : Type 0} → Action S A → (A → Action S B) → Action S B
◌>>=◌ m f s = let (o, s') = m s in elim o [ returned a ↦ f a s' | raised e ↦ raise e s' ]

abbrev pub ◌>>◌ : {S A B : Type 0} → Action S A → Action S B → Action S B
m >> k = m >>= λ _. k

abbrev pub raise_if : {S : Type 0} → Bool → Raised → Action S Unit
raise_if c e s = (if c then raised e else returned tt, s)

module _ {S A B : Type 0} (m : Action S A) (f : A → Action S B) (s : S) where
  pub bind_returned : (a : A) (s' : S) → m s ≡ (returned a, s') → (m >>= f) s ≡ f a s'
  bind_returned a s' h = ap (λ (r : Outcome A × S). ((λ _. r) >>= f) s) h

  pub bind_raised : (e : Raised) (s' : S) → m s ≡ (raised e, s') → (m >>= f) s ≡ (raised e, s')
  bind_raised e s' h = ap (λ (r : Outcome A × S). ((λ _. r) >>= f) s) h

pub returned_injective : {A : Type 0} (a b : A) → returned a ≡ returned b → a ≡ b
returned_injective a b h = cc

pub raised_returned : {A : Type 0} {a : A} {e : Raised} → raised e ≡ returned a → ⊥
raised_returned h = cc
