-- ===== src/Common/Search.antt =====
-- Python's `startswith`, `in` and `replace(old, "")` on texts.
use unitra_service_api.Common.Tests.{◌==◌, if◌then◌else◌, Bool-cases}
use unitra_service_api.Common.Lists.{length, All}
use unitra_service_api.Common.Text.{Text, codes}
use Prim.Native.Nat.{ℕ, zero, suc, ◌-◌}
use mathlib.Core.Path.{◌≡◌, refl, ap}
use mathlib.Core.Logic.{◌≢◌, inl, inr}
use mathlib.Core.Bool.{Bool, true, false, ◌||◌}
use mathlib.Core.List.{[], ◌∷◌, ◌++◌}
use native.Mathlib.Omega.{arith}

-- the prefix first
unfoldable pub starts_with : Text → Text → Bool
starts_with [] s = true
starts_with (c ∷ p) [] = false
starts_with (c ∷ p) (d ∷ s) = if c == d then starts_with p s else false

-- `part in s`
unfoldable pub contains_text : Text → Text → Bool
unfolding starts_with
contains_text part [] = starts_with part []
contains_text part (c ∷ s) = starts_with part (c ∷ s) || contains_text part s

-- What is left when the occurrences of `old` are taken out from the left; the first `skip`
-- characters belong to an occurrence that was found.
unfoldable pub remove_from : Text → ℕ → Text → Text
unfolding starts_with
remove_from old skip [] = []
remove_from old (suc skip) (c ∷ s) = remove_from old skip s
remove_from old zero (c ∷ s) =
    let found = remove_from old (length old - 1) s in
    let rest = remove_from old 0 s in if starts_with old (c ∷ s) then found else c ∷ rest

-- `s.replace(old, "")`
unfoldable pub remove_all : Text → Text → Text
unfolding remove_from
remove_all old s = remove_from old 0 s

abbrev pub NoSpace : Text → Type 0
NoSpace s = All (λ c. c ≢ 32) s

-- A text with a space in it begins nowhere in a text without.
starts_with-NoSpace : (p q s : Text) → NoSpace s → starts_with (p ++ (32 ∷ q)) s ≡ false
unfolding starts_with
starts_with-NoSpace [] q [] h = refl
starts_with-NoSpace (c ∷ p) q [] h = refl
starts_with-NoSpace [] q (d ∷ s) h = elim (Bool-cases (32 == d)) [
  | inl e ↦ let no : ⊥ = h.0 (ground arith) in elim no [ ]
  | inr e ↦ rw e refl
]
starts_with-NoSpace (c ∷ p) q (d ∷ s) h = elim (Bool-cases (c == d)) [
  | inl e ↦ rw e (starts_with-NoSpace p q s h.1)
  | inr e ↦ rw e refl
]

remove_from-NoSpace : (p q s : Text) → NoSpace s → remove_from (p ++ (32 ∷ q)) 0 s ≡ s
unfolding remove_from
remove_from-NoSpace p q [] h = refl
remove_from-NoSpace p q (c ∷ s) h =
    rw (starts_with-NoSpace p q (c ∷ s) h) (ap (λ l. c ∷ l) (remove_from-NoSpace p q s h.1))

-- The scheme of an Authorization header.
abbrev pub bearer : Text
bearer = codes "Bearer "

-- Taking the scheme out of a header leaves the token, if that has no space.
pub remove_all-bearer : (token : Text) → NoSpace token → remove_all bearer (bearer ++ token) ≡ token
unfolding remove_all
remove_all-bearer token h = remove_from-NoSpace (codes "Bearer") [] token h

pub starts_with-bearer : (token : Text) → starts_with bearer (bearer ++ token) ≡ true
unfolding starts_with
starts_with-bearer token = refl
