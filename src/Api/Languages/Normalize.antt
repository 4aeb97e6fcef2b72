-- ===== src/Api/Languages/Normalize.antt =====
-- What `normalize_language` returns.
use mathlib.Core.Path.{subst}
use unitra_service_api.Common.{
  ◌&&◌, ltb, ltb→lt, and_true, ◌<◌, ◌≡◌, refl, Bool, true, List, [], ◌∷◌, map, All, inl, inr,
  Bool-cases,
}
use unitra_service_api.Common.Text.{Text, text_eq, text_eq_iff}
use unitra_service_api.Common.Str.{Lowering, strip, ascii_lower}
use unitra_service_api.Api.Action.{returned, returned_injective, raised_returned}
use unitra_service_api.Api.Languages.{
  supported_languages, lookup, contains, resolve_alias, normalize_language,
}

abbrev every : (Text → Bool) → List (Text × Text) → Bool
every p [] = true
every p ((k, v) ∷ d) = p k && every p d

-- What holds of every key of a dict holds of a key that it contains.
contains_key :
    (p : Text → Bool) (d : List (Text × Text))
    → every p d ≡ true
    → (key : Text) → contains key d ≡ true
    → p key ≡ true
unfolding contains
contains_key p [] all key h = absurd cc
contains_key p ((k, v) ∷ d) all key h = elim (Bool-cases (text_eq k key)) [
  | inl same ↦ subst (λ z. p z ≡ true) ((text_eq_iff k key).0 same) (and_true (p k) _ all).0
  | inr differ ↦ contains_key p d (and_true (p k) _ all).1 key (rw (contains, lookup, differ) at h)
]

abbrev is_ascii : Text → Bool
is_ascii [] = true
is_ascii (c ∷ s) = ltb c 128 && is_ascii s

ascii_All : (s : Text) → is_ascii s ≡ true → All (λ c. c < 128) s
ascii_All [] h = tt
ascii_All (c ∷ s) h =
    let both = and_true (ltb c 128) (is_ascii s) h in (ltb→lt c 128 both.0, ascii_All s both.1)

-- A code that stays itself, of ASCII characters.
abbrev is_normal : Text → Bool
is_normal code = text_eq (resolve_alias (strip (map ascii_lower code))) code && is_ascii code

supported_normal : every is_normal supported_languages ≡ true
unfolding resolve_alias strip text_eq
supported_normal = refl

module _ (L : Lowering) where
  normalize_language_supported :
      (code n : Text)
      → normalize_language L code ≡ returned n
      → contains n supported_languages ≡ true
  unfolding normalize_language
  normalize_language_supported code n h =
      let m = resolve_alias (strip (L.lower code)) in
      elim (Bool-cases (contains m supported_languages)) [
        | inl known ↦
            subst (λ z. contains z supported_languages ≡ true)
              (returned_injective m n (rw known at h)) known
        | inr unknown ↦ absurd (raised_returned (rw unknown at h))
      ]

  normalize_language_fixed :
      (code : Text)
      → contains code supported_languages ≡ true
      → normalize_language L code ≡ returned code
  unfolding normalize_language
  normalize_language_fixed code h =
      let both =
        and_true _ _ (contains_key is_normal supported_languages supported_normal code h) in
      let same = (text_eq_iff _ _).0 both.0 in
      rw (normalize_language, L.lower-ascii code (ascii_All code both.1), same, h) refl

  -- A code that `normalize_language` returns is a supported one, and normalizes to itself.
  pub normalize_language_normal :
      (code n : Text)
      → normalize_language L code ≡ returned n
      → (contains n supported_languages ≡ true) × (normalize_language L n ≡ returned n)
  normalize_language_normal code n h =
      let known = normalize_language_supported code n h in (known, normalize_language_fixed n known)
