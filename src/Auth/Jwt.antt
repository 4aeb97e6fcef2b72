-- ===== src/Auth/Jwt.antt =====
-- The JSON web tokens that the program makes and reads with python-jose, and with fastapi-users for
-- its login. The libraries are not in the repository: they are a parameter, with what their
-- documentation says of a token that is read with the key and the algorithm that it was made with.
-- Clocks are in microseconds, the `exp` claim is in seconds.
pub mod Readable
use unitra_service_api.Common.{
  ℕ, ◌+◌, ◌/◌, ◌<◌, ◌≡◌, Bool, true, false, ◌||◌, Option, none, some, List, [], ◌∷◌, ltb,
  if◌then◌else◌,
}
use unitra_service_api.Common.Int.{ℤ}
use unitra_service_api.Common.Text.{Text, codes, text_eq}
use unitra_service_api.Common.Search.{NoSpace}

-- The claims that the program writes or reads.
pub record Claims : Type 0 where
  pub sub : Option Text
  pub aud : Option (List Text)
  pub jti : Option Text
  pub type : Option Text
  pub exp : Option ℕ
  pub tier : Option Text
  pub minutes_remaining : Option ℤ

-- What `jwt.decode` returns, or the text of its JWTError.
pub data Decoded : Type 0 where
  claims : Claims → Decoded
  jwt_error : Text → Decoded

abbrev pub is_past : ℕ → Option ℕ → Bool
is_past now none = false
is_past now (some exp) = ltb exp (now / 1000000)

abbrev pub is_one_of : Text → List Text → Bool
is_one_of t [] = false
is_one_of t (u ∷ us) = text_eq t u || is_one_of t us

-- A token without an audience is for any reader; one with an audience is for readers that name one
-- of it.
abbrev pub is_audience : Option Text → Option (List Text) → Bool
is_audience expected none = true
is_audience none (some allowed) = false
is_audience (some t) (some allowed) = is_one_of t allowed

-- How a well-signed token is judged.
abbrev pub judged : Option Text → ℕ → Claims → Decoded
judged audience now c =
    if is_past now c.exp
    then Decoded.jwt_error (codes "Signature has expired.")
    else if is_audience audience c.aud
    then Decoded.claims c
    else Decoded.jwt_error (codes "Invalid audience")

pub record Jwt : Type 0 where
  -- key, algorithm, claims
  pub encode : Text → Text → Claims → Text
  -- key, algorithms, audience, clock, token
  pub decode : Text → List Text → Option Text → ℕ → Text → Decoded
  -- fastapi-users: data, secret, lifetime in seconds, algorithm, clock
  pub generate_jwt : Claims → Text → ℕ → Text → ℕ → Text
  pub decode-encode :
      (key algorithm : Text) (audience : Option Text) (now : ℕ) (c : Claims)
      → decode key (algorithm ∷ []) audience now (encode key algorithm c) ≡ judged audience now c
  pub decode-generate_jwt :
      (key algorithm : Text) (audience : Option Text) (now made lifetime : ℕ) (c : Claims)
      → 0 < lifetime
      → decode key (algorithm ∷ []) audience now (generate_jwt c key lifetime algorithm made)
        ≡ judged audience now (record c { exp = some (made / 1000000 + lifetime) })
  -- the characters of a token are those of base64url and the dot
  pub encode-NoSpace : (key algorithm : Text) (c : Claims) → NoSpace (encode key algorithm c)
  pub generate_jwt-NoSpace :
      (key algorithm : Text) (made lifetime : ℕ) (c : Claims)
      → NoSpace (generate_jwt c key lifetime algorithm made)
