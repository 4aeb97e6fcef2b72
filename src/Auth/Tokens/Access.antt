-- ===== src/Auth/Tokens/Access.antt =====
-- Who is let in with the tokens of app/core/security.py.
use unitra_service_api.Common.{
  ℕ, ◌*◌, ◌/◌, ◌≡◌, refl, ap, ◌∙◌, Option, none, some, [], ◌∷◌, ◌++◌, ltb, if◌then◌else◌, arith,
  Bool-cases, inl, inr,
}
use unitra_service_api.Common.Int.{ℤ}
use unitra_service_api.Common.Text.{Text, codes, text_eq}
use unitra_service_api.Common.Str.{Lowering}
use unitra_service_api.Common.Search.{contains_text, bearer, starts_with-bearer}
use unitra_service_api.Errors.{AppException, message}
use unitra_service_api.Auth.Jwt.{Jwt, Claims}
use unitra_service_api.Auth.Tokens.{
  Settings, accepted, refused, expiry, delta_or, stamped, create_access_token, create_refresh_token,
  verify_token, subject, reclassified, checked_subject, get_current_user_id,
}

abbrev pub too_late : AppException
too_late = AppException.authentication (codes "Invalid token: Signature has expired.") []

abbrev other_type : Text → AppException
other_type wanted = AppException.authentication (codes "Invalid token type: expected " ++ wanted) []

module _ (J : Jwt) (settings : Settings) (now : ℕ) (data_claims : Claims) (exp : ℕ)
    (kind jti wanted : Text) where
  -- A token without an audience is judged by its expiry, and then by its type.
  verify_stamped :
      data_claims.aud ≡ none
      → let token =
          J.encode settings.secret_key settings.algorithm (stamped data_claims exp kind jti) in
        verify_token J settings now token wanted ≡ (
          if ltb exp (now / 1000000)
          then refused too_late
          else if text_eq kind wanted
          then accepted (stamped data_claims exp kind jti)
          else refused (other_type wanted))
  unfolding verify_token
  verify_stamped no_audience =
      let read =
        J.decode-encode settings.secret_key settings.algorithm none now
          (stamped data_claims exp kind jti) in
      elim (Bool-cases (ltb exp (now / 1000000))) [
        | inl e ↦ rw (verify_token, read, e) refl
        | inr e ↦ elim (Bool-cases (text_eq kind wanted)) [
          | inl f ↦ rw (verify_token, read, e, no_audience, f) refl
          | inr f ↦ rw (verify_token, read, e, no_audience, f) refl
        ]
      ]

module _ (J : Jwt) (L : Lowering) (settings : Settings) where
  pub too_late_expired : reclassified J L settings too_late ≡ AppException.token_expired
  unfolding reclassified message contains_text
  too_late_expired =
      rw (L.lower-ascii (codes "Invalid token: Signature has expired.") (omega arith)) refl

  other_type_invalid :
      reclassified J L settings (other_type (codes "access"))
      ≡ AppException.token_invalid (codes "Invalid token type: expected access")
  unfolding reclassified message contains_text
  other_type_invalid =
      rw (L.lower-ascii (codes "Invalid token type: expected access") (omega arith)) refl

  pub bearer_subject :
      (now : ℕ) (token : Text)
      → get_current_user_id J L settings now (some (bearer ++ token))
        ≡ checked_subject J L settings (verify_token J settings now token (codes "access"))
  unfolding get_current_user_id
  bearer_subject now token = rw (starts_with-bearer token) refl

  -- An access token for a user, made without an audience, lets that user in until its expiry, and is
  -- answered with TokenExpiredError afterwards.
  pub access_token_round_trip :
      (jti : Text) (made now : ℕ) (data_claims : Claims) (expires_delta : Option ℤ) (c : ℕ)
      (user_id : Text)
      → data_claims.sub ≡ some (c ∷ user_id)
      → data_claims.aud ≡ none
      → let token = create_access_token J settings jti made data_claims expires_delta in
        let default = settings.access_token_expire_minutes * 60000000 in
        let exp = expiry made (delta_or expires_delta default) in
        get_current_user_id J L settings now (some (bearer ++ token)) ≡ (
          if ltb exp (now / 1000000)
          then refused AppException.token_expired
          else accepted (c ∷ user_id))
  unfolding create_access_token checked_subject subject text_eq
  access_token_round_trip jti made now data_claims expires_delta c user_id is_sub no_audience =
      let default = settings.access_token_expire_minutes * 60000000 in
      let exp = expiry made (delta_or expires_delta default) in
      let verified =
        verify_stamped J settings now data_claims exp (codes "access") jti (codes "access")
          no_audience in
      bearer_subject now _ ∙ elim (Bool-cases (ltb exp (now / 1000000))) [
        | inl e ↦ rw (verified, e) (ap refused too_late_expired)
        | inr e ↦ rw (verified, e) (rw is_sub refl)
      ]

  -- A refresh token made without an audience never lets anyone in as an access token does: it is
  -- answered with TokenInvalidError until its expiry, and with TokenExpiredError afterwards.
  refresh_token_no_access :
      (jti : Text) (made now : ℕ) (data_claims : Claims) (expires_delta : Option ℤ)
      → data_claims.aud ≡ none
      → let token = create_refresh_token J settings jti made data_claims expires_delta in
        let default = settings.refresh_token_expire_days * 86400000000 in
        let exp = expiry made (delta_or expires_delta default) in
        get_current_user_id J L settings now (some (bearer ++ token))
        ≡ refused (
            if ltb exp (now / 1000000)
            then AppException.token_expired
            else AppException.token_invalid (codes "Invalid token type: expected access"))
  unfolding create_refresh_token checked_subject text_eq
  refresh_token_no_access jti made now data_claims expires_delta no_audience =
      let default = settings.refresh_token_expire_days * 86400000000 in
      let exp = expiry made (delta_or expires_delta default) in
      let verified =
        verify_stamped J settings now data_claims exp (codes "refresh") jti (codes "access")
          no_audience in
      bearer_subject now _ ∙ elim (Bool-cases (ltb exp (now / 1000000))) [
        | inl e ↦ rw (verified, e) (ap refused too_late_expired)
        | inr e ↦ rw (verified, e) (ap refused other_type_invalid)
      ]
