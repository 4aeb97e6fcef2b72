-- ===== src/Auth/Sessions/Refresh.antt =====
-- Which tokens the refresh endpoint issues.
use unitra_service_api.Common.{
  ℕ, ◌*◌, ◌/◌, ◌≤◌, ◌≡◌, refl, ap, true, false, Option, none, some, [], ◌∷◌, ltb, if◌then◌else◌,
  arith, Bool-cases, ◌⊎◌, inl, inr,
}
use unitra_service_api.Common.Int.{ℤ}
use unitra_service_api.Common.Text.{Text, codes, text_eq, text_eq_iff}
use unitra_service_api.Redis.{is_token_blacklisted}
use unitra_service_api.Redis.Server.{RedisServer}
use unitra_service_api.Auth.Jwt.{Jwt, Claims, Decoded, claims, jwt_error}
use unitra_service_api.Auth.Tokens.{
  Settings, is_type, expiry, delta_or, stamped, create_refresh_token,
}
use unitra_service_api.Auth.Users.{User, write_token}
use unitra_service_api.Errors.Http.{responds, raises}
use unitra_service_api.Auth.Sessions.{
  issue, refresh_subject, is_revoked, non_empty, refresh_payload, refresh_token,
}

Decoded-cases :
    (d : Decoded)
    → ((payload : Claims) × (d ≡ Decoded.claims payload))
      ⊎ ((reason : Text) × (d ≡ Decoded.jwt_error reason))
Decoded-cases (claims payload) = inl (payload, refl)
Decoded-cases (jwt_error reason) = inr (reason, refl)

module _ (J : Jwt) (R : RedisServer) (settings : Settings) where
  open R use {Store}

  -- A refresh token made without an audience that has not expired gets its active user a new login
  -- token, unless the refresh token's id is on the blacklist: then it is answered with 401.
  pub refresh_round_trip :
      (c d : ℕ) (jti user_id new_jti : Text) (made now : ℕ) (data_claims : Claims)
      (expires_delta : Option ℤ) (users : Text → Option User) (user : User) (s : Store)
      → data_claims.sub ≡ some (c ∷ user_id)
      → data_claims.aud ≡ none
      → users (c ∷ user_id) ≡ some user
      → user.is_active ≡ true
      → let default = settings.refresh_token_expire_days * 86400000000 in
        now / 1000000 ≤ expiry made (delta_or expires_delta default)
        → let token = create_refresh_token J settings (d ∷ jti) made data_claims expires_delta in
          refresh_token J R settings new_jti now users token s ≡ (
            if is_token_blacklisted R (d ∷ jti) s
            then raises 401 (codes "Refresh token has been revoked")
            else responds (write_token J settings new_jti now user))
  unfolding refresh_token create_refresh_token refresh_payload refresh_subject is_revoked issue
      text_eq
  refresh_round_trip c d jti user_id new_jti made now data_claims expires_delta users user s is_sub
        no_audience found active fresh =
      let default = settings.refresh_token_expire_days * 86400000000 in
      let exp = expiry made (delta_or expires_delta default) in
      let payload = stamped data_claims exp (codes "refresh") (d ∷ jti) in
      let not_past : ltb exp (now / 1000000) ≡ false = ground arith in
      let read = J.decode-encode settings.secret_key settings.algorithm none now payload in
      elim (Bool-cases (is_token_blacklisted R (d ∷ jti) s)) [
        | inl e ↦ rw (refresh_token, read, not_past, no_audience, e) refl
        | inr e ↦ rw (refresh_token, read, not_past, no_audience, e, is_sub, found, active) refl
      ]

  -- How a refresh can succeed.
  pub record Issued (new_jti : Text) (now : ℕ) (users : Text → Option User) (s : Store)
      (issued : Text) (payload : Claims) (user_id : Text) (user : User) : Type 0 where
    pub kind : payload.type ≡ some (codes "refresh")
    pub not_revoked : is_revoked J R settings payload.jti s ≡ false
    pub subject : payload.sub ≡ some user_id
    pub found : users user_id ≡ some user
    pub active : user.is_active ≡ true
    pub is_issued : issued ≡ write_token J settings new_jti now user

  issue_sound :
      (new_jti : Text) (now : ℕ) (o : Option User) (issued : Text)
      → issue J R settings new_jti now o ≡ responds issued
      → (user : User) × (o ≡ some user)
        × (user.is_active ≡ true)
        × (issued ≡ write_token J settings new_jti now user)
  unfolding issue
  issue_sound new_jti now none issued h = cc
  issue_sound new_jti now (some user) issued h = elim (Bool-cases user.is_active) [
    | inl e ↦ (user, refl, e, responded (simp e at h))
    | inr e ↦ let no = rw e at h in cc
  ]
    where
      responded : {a b : Text} → responds a ≡ responds b → b ≡ a
      responded e = cc

  subject_of :
      (new_jti : Text) (now : ℕ) (users : Text → Option User) (issued : Text) (o : Option Text)
      → refresh_subject J R settings new_jti now users (non_empty o) ≡ responds issued
      → (user_id : Text) × (o ≡ some user_id)
        × (issue J R settings new_jti now (users user_id) ≡ responds issued)
  unfolding refresh_subject
  subject_of new_jti now users issued none g = cc
  subject_of new_jti now users issued (some []) g = cc
  subject_of new_jti now users issued (some (c ∷ u)) g = (c ∷ u, refl, g)

  payload_sound :
      (new_jti : Text) (now : ℕ) (users : Text → Option User) (payload : Claims) (s : Store)
      (issued : Text)
      → refresh_payload J R settings new_jti now users payload s ≡ responds issued
      → (user_id : Text) × (user : User) × Issued new_jti now users s issued payload user_id user
  unfolding refresh_payload
  payload_sound new_jti now users payload s issued h =
      elim (Bool-cases (is_type (codes "refresh") payload.type)) [
        | inr e ↦ let no = rw e at h in cc
        | inl e ↦ elim (Bool-cases (is_revoked J R settings payload.jti s)) [
          | inl f ↦ let no = rw (e, f) at h in cc
          | inr f ↦
              let (user_id, is_sub, g) =
                subject_of new_jti now users issued payload.sub (rw (e, f) at h) in
              let (user, found, active, is_issued) = issue_sound new_jti now _ issued g in
              (
                user_id,
                user,
                record {
                  kind = is_type-some payload.type e;
                  not_revoked = f;
                  subject = is_sub;
                  found = found;
                  active = active;
                  is_issued = is_issued;
                },
              )
        ]
      ]
    where
      is_type-some :
          (o : Option Text) → is_type (codes "refresh") o ≡ true → o ≡ some (codes "refresh")
      is_type-some none e = cc
      is_type-some (some t) e = ap some ((text_eq_iff t (codes "refresh")).0 e)

  -- If a refresh succeeds, then the token reads, with the key and without an audience, as a refresh
  -- token whose id is not on the blacklist, its subject is the id of an active user of the database,
  -- and what is issued is a new login token for exactly that user.
  pub refresh_token_sound :
      (new_jti : Text) (now : ℕ) (users : Text → Option User) (token : Text) (s : Store)
      (issued : Text)
      → refresh_token J R settings new_jti now users token s ≡ responds issued
      → (payload : Claims) × (user_id : Text) × (user : User) × (J.decode settings.secret_key
            (settings.algorithm ∷ [])
            none
            now
            token
          ≡ Decoded.claims payload)
        × Issued new_jti now users s issued payload user_id user
  unfolding refresh_token
  refresh_token_sound new_jti now users token s issued h =
      elim (Decoded-cases (J.decode settings.secret_key (settings.algorithm ∷ []) none now token)) [
        | inl (payload, e) ↦
            let (user_id, user, i) =
              payload_sound new_jti now users payload s issued (rw (refresh_token, e) at h) in
            (payload, user_id, user, e, i)
        | inr (reason, e) ↦ let no = rw (refresh_token, e) at h in cc
      ]
