-- ===== src/Auth/Sessions/Logout.antt =====
-- A token that was logged out with is on the blacklist.
use unitra_service_api.Common.{
  ℕ, ◌+◌, ◌-◌, ◌*◌, ◌/◌, ◌≤◌, ◌<◌, ◌≡◌, refl, ◌∙◌, true, false, some, [], ◌∷◌, ◌++◌, ltb, arith,
  ◌==◌,
}
use unitra_service_api.Common.Text.{Text, text_eq}
use unitra_service_api.Common.Search.{bearer, NoSpace, starts_with-bearer, remove_all-bearer}
use unitra_service_api.Redis.{is_token_blacklisted}
use unitra_service_api.Redis.Blacklist.{is_token_blacklisted-delete_session}
use unitra_service_api.Redis.Server.{RedisServer}
use unitra_service_api.Auth.Jwt.{Jwt, Claims, Decoded}
use unitra_service_api.Auth.Tokens.{Settings}
use unitra_service_api.Auth.Users.{User, audience, login_claims, write_token}
use unitra_service_api.Errors.Http.{responds}
use unitra_service_api.Auth.Sessions.{logged_out, revoke, logout}

module _ (J : Jwt) (settings : Settings) (jti : Text) (made now : ℕ) (user : User) where
  -- What a reader with the audience finds in a login token that has not expired.
  pub decode-write_token :
      0 < settings.jwt_lifetime_seconds
      → now / 1000000 ≤ made / 1000000 + settings.jwt_lifetime_seconds
      → J.decode settings.secret_key
          (settings.algorithm ∷ [])
          (some audience)
          now
          (write_token J settings jti made user)
        ≡ Decoded.claims (record (login_claims jti user) {
          exp = some (made / 1000000 + settings.jwt_lifetime_seconds);
        })
  unfolding write_token text_eq
  decode-write_token lives fresh =
      let not_past : ltb (made / 1000000 + settings.jwt_lifetime_seconds) (now / 1000000) ≡ false =
        ground arith in
      J.decode-generate_jwt settings.secret_key settings.algorithm (some audience) now made
        settings.jwt_lifetime_seconds (login_claims jti user) lives
      ∙ rw not_past refl

write_token-NoSpace :
    (J : Jwt) (settings : Settings) (jti : Text) (made : ℕ) (user : User)
    → NoSpace (write_token J settings jti made user)
unfolding write_token
write_token-NoSpace J settings jti made user =
    J.generate_jwt-NoSpace settings.secret_key settings.algorithm made settings.jwt_lifetime_seconds
      (login_claims jti user)

module _ (J : Jwt) (R : RedisServer) (settings : Settings) where
  open R use {Store, after}

  revoke_blacklists :
      (now : ℕ) (user_id : Text) (payload : Claims) (s : Store) (c : ℕ) (jti : Text) (exp n : ℕ)
      → payload.jti ≡ some (c ∷ jti)
      → payload.exp ≡ some exp
      → 0 < exp
      → n < (exp * 1000000 - now) / 1000000
      → is_token_blacklisted R (c ∷ jti) (after n (revoke J R settings now user_id payload s).1)
        ≡ true
  unfolding revoke
  revoke_blacklists now user_id payload s c jti exp n is_jti is_exp some_exp l =
      let given : (exp == 0) ≡ false = ground arith in
      let positive : ltb 0 ((exp * 1000000 - now) / 1000000) ≡ true = ground arith in
      rw (is_jti, is_exp, given, positive)
        (is_token_blacklisted-delete_session R (c ∷ jti) user_id ((exp * 1000000 - now) / 1000000) n
          s l)

  -- A logout with a login token that has not expired succeeds, and the token's id is on the
  -- blacklist from then on, until the whole seconds that the token has left have passed.
  pub logout_blacklists :
      (c : ℕ) (jti : Text) (made now n : ℕ) (user : User) (user_id : Text) (s : Store)
      → 0 < settings.jwt_lifetime_seconds
      → now / 1000000 ≤ made / 1000000 + settings.jwt_lifetime_seconds
      → let exp = made / 1000000 + settings.jwt_lifetime_seconds in
        let header = bearer ++ write_token J settings (c ∷ jti) made user in
        ((logout J R settings now user_id header s).0 ≡ responds logged_out)
        × (n < (exp * 1000000 - now) / 1000000
            → is_token_blacklisted R
                (c ∷ jti)
                (after n (logout J R settings now user_id header s).1)
              ≡ true)
  unfolding logout
  logout_blacklists c jti made now n user user_id s lives fresh =
      let exp = made / 1000000 + settings.jwt_lifetime_seconds in
      let token = write_token J settings (c ∷ jti) made user in
      let payload : Claims = record (login_claims (c ∷ jti) user) { exp = some exp } in
      let logged : logout J R settings now user_id (bearer ++ token) s
          ≡ revoke J R settings now user_id payload s =
        rw
          (
            logout,
            starts_with-bearer token,
            remove_all-bearer token (write_token-NoSpace J settings (c ∷ jti) made user),
            decode-write_token J settings (c ∷ jti) made now user lives fresh,
          )
          refl in
      rw logged
        (refl, λ l. revoke_blacklists now user_id payload s c jti exp n refl refl (omega arith) l)
