-- ===== src/Redis/Blacklist.antt =====
-- Revoked tokens and cached sessions.
use unitra_service_api.Common.{ℕ, ◌<◌, ◌≡◌, refl, true, false, some, arith, ◌∙◌}
use unitra_service_api.Common.Int.{pos}
use unitra_service_api.Common.Text.{Text, text_eq, text_eq_refl}
use unitra_service_api.Redis.{
  blacklist_key, session_key, blacklist_token, is_token_blacklisted, delete_session,
}
use unitra_service_api.Redis.Server.{RedisServer}

session_blacklist_apart :
    (user_id jti : Text) → text_eq (session_key user_id) (blacklist_key jti) ≡ false
unfolding session_key blacklist_key text_eq
session_blacklist_apart user_id jti = refl

module _ (R : RedisServer) where
  open R use {Store, setex, after}

  -- A token that is blacklisted for some seconds is found on the blacklist until they have passed.
  pub is_token_blacklisted-blacklist_token :
      (jti : Text) (t n : ℕ) (s : Store)
      → n < t
      → is_token_blacklisted R jti (after n (blacklist_token R jti t s)) ≡ true
  unfolding is_token_blacklisted blacklist_token
  is_token_blacklisted-blacklist_token jti t n s h =
      let k = blacklist_key jti in
      let s' = setex k t 1 s in
      let runs : R.ttl k s' ≡ pos t =
        R.ttl-setex k k t 1 s (omega arith) ∙ rw (text_eq_refl k) refl in
      let there = R.get-setex k k t 1 s (omega arith) ∙ rw (text_eq_refl k) refl in
      rw (R.exists-get k 1 (after n s') (R.get-after_before k t n s' runs h ∙ there)) refl

  -- The end of a session leaves the blacklist alone.
  pub is_token_blacklisted-delete_session :
      (jti user_id : Text) (t n : ℕ) (s : Store)
      → n < t
      → is_token_blacklisted R jti (after n (delete_session R user_id (blacklist_token R jti t s)))
        ≡ true
  unfolding is_token_blacklisted blacklist_token delete_session
  is_token_blacklisted-delete_session jti user_id t n s h =
      let k = blacklist_key jti in
      let j = session_key user_id in
      let s' = setex k t 1 s in
      let apart = session_blacklist_apart user_id jti in
      let runs : R.ttl k (R.delete j s') ≡ pos t =
        R.ttl-delete j k s' apart
        ∙ (R.ttl-setex k k t 1 s (omega arith) ∙ rw (text_eq_refl k) refl) in
      let there : R.get k (R.delete j s') ≡ some 1 =
        R.get-delete j k s'
        ∙ rw apart (R.get-setex k k t 1 s (omega arith) ∙ rw (text_eq_refl k) refl) in
      rw
        (R.exists-get k 1 (after n (R.delete j s'))
          (R.get-after_before k t n (R.delete j s') runs h ∙ there))
        refl
