-- ===== src/Redis/Usage.antt =====
-- The weekly usage counter.
use unitra_service_api.Common.{
  ℕ, ◌+◌, ◌≡◌, refl, Option, none, some, arith, Bool-cases, Option-cases, inl, inr, ◌∙◌, ap,
}
use unitra_service_api.Common.Text.{Text, text_eq, text_eq_refl, text_eq_iff}
use unitra_service_api.Redis.{usage_key, usage_ttl, counter, increment_usage, get_usage}
use unitra_service_api.Redis.Server.{RedisServer, plus}
use unitra_service_api.Redis.Keys.{HasNoColon, usage_key-injective}

module _ (R : RedisServer) where
  open R use {Store, get, incrby, expire}

  counter_of : (k : Text) (s : Store) (n : ℕ) → get k s ≡ some n → counter R k s ≡ n
  counter_of k s n e = rw (e, counter) refl

  plus-counter : (k : Text) (n : ℕ) (s : Store) → plus n (get k s) ≡ counter R k s + n
  plus-counter k n s = elim (Option-cases (get k s)) [
    | inl e ↦ rw (e, counter) (omega arith)
    | inr (m, e) ↦ rw (e, counter) refl
  ]

  -- An increment raises the counter of that user and week by the tokens and returns the new total.
  pub get_usage-increment_usage :
      (week user : Text) (n : ℕ) (s : Store)
      → (get_usage R week user (increment_usage R week user n s).1 ≡ get_usage R week user s + n)
        × ((increment_usage R week user n s).0 ≡ get_usage R week user s + n)
  unfolding get_usage increment_usage
  get_usage-increment_usage week user n s =
      let k = usage_key user week in
      let raised : get k (incrby k n s) ≡ some (plus n (get k s)) =
        R.get-incrby k k n s ∙ rw (text_eq_refl k) refl in
      let total = counter_of k (incrby k n s) (plus n (get k s)) raised ∙ plus-counter k n s in
      (
        counter_of k _ (plus n (get k s))
              (R.get-expire k k usage_ttl (incrby k n s) (omega arith) ∙ raised)
            ∙ plus-counter k n s,
        total,
      )

  -- The counter of another user or week stays, where the users' ids have no colon.
  pub get_usage-increment_other :
      (week week' user user' : Text) (n : ℕ) (s : Store)
      → HasNoColon user
      → HasNoColon user'
      → ¬ ((user ≡ user') × (week ≡ week'))
      → get_usage R week' user' (increment_usage R week user n s).1 ≡ get_usage R week' user' s
  unfolding get_usage increment_usage
  get_usage-increment_other week week' user user' n s h h' apart =
      let k = usage_key user week in
      let j = usage_key user' week' in
      elim (Bool-cases (text_eq k j)) [
        | inl same ↦
            absurd
              (apart (usage_key-injective user user' week week' h h' ((text_eq_iff k j).0 same)))
        | inr differ ↦
            ap (λ (o : Option ℕ). elim o [ none ↦ 0 | some m ↦ m ]) {y = get j s}
              (R.get-expire k j usage_ttl (incrby k n s) (omega arith)
                ∙ (R.get-incrby k j n s ∙ rw differ refl))
      ]
