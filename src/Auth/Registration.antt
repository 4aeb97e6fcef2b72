-- ===== src/Auth/Registration.antt =====
-- The registration of a user: `UserCreate` of app/auth/schemas.py, what fastapi-users makes of it,
-- and `on_after_register` of app/auth/manager.py.
use unitra_service_api.Common.{◌≡◌, refl, Option, none, some}
use unitra_service_api.Common.Text.{Text}
use unitra_service_api.Batch.Config.{UserTier, tier_of_value}
use unitra_service_api.Auth.Users.{User, tier_minutes, on_after_register}

-- The fields of the request that are stored.
pub record UserCreate : Type 0 where
  pub email : Text
  pub password : Text
  pub tier : Text

-- `create` of fastapi-users up to its call of `on_after_register`: the user that is inserted, or
-- nothing where the email is taken or the password refused. Of the fields of the schema it leaves
-- out only the id and the flags, so a tier is stored as it was sent.
pub record UserCreation : Type 0 where
  pub create : UserCreate → Option User
  pub create-tier : (r : UserCreate) (u : User) → create r ≡ some u → u.tier ≡ r.tier

pub data Registration : Type 0 where
  refused : Registration
  -- the user was inserted, and the hook raised
  hook_failed : User → Registration
  registered_as : User → Registration

abbrev after_hook : User → Option User → Registration
after_hook inserted none = hook_failed inserted
after_hook inserted (some user) = registered_as user

abbrev after_create : Option User → Registration
after_create none = refused
after_create (some user) = after_hook user (on_after_register user)

module _ (C : UserCreation) where
  -- The registration endpoint: `create`, then the hook.
  unfoldable pub register : UserCreate → Registration
  unfolding on_after_register
  register request = after_create (C.create request)

  module _ (request : UserCreate) (user : User) (created : C.create request ≡ some user) where
    registered_tier :
        (t : UserTier)
        → tier_of_value user.tier ≡ some t
        → register request
          ≡ registered_as (record user { translation_minutes_limit = tier_minutes t })
    unfolding register on_after_register
    registered_tier t known = rw created (rw (on_after_register, known) refl)

    registered_unknown : tier_of_value user.tier ≡ none → register request ≡ hook_failed user
    unfolding register on_after_register
    registered_unknown unknown = rw created (rw (on_after_register, unknown) refl)

    -- A request that fastapi-users accepts is registered with the tier that it names itself, if
    -- there is such a tier, and with the minutes of that tier. If there is no such tier, then the
    -- hook raises after the user was inserted.
    pub register_own_tier :
        ((t : UserTier)
          → tier_of_value request.tier ≡ some t
          → (v : User) × (register request ≡ registered_as v)
            × (v.tier ≡ request.tier)
            × (v.translation_minutes_limit ≡ tier_minutes t))
        × (tier_of_value request.tier ≡ none → register request ≡ hook_failed user)
    register_own_tier =
        let same = C.create-tier request user created in
        (
          λ t known. (_, registered_tier t (rw same known), same, refl),
          λ unknown. registered_unknown (rw same unknown),
        )
