-- ===== src/Auth/Hooks/Address.antt =====
-- The address that `on_after_login` of app/auth/manager.py logs.
use unitra_service_api.Common.{ℕ, ◌≡◌, ◌≢◌, some, Option, [], ◌∷◌, ◌++◌, All, ap, arith}
use unitra_service_api.Common.Text.{Text}
use unitra_service_api.Common.Str.{before, strip}
use unitra_service_api.Auth.Events.{ip_address}

before-append :
    (c : ℕ) (first rest : Text) → All (λ d. d ≢ c) first → before c (first ++ (c ∷ rest)) ≡ first
unfolding before
before-append c [] rest h = ground arith
before-append c (d ∷ first) rest (differs, h) = ground (arith, before-append c first rest h)

-- If the request has the header X-Forwarded-For with a comma in it, then the address that is logged
-- is what the header has before its first comma, without the spaces around it; neither the address
-- of the connection nor what the header has after the comma plays a part.
pub ip_address_forwarded :
    (first rest : Text) (client : Option Text)
    → All (λ c. c ≢ b',') first
    → ip_address (some (record { forwarded = some (first ++ (b',' ∷ rest)); client = client }))
      ≡ strip first
unfolding ip_address
ip_address_forwarded [] rest client h = ap strip (before-append b',' [] rest h)
ip_address_forwarded (c ∷ first) rest client h = ap strip (before-append b',' (c ∷ first) rest h)
