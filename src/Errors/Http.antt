-- ===== src/Errors/Http.antt =====
-- FastAPI's HTTPException: how an endpoint that raises it ends.
use unitra_service_api.Common.{ℕ}
use unitra_service_api.Common.Text.{Text}

pub data Reply (A : Type 0) : Type 0 where
  responds : A → Reply A
  -- status code and detail
  raises : ℕ → Text → Reply A
