-- ===== src/Errors/Tests.antt =====
-- A response on a concrete exception.
use unitra_service_api.Common.{◌≡◌, refl, some, []}
use unitra_service_api.Errors.{AppException, status_code}
use unitra_service_api.Errors.Handlers.{Raised, handle}

abbrev limited : AppException
limited = AppException.rate_limit 30 []

limited_response :
    ((handle (Raised.app limited)).status ≡ 429)
    × ((handle (Raised.app limited)).retry_after ≡ some 30)
unfolding handle status_code
limited_response = (refl, refl)
