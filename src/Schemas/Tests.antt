-- ===== src/Schemas/Tests.antt =====
-- Pages of a small list.
use unitra_service_api.Common.{◌≡◌, refl}
use unitra_service_api.Schemas.{create}

three_pages : (create 7 1 3).total_pages ≡ 3
unfolding create
three_pages = refl

no_pages : (create 7 1 0).total_pages ≡ 0
unfolding create
no_pages = refl
