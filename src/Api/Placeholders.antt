-- ===== src/Api/Placeholders.antt =====
-- app/api/v1/billing.py and app/api/v1/usage.py: what the endpoints take and are to answer, and how
-- they end so far. Times are in microseconds.
use unitra_service_api.Common.{ℕ, Bool, Option, List}
use unitra_service_api.Common.Int.{ℤ}
use unitra_service_api.Common.Text.{Text, codes}
use unitra_service_api.Errors.Http.{Reply, raises}

pub record SubscriptionResponse : Type 0 where
  pub id : Text
  pub plan : Text
  pub status : Text
  pub current_period_start : Text
  pub current_period_end : Text
  pub cancel_at_period_end : Bool

pub record CreateCheckoutRequest : Type 0 where
  pub plan : Text
  pub success_url : Text
  pub cancel_url : Text

pub record CheckoutSessionResponse : Type 0 where
  pub checkout_url : Text
  pub session_id : Text

pub record PortalSessionResponse : Type 0 where
  pub portal_url : Text

pub record InvoiceResponse : Type 0 where
  pub id : Text
  pub amount : ℤ
  pub currency : Text
  pub status : Text
  pub created_at : Text
  pub pdf_url : Option Text

pub record UsageSummary : Type 0 where
  pub period : Text
  pub start_date : ℕ
  pub end_date : ℕ
  pub total_characters : ℤ
  pub total_requests : ℤ
  pub languages_used : List Text

pub record UsageDetail : Type 0 where
  pub timestamp : ℕ
  pub source_lang : Text
  pub target_lang : Text
  pub character_count : ℤ
  pub latency_ms : ℤ

pub record UsageResponse : Type 0 where
  pub summary : UsageSummary
  pub details : Option (List UsageDetail)

pub data Period : Type 0 where
  day week month : Period

abbrev not_implemented : {A : Type 0} → Reply A
not_implemented = raises 501 (codes "Not implemented")

unfoldable pub get_subscription : Reply SubscriptionResponse
get_subscription = not_implemented

unfoldable pub create_checkout_session : CreateCheckoutRequest → Reply CheckoutSessionResponse
create_checkout_session request = not_implemented

unfoldable pub create_portal_session : Reply PortalSessionResponse
create_portal_session = not_implemented

unfoldable pub cancel_subscription : Reply (List (Text × Text))
cancel_subscription = not_implemented

unfoldable pub reactivate_subscription : Reply (List (Text × Text))
reactivate_subscription = not_implemented

unfoldable pub list_invoices : Reply (List InvoiceResponse)
list_invoices = not_implemented

unfoldable pub stripe_webhook : Reply (List (Text × Text))
stripe_webhook = not_implemented

-- `get_usage` of app/api/v1/usage.py
unfoldable pub get_usage : Period → Bool → Reply UsageResponse
get_usage period include_details = raises 501 (codes "Usage tracking not yet implemented.")

unfoldable pub get_quota : Reply (List (Text × Text))
get_quota = raises 501 (codes "Quota system not yet implemented.")
