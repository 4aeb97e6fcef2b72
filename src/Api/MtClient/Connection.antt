-- ===== src/Api/MtClient/Connection.antt =====
-- The construction of `MTClient` in app/services/mt_client.py, and its HTTP client, which is the
-- headers that it sends and its timeout.
pub mod Urls
use unitra_service_api.Common.{
  ℕ, ◌≡◌, ◌≢◌, refl, ap, Option, none, some, List, [], ◌∷◌, ◌++◌, ◌==◌, if◌then◌else◌, All, arith,
}
use unitra_service_api.Common.Text.{Text, codes}
use unitra_service_api.Common.Str.{rstrip_char}
use unitra_service_api.Errors.Handlers.{Raised}
use unitra_service_api.Api.Action.{Outcome, returned, raised}
use unitra_service_api.Application.{Settings}

-- `httpx.AsyncClient`; the timeout is in microseconds.
pub record HttpClient : Type 0 where
  pub timeout : ℕ
  pub headers : List (Text × Text)

pub record MtClient : Type 0 where
  pub base_url : Text
  pub timeout : ℕ
  pub api_key : Text
  pub http : Option HttpClient

-- `a or b`
abbrev pub or_text : Text → Text → Text
or_text [] b = b
or_text (c ∷ s) b = c ∷ s

-- `a or b` where `a` can be None
abbrev pub or_given : Option Text → Text → Text
or_given none b = b
or_given (some a) b = or_text a b

abbrev pub default_base_url : Text
default_base_url = codes "https://nikmomo--unitra-mt-translate.modal.run"

-- `MTClient.__init__`
unfoldable pub new_client : Settings → Option Text → ℕ → Option Text → MtClient
new_client settings base_url timeout api_key = record {
  base_url =
      rstrip_char b'/' (or_given base_url (or_text settings.ml_service_url default_base_url));
  timeout = timeout;
  api_key = or_given api_key settings.modal_api_key;
  http = none;
}

-- `if self.api_key:`
abbrev pub key_headers : Text → List (Text × Text)
key_headers [] = []
key_headers (c ∷ s) = (codes "X-API-Key", c ∷ s) ∷ []

-- `MTClient.__aenter__`
unfoldable pub enter : MtClient → MtClient
enter self = record self {
  http = some (record { timeout = self.timeout; headers = key_headers self.api_key });
}

-- `MTClient.__aexit__`, where the close of the HTTP client returns.
unfoldable pub exit : MtClient → MtClient
exit self = record self { http = none }

abbrev client_of : Option HttpClient → Outcome HttpClient
client_of none = raised (
    Raised.unexpected (
      codes
        "MTClient must be used as an async context manager: async with MTClient() as client: ..."))
client_of (some http) = returned http

-- `MTClient.client`
unfoldable pub client : MtClient → Outcome HttpClient
client self = client_of self.http
