-- ===== src/Api.antt =====
-- app/api/v1/translate.py and app/services/mt_client.py: the translation endpoints.
mod Tests
pub mod Placeholders
pub mod Action
pub mod Languages
pub mod MtClient
pub mod Payloads
pub mod Translate
pub mod Health
