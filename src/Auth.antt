-- ===== src/Auth.antt =====
-- Authentication: tokens of app/core/security.py and app/dependencies.py, and the endpoints of
-- app/auth. A child each.
mod Tests
pub mod Jwt
pub mod Tokens
pub mod Users
pub mod Registration
pub mod Events
pub mod Hooks
pub mod Sessions
