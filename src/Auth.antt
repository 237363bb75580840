-- ===== src/Auth.antt =====
-- Who may call: tokens, their denylist, login and its rate limit, passwords and device keys
-- (platform/fmp/core/security.py, core/device_auth.py, core/tenancy.py, services/auth.py, api/deps.py,
-- api/v1/auth.py).
pub mod Tokens
pub mod Denylist
pub mod Login
pub mod Sessions
pub mod Passwords
mod Revocation
pub mod Rotation
pub mod Guessing
mod Tests
