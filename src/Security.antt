-- ===== src/Security.antt =====
-- app/security.py: browser sessions, request throttling and the admin guard of mutating endpoints.
pub mod Sessions
pub mod RateLimit
pub mod Access
mod Tests
