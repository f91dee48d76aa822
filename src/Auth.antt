-- ===== src/Auth.antt =====
-- internal/auth: accounts and their passwords, sessions, tokens, and the limits on attempts.
pub mod Limiter
pub mod Accounts
pub mod Sessions
pub mod Tokens
pub mod Oauth
pub mod SignedOut
pub mod Managed
