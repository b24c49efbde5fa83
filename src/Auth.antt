-- ===== src/Auth.antt =====
-- Users, sessions, e-mail challenges and OAuth logins (src/auth).
pub mod Types
pub mod Passwords
pub mod Sessions
pub mod Challenges
pub mod Accounts
pub mod Profiles
pub mod Oauth
pub mod Moves
pub mod Families
pub mod Untouched
pub mod Run
pub mod Refreshing
pub mod Recovery
pub mod Recovering
pub mod Quiet
pub mod Codes
mod Tests
