-- ===== src/Accounts.antt =====
-- Users: registration, login, tokens, passwords and the second factor (src/auth, src/database/user).
pub mod Entity
pub mod World
pub mod Database
pub mod Service
pub mod Controller
pub mod Lookups
pub mod Requests
pub mod Invariant
pub mod Emails
pub mod Uniqueness
pub mod Credentials
pub mod Registration
pub mod Passwords
pub mod Sessions
pub mod Holding
pub mod TwoFactor
mod Examples
