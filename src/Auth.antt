-- ===== src/Auth.antt =====
-- src/services/auth/auth: the rows (`Rows`), memberships and roles (`Identities`), refresh tokens
-- (`Sessions`), and the routes that spend them (`Routes`).
pub mod Rows
pub mod Identities
pub mod Names
pub mod Members
pub mod Sessions
pub mod Routes
mod Examples
