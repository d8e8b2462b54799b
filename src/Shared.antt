-- ===== src/Shared.antt =====
-- src/services/shared/shared: what every service uses.
pub mod Ids
pub mod Pagination
mod Examples
