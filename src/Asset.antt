-- ===== src/Asset.antt =====
-- src/services/asset: the upload rules (`Rules`), the rows and the routes over them (`Routes`), and
-- theorems about claims, confirmations, downloads and all requests together.
pub mod Rules
pub mod Routes
pub mod Claims
pub mod Confirms
pub mod Downloads
pub mod Lifecycle
mod Examples
