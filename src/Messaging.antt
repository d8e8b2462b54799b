-- ===== src/Messaging.antt =====
-- src/services/messaging: the rows (`Models`), the transaction (`Session`) and the domain modules.
pub mod Models
pub mod Session
pub mod Names
pub mod Dms
pub mod Channels
pub mod Messages
pub mod ReadState
pub mod Threads
pub mod Reactions
pub mod Pages
pub mod Attachments
mod Examples
