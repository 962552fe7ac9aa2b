-- ===== src/Backoffice.antt =====
-- SenSa/backoffice: `Permissions` is the gate of its pages and APIs, `Dispatch` the dispatcher of
-- notifications.
pub mod Permissions
pub mod Dispatch
pub mod Backup
pub mod Users
pub mod PolicyForm
pub mod Queue
pub mod Cleanup
