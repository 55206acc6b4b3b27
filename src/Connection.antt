-- ===== src/Connection.antt =====
-- quisp/modules/ConnectionManager.{h,cc}: the setup of a connection, and its reservations.
pub mod Path
pub mod RuleSets
pub mod Manager
pub mod Responder
mod Tests
