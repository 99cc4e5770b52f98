-- ===== src/Renew.antt =====
-- renew.py: the installation of a certificate in the owner service's directory.
pub mod State
pub mod Validate
pub mod Command
pub mod Install
mod Tests
