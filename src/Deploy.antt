-- ===== src/Deploy.antt =====
-- ip_deploy.py: publication of the home IP certificate.
pub mod Site
pub mod Publish
pub mod Configuration
pub mod Command
pub mod Validated
pub mod Returns
mod Tests
