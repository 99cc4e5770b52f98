-- ===== src/Release.antt =====
-- release.py: deterministic package delivery.
pub mod Member
pub mod Tree
pub mod Bundle
pub mod Disk
pub mod Archive
pub mod Pack
pub mod Redirect
pub mod Fetch
pub mod Command
mod Tests
