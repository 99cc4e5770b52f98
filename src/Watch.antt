-- ===== src/Watch.antt =====
-- wan_watch.py: the observer of the router's WAN address.
pub mod Table
pub mod Address
pub mod Observe
pub mod Command
pub mod Enforce
mod Tests
