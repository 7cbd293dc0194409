-- ===== src/Selective.antt =====
-- crossplatform/linux/selective_tunnel.py: which hosts are tunnelled, and the PAC file and the
-- per-user proxy settings that make applications follow it.
pub mod Domains
pub mod Pac
pub mod World
pub mod Status
pub mod Arguments
pub mod Apply
pub mod Disable
mod Tests
