-- ===== src/Gateway.antt =====
-- crossplatform/linux/tailnet_cfon_gateway.py: a SOCKS5 server on a tailnet address that lets one
-- peer reach the HTTPS port of listed domains through a local upstream.
pub mod Socket
pub mod Request
pub mod Upstream
pub mod Peers
pub mod Sessions
mod Tests
