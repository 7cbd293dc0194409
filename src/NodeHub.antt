-- ===== src/NodeHub.antt =====
-- app/nodehub.py: the proxy nodes that a person pastes, as links or as sing-box JSON; the list of
-- nodes; and the configuration that the proxy is started with.
-- (crossplatform/linux/nodehub_shared.py is the same file.)
pub mod Values
pub mod JsonNode
pub mod Outbound
pub mod JsonProtocols
pub mod JsonProxies
pub mod Merge
pub mod Links
mod Tests
