-- ===== src/Proxy.antt =====
-- apigate-core/src/proxy.rs: how a request is rewritten and sent upstream.
pub mod Paths
pub mod Hops
pub mod Forward
