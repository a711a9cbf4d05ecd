-- ===== src/Proxy.antt =====
-- translator/proxy: one Clash proxy becomes one sing-box outbound.
pub mod Duration
pub mod Fields
pub mod Bandwidth
pub mod Ports
pub mod Transport
pub mod Multiplex
pub mod Tls
pub mod Protocols
pub mod Tagged
