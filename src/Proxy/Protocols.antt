-- ===== src/Proxy/Protocols.antt =====
-- The translators of the single protocols. Each gives the outbound, `none` where the proxy is
-- skipped, and its warnings in order.
pub mod Start
pub mod Stream
pub mod Quic
pub mod Plain
pub mod Shadowsocks
