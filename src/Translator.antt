-- ===== src/Translator.antt =====
-- The translation of a Clash configuration to a sing-box one (translator/).
pub mod State
pub mod RawConfig
pub mod Proxies
pub mod Groups
pub mod Validation
pub mod DnsServers
pub mod Dns
pub mod Ech
pub mod Autoroute
pub mod General
pub mod Tun
pub mod Country
pub mod Pipeline
pub mod Input
pub mod Rule
pub mod Assemble
