-- ===== src/Translator/RawConfig.antt =====
-- The input structure of translator/types_mihomo.go: a Clash YAML file as the YAML library fills it.
-- A field that no translation step reads is left out.
use cff_core.Base.{ℕ, ℤ, String, Bool, List, Option}
use cff_core.Value.{Value, Object}

-- `RawDNS`. A `*bool` is an option.
pub record RawDns : Type 0 where
  pub enable : Bool
  pub ipv6 : Option Bool
  pub use_hosts : Option Bool
  pub name_server : List String
  pub fallback : List String
  pub enhanced_mode : String
  pub fake_ip_range : String
  pub fake_ip_range6 : String
  pub fake_ip_filter : List String
  pub fake_ip_filter_mode : String
  pub default_nameserver : List String
  pub proxy_server_nameserver : List String
  pub prefer_h3 : Bool

pub record RawTun : Type 0 where
  pub enable : Bool
  pub device : String
  pub stack : String
  pub auto_route : Bool
  pub auto_detect_interface : Option Bool
  pub auto_redirect : Bool
  -- `uint32`
  pub mtu : ℕ
  pub inet4_address : String
  pub inet6_address : String
  pub strict_route : Bool
  pub udp_timeout : ℤ
  pub route_address : List String
  pub route_exclude_address : List String
  pub iproute2_table_index : ℤ
  pub iproute2_rule_index : ℤ
  pub include_uid : List ℤ
  pub include_uid_range : List String
  pub exclude_uid : List ℤ
  pub exclude_uid_range : List String
  pub include_android_user : List ℤ
  pub include_package : List String
  pub exclude_package : List String

pub record RawConfig : Type 0 where
  pub port : ℤ
  pub socks_port : ℤ
  pub redir_port : ℤ
  pub tproxy_port : ℤ
  pub mixed_port : ℤ
  pub mixed_system_proxy : Bool
  pub authentication : List String
  pub allow_lan : Bool
  pub bind_address : String
  pub mode : String
  pub log_level : String
  pub ipv6 : Bool
  pub external_controller : String
  pub external_ui : String
  pub secret : String
  pub interface_name : String
  pub routing_mark : ℤ
  pub dns : RawDns
  pub tun : RawTun
  -- `Profile.StoreFakeIP`
  pub store_fake_ip : Bool
  pub proxy : List Object
  pub proxy_group : List Object
  pub rule : List String
  pub proxy_provider : List (String × Object)
  pub rule_provider : List (String × Object)
  pub hosts : List (String × Value)
  pub find_process_mode : String
  pub global_fingerprint : String
