-- ===== src/Translator/Input/Config.antt =====
-- `buildRawConfigFromURIs` of translator/input.go, `DetectFormat` of translator/detect.go, and
-- `ConvertWithMeta` of translator/translator.go.
use cff_core.Base.{pos, String, true, false, List, [], ◌∷◌, Option, none, some, if◌then◌else◌}
use cff_core.Base.Text.{split}
use cff_core.Outside.{Outside}
use cff_core.Value.{Value, Object, obj}
use cff_core.Translator.RawConfig.{RawConfig, RawDns, RawTun}
use cff_core.Translator.Pipeline.{Outcome, translate_from_config}
use cff_core.Translator.Input.Uris.{parse_lines}
use cff_core.Translator.Input.Parsers.{Parsers}
use cff_core.Translator.Input.Subscription.{decode_base64_input, is_proxy_uri_list}

abbrev pub no_tun : RawTun
no_tun = record {
  enable = false;
  device = "";
  stack = "";
  auto_route = false;
  auto_detect_interface = none;
  auto_redirect = false;
  mtu = 0;
  inet4_address = "";
  inet6_address = "";
  strict_route = false;
  udp_timeout = pos 0;
  route_address = [];
  route_exclude_address = [];
  iproute2_table_index = pos 0;
  iproute2_rule_index = pos 0;
  include_uid = [];
  include_uid_range = [];
  exclude_uid = [];
  exclude_uid_range = [];
  include_android_user = [];
  include_package = [];
  exclude_package = [];
}

-- The DNS settings of a list of URIs.
abbrev pub uri_dns : RawDns
uri_dns = record {
  enable = true;
  ipv6 = none;
  use_hosts = none;
  name_server = "https://doh.pub/dns-query" ∷ "tls://223.5.5.5:853" ∷ [];
  fallback = [];
  enhanced_mode = "redir-host";
  fake_ip_range = "198.18.0.1/16";
  fake_ip_range6 = "";
  fake_ip_filter = "dns.msftnsci.com" ∷ "www.msftnsci.com" ∷ "www.msftconnecttest.com" ∷ [];
  fake_ip_filter_mode = "blacklist";
  default_nameserver = "114.114.114.114" ∷ "223.5.5.5" ∷ "8.8.8.8" ∷ "1.0.0.1" ∷ [];
  proxy_server_nameserver = [];
  prefer_h3 = false;
}

-- The configuration of a list of URIs, with these proxies.
abbrev pub uri_config : List Object → RawConfig
uri_config proxies = record {
  port = pos 0;
  socks_port = pos 0;
  redir_port = pos 0;
  tproxy_port = pos 0;
  mixed_port = pos 0;
  mixed_system_proxy = false;
  authentication = [];
  allow_lan = false;
  bind_address = "*";
  mode = "rule";
  log_level = "info";
  ipv6 = true;
  external_controller = "";
  external_ui = "";
  secret = "";
  interface_name = "";
  routing_mark = pos 0;
  dns = uri_dns;
  tun = no_tun;
  store_fake_ip = false;
  proxy = proxies;
  proxy_group = [];
  rule = [];
  proxy_provider = [];
  rule_provider = [];
  hosts = [];
  find_process_mode = "strict";
  global_fingerprint = "";
}

abbrev pub config_of : List Object → Option RawConfig
config_of [] = none
config_of (m ∷ ms) = some (uri_config (m ∷ ms))

-- `Format`
pub data Format : Type 0 where
  json_format : Format
  yaml_format : Format

abbrev pub format_of : Option Value → Format
format_of (some (obj m)) = json_format
format_of _ = yaml_format

-- The results of `ConvertWithMeta`: the text as it is, the two errors, and the outcome of a translation.
pub data Converted : Type 0 where
  passed_through : String → Converted
  no_valid_proxies : Converted
  invalid_yaml : Converted
  converted : Outcome → Converted

module _ (o : Outside) (q : Parsers) where
  -- `buildRawConfigFromURIs`
  unfoldable pub build_raw_config_from_uris : String → Option RawConfig
  unfolding split parse_lines
  build_raw_config_from_uris text = config_of (parse_lines o q (split text 10))

  -- `DetectFormat`
  unfoldable pub detect_format : String → Format
  detect_format text = format_of (q.json text)

  -- The text behind base64, or the text itself.
  unfoldable pub decoded_text : String → String
  unfolding decode_base64_input
  decoded_text s = elim (decode_base64_input q s) [ none ↦ s | some text ↦ text ]

  unfoldable pub convert_format : Format → String → String → Converted
  unfolding is_proxy_uri_list build_raw_config_from_uris translate_from_config
  convert_format json_format text country = passed_through text
  convert_format yaml_format text country =
      if is_proxy_uri_list text
      then elim (build_raw_config_from_uris text) [
        | none ↦ no_valid_proxies
        | some cfg ↦ converted (translate_from_config o cfg country)
      ]
      else elim (q.yaml text) [
        | none ↦ invalid_yaml
        | some cfg ↦ converted (translate_from_config o cfg country)
      ]

  -- `ConvertWithMeta`, at the country that is detected.
  unfoldable pub convert_with_meta : String → String → Converted
  unfolding decoded_text detect_format convert_format
  convert_with_meta s country =
      let text = decoded_text s in convert_format (detect_format text) text country
