-- ===== src/Examples/Pipeline.antt =====
-- Concrete configurations, and the theorems on whole steps of the translation at them.
use cff_core.Translator.Dns.Server.{parse_dns_server}
use cff_core.Translator.Groups.Default.{default_groups_of, with_selector}
use cff_core.Proxy.Protocols.Plain.{translate_unsupported}
use cff_core.Translator.Proxies.Endpoint.{has_proxy_endpoint, is_invalid_health_check_endpoint}
use cff_core.Translator.Proxies.{
  translate_proxy, translate_named_proxy, translated_or_stub, translate_one_proxy,
  translate_protocol, with_fingerprint, accept, make_stub_outbound, mark_stub,
}
use cff_core.Translator.Groups.Cleanup.{cleanup_group_outbounds}
use cff_core.Translator.Groups.{warn_no_groups, order_groups, translate_each}
use cff_core.Translator.Assemble.{remove_orphan_rule_set_rules, assemble_all}
use cff_core.Base.{
  String, false, if◌then◌else◌, List, [], ◌∷◌, none, some, ◌≡◌, refl, All, inl, ◌==◌,
}
use cff_core.Value.{Object, str, object_of, get, get_text}
use cff_core.Translator.State.{Translation, first_group_tag}
use cff_core.Translator.RawConfig.{RawConfig, RawDns}
use cff_core.Translator.Validation.{validate}
use cff_core.Translator.Validation.Sound.{IsDistinct, named_tags, validate-StartLaws}
use cff_core.Translator.Validation.Complete.{StartLaws-validate}
use cff_core.Translator.Dns.{translate_dns}
use cff_core.Translator.Dns.Sound.{DnsLaws, translate_dns-DnsLaws}
use cff_core.Translator.Dns.Resolvers.{set_domain_resolvers}
use cff_core.Translator.Dns.Resolvers.Laws.{IsSettled, set_domain_resolvers-IsSettled}
use cff_core.Translator.Autoroute.{translate_rules, generate_dns_rules}
use cff_core.Translator.Autoroute.DnsRules.{generate_dns_rules-DnsLaws}
use cff_core.Translator.Autoroute.RuleSets.{AreRouted, proxy_of, translate_rules-AreRouted}
use cff_core.Translator.Country.{
  normalize_country_code, detect_country, detect_country_with_fallback,
}
use cff_core.Translator.Country.Cached.{detect_country-cached}
use cff_core.Translator.Pipeline.{initial, run_steps, translate_outbounds}
use cff_core.Translator.Pipeline.Outbounds.{OutboundsLaws, translate_outbounds-OutboundsLaws}
use cff_core.Translator.Pipeline.Accepted.{run_steps-validate}
use cff_core.Translator.Input.Config.{uri_config}
use cff_core.Translator.Input.Uris.{vless_proxy, parse_vless, parse_lines}
use cff_core.Translator.Input.Parsers.{Url, Parsers}
use cff_core.Translator.Input.Parsed.{parse_vless-refused, parse_lines-HasName}
use cff_core.Proxy.Protocols.Stream.{translate_vless}
use cff_core.Examples.{outside, node, valid_translation, validate-valid_translation}

-- A country in capitals, in lower case.
abbrev lower_country : String → String
lower_country s = "cn"

abbrev start : Translation
start = initial lower_country "CN"

-- A fake IP pool with a filter, one node, and no groups.
abbrev fake_dns : RawDns
fake_dns = record (uri_config []).dns {
  enhanced_mode = "fake-ip";
  fake_ip_filter = "*.lan" ∷ [];
  fake_ip_filter_mode = "whitelist";
  default_nameserver = [];
}

abbrev node_config : RawConfig
node_config = record (uri_config (node ∷ [])) { dns = fake_dns }

node_config-IsDistinct :
    IsDistinct
      (named_tags (run_steps outside node_config (initial lower_country "CN")).config.outbounds)
unfolding run_steps IsDistinct remove_orphan_rule_set_rules assemble_all warn_no_groups order_groups
    cleanup_group_outbounds translate_each translate_proxy translate_named_proxy has_proxy_endpoint
    translated_or_stub translate_one_proxy translate_protocol with_fingerprint translate_unsupported
    accept make_stub_outbound mark_stub is_invalid_health_check_endpoint initial default_groups_of
    with_selector parse_dns_server first_group_tag
node_config-IsDistinct = (refl, (refl, (refl, tt)))

run_steps-validate_example : (validate (run_steps outside node_config start)).0 ≡ none
run_steps-validate_example =
    run_steps-validate outside node_config lower_country "CN" node_config-IsDistinct

-- The start has no outbounds, no groups and no DNS settings.
translate_outbounds-OutboundsLaws_example :
    OutboundsLaws start (translate_outbounds outside node_config start)
unfolding initial
translate_outbounds-OutboundsLaws_example =
    translate_outbounds-OutboundsLaws outside node_config start refl refl refl

translate_dns-DnsLaws_example :
    DnsLaws start.config.outbounds (translate_dns outside node_config start)
unfolding initial first_group_tag
translate_dns-DnsLaws_example = translate_dns-DnsLaws outside node_config start (inl refl) refl refl

generate_dns_rules-DnsLaws_example :
    DnsLaws [] (generate_dns_rules outside (translate_dns outside node_config start))
unfolding initial first_group_tag
generate_dns_rules-DnsLaws_example =
    generate_dns_rules-DnsLaws outside [] (translate_dns outside node_config start)
      (translate_dns-DnsLaws outside node_config start (inl refl) refl refl)

translate_rules-AreRouted_example :
    AreRouted (proxy_of start) (translate_rules outside node_config start)
unfolding initial
translate_rules-AreRouted_example =
    translate_rules-AreRouted outside node_config start (record { routed = tt })

-- Two servers with domains, of which one is a default server.
abbrev domain_servers : List Object
domain_servers =
    object_of (("tag", str "def-0") ∷ ("server", str "dns.example") ∷ [])
    ∷ object_of (("tag", str "ns-0") ∷ ("server", str "doh.example") ∷ [])
    ∷ []

set_domain_resolvers-IsSettled_example :
    let (servers, warnings) =
      set_domain_resolvers outside ("def-0" ∷ []) ("def-0" ∷ []) domain_servers in
    All (IsSettled outside ("def-0" ∷ []) warnings) servers
unfolding get object_of
set_domain_resolvers-IsSettled_example =
    set_domain_resolvers-IsSettled outside ("def-0" ∷ []) domain_servers (refl, (refl, tt))

StartLaws-validate_example : (validate valid_translation).0 ≡ none
StartLaws-validate_example =
    StartLaws-validate valid_translation
      (validate-StartLaws valid_translation validate-valid_translation)

abbrev example_url : Url
example_url = record {
  hostname = "a.example";
  port = "443";
  username = "6a1c0d0e-0000-0000-0000-000000000000";
  query = λ key. if key == "security" then "tls" else "";
}

abbrev parsers : Parsers
parsers = record {
  base64_std = λ s. none;
  base64_raw_std = λ s. none;
  base64_url = λ s. none;
  base64_raw_url = λ s. none;
  json = λ s. none;
  query_unescape = λ s. some s;
  parse_url = λ s. some example_url;
  yaml = λ s. none;
}

abbrev vless_body : String
vless_body = "6a1c0d0e-0000-0000-0000-000000000000@a.example:443?security=tls"

parse_vless-refused_example :
    (translate_vless outside (vless_proxy outside parsers "node" example_url)).0 ≡ none
unfolding parse_vless
parse_vless-refused_example =
    parse_vless-refused outside parsers vless_body "node"
      (vless_proxy outside parsers "node" example_url) refl

parse_lines-HasName_example :
    All
      (λ m. (get_text "name" m == "") ≡ false)
      (parse_lines outside parsers
        ("vless://a@a.example:443#node" ∷ "" ∷ "trojan://a@a.example:443" ∷ []))
parse_lines-HasName_example =
    parse_lines-HasName outside parsers
      ("vless://a@a.example:443#node" ∷ "" ∷ "trojan://a@a.example:443" ∷ [])

detect_country-cached_example :
    let (cc, cache) = detect_country outside (some "DE" ∷ []) "" none in
    let (again, cache') = detect_country_with_fallback outside (none ∷ []) "x" cache in
    (again.0 ≡ cc) × (cache' ≡ cache)
unfolding normalize_country_code
detect_country-cached_example =
    detect_country-cached outside (some "DE" ∷ []) (none ∷ []) "" "x" none refl refl
