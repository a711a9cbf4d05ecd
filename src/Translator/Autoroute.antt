-- ===== src/Translator/Autoroute.antt =====
-- translator/autoroute.go: the route rules and the DNS rules for a country.
pub mod Servers
pub mod DnsRules
pub mod RuleSets
use cff_core.Base.{
  String, true, List, [], ◌∷◌, ◌++◌, Option, none, some, is_empty, length, not, ◌==◌, if◌then◌else◌,
}
use cff_core.Base.Text.{◌+++◌}
use cff_core.Base.Text.Decimal.{itoa_ℕ}
use cff_core.Base.StringSet.{has}
use cff_core.Outside.{Outside}
use cff_core.Value.{Object, Value, str, strs, bool, object_of}
use cff_core.Translator.State.{Translation, Dns, warn, first_group_tag}
use cff_core.Translator.RawConfig.{RawConfig}
use cff_core.Translator.Rule.{ensure_rule_set_def, register_rule_set}
use cff_core.Translator.DnsServers.{
  find_first_direct_dns_tag, find_first_ech_capable_dns_tag, find_fake_ip_tag,
}

-- `if n := len(xs); n > 0`
unfoldable pub warn_count {ℓ} : {A : Type ℓ} → List A → String → Translation → Translation
unfolding warn itoa_ℕ
warn_count xs msg t = if is_empty xs then t else warn (itoa_ℕ (length xs) +++ msg) t

-- `warnUnsupportedRouting`
unfoldable pub warn_unsupported_routing : RawConfig → Translation → Translation
unfolding warn_count
warn_unsupported_routing cfg t = warn_count cfg.rule_provider " 个 rule-providers 未翻译：已由自动地理分流替代" (
    warn_count cfg.proxy_provider " 个 proxy-providers 未翻译：不支持订阅拉取，请改用内联 proxies"
      (warn_count cfg.rule " 条 rules 未翻译：已由自动地理分流替代" t))

-- `t.config.Route.Rules = append(t.config.Route.Rules, rule)`
unfoldable pub add_route_rule : Object → Translation → Translation
add_route_rule rule t = record t {
  config = record t.config {
    route = record t.config.route { rules = t.config.route.rules ++ rule ∷ [] };
  };
}

-- A rule to an outbound on one key.
unfoldable pub route_rule : String → Value → String → Object
unfolding object_of
route_rule key v outbound = object_of ((key, v) ∷ ("outbound", str outbound) ∷ [])

unfoldable pub rule_set_rule : String → String → Translation → Translation
unfolding add_route_rule route_rule
rule_set_rule tag outbound t = add_route_rule (route_rule "rule_set" (strs (tag ∷ [])) outbound) t

-- The services that the loop of `generateCNRoutes` names.
abbrev pub cn_services : List String
cn_services = "microsoft@cn" ∷ "steam@cn" ∷ "category-games@cn" ∷ "onedrive" ∷ []

abbrev pub overseas_ai_url : String
overseas_ai_url =
    "https://raw.githubusercontent.com/viewer12/OverseasAI.list/main/rule/Singbox/OverseasAI/OverseasAI.srs"

-- `genericCCTLDs`
abbrev pub generic_cc_tlds : List String
generic_cc_tlds =
    "io" ∷ "tv" ∷ "ai" ∷ "me" ∷ "cc" ∷ "sh" ∷ "gg" ∷ "je" ∷ "fm" ∷ "am" ∷ "la" ∷ "ly" ∷ "to" ∷ "co"
    ∷ "ws" ∷ "tk" ∷ "cf" ∷ "ga" ∷ "gq" ∷ "ml" ∷ []

module _ (o : Outside) where
  -- `ensureRuleSetDef`, and a route rule on the rule set.
  unfoldable pub ensure_and_rule : String → String → String → String → Translation → Translation
  unfolding ensure_rule_set_def rule_set_rule
  ensure_and_rule tag geo_type name outbound t =
      rule_set_rule tag outbound (ensure_rule_set_def o tag geo_type name t)

  unfoldable pub add_services : List String → Translation → Translation
  unfolding ensure_and_rule
  add_services [] t = t
  add_services (name ∷ names) t =
      add_services names (ensure_and_rule ("geosite-" +++ name) "geosite" name "DIRECT" t)

  -- `generateCNRoutes`
  unfoldable pub generate_cn_routes : String → Translation → Translation
  unfolding add_services ensure_and_rule register_rule_set rule_set_rule add_route_rule route_rule
  generate_cn_routes proxy_tag t =
      let overseas =
        rule_set_rule "overseas-ai" proxy_tag (register_rule_set "overseas-ai" overseas_ai_url t) in
      let services = add_services cn_services overseas in
      let foreign =
        ensure_and_rule "geosite-geolocation-!cn" "geosite" "geolocation-!cn" proxy_tag services in
      let sites = ensure_and_rule "geosite-cn" "geosite" "cn" "DIRECT" foreign in
      let addresses = ensure_and_rule "geoip-cn" "geoip" "cn" "DIRECT" sites in
      add_route_rule (route_rule "domain_suffix" (strs (".cn" ∷ [])) "DIRECT") addresses

  -- `generateCountryRoutes`
  unfoldable pub generate_country_routes : String → Translation → Translation
  unfolding ensure_and_rule add_route_rule route_rule has
  generate_country_routes cc t =
      let t' = ensure_and_rule ("geoip-" +++ cc) "geoip" cc "DIRECT" t in
      if has cc generic_cc_tlds
      then t'
      else add_route_rule (route_rule "domain_suffix" (strs (("." +++ cc) ∷ [])) "DIRECT") t'

  -- `translateRules`
  unfoldable pub translate_rules : RawConfig → Translation → Translation
  unfolding warn_unsupported_routing add_route_rule route_rule ensure_and_rule generate_cn_routes
      generate_country_routes
  translate_rules cfg t =
      let group = first_group_tag t in
      let proxy_tag = if group == "" then "DIRECT" else group in
      let warned = warn_unsupported_routing cfg t in
      let addresses = add_route_rule (route_rule "ip_is_private" (bool true) "DIRECT") warned in
      let private = ensure_and_rule "geosite-private" "geosite" "private" "DIRECT" addresses in
      if t.country == "cn"
      then generate_cn_routes proxy_tag private
      else generate_country_routes t.country private

-- A DNS rule to a server on one key.
unfoldable pub server_rule : String → Value → String → Object
unfolding object_of
server_rule key v server = object_of ((key, v) ∷ ("server", str server) ∷ [])

unfoldable pub ech_rules : List String → Option Dns → String → List Object
unfolding find_first_ech_capable_dns_tag server_rule
ech_rules servers dns direct =
    let tag = find_first_ech_capable_dns_tag dns in
    if is_empty servers
    then []
    else server_rule "domain" (strs servers) (if tag == "" then direct else tag) ∷ []

unfoldable pub fake_ip_rules : String → List Object
unfolding server_rule
fake_ip_rules tag =
    if tag == "" then [] else server_rule "query_type" (strs ("A" ∷ "AAAA" ∷ [])) tag ∷ []

-- The tags of the rule sets for a country.
unfoldable pub country_tags : String → List String
country_tags cc =
    "geosite-private" ∷ (if cc == "cn" then "geosite-cn" ∷ [] else []) ++ ("geoip-" +++ cc) ∷ []

unfoldable pub with_dns_rules : Dns → List Object → Translation → Translation
with_dns_rules dns rules t = record t {
  config = record t.config { dns = some (record dns { rules = rules }) };
}

module _ (o : Outside) where
  unfoldable pub ensure_country : String → Translation → Translation
  unfolding ensure_rule_set_def
  ensure_country cc t =
      let private = ensure_rule_set_def o "geosite-private" "geosite" "private" t in
      let sites =
        if cc == "cn" then ensure_rule_set_def o "geosite-cn" "geosite" "cn" private else private in
      ensure_rule_set_def o ("geoip-" +++ cc) "geoip" cc sites

-- The rules in their order: the mode, the user's, those for the country, and the terminal ones.
unfoldable pub ordered_rules : Dns → Translation → String → List Object
unfolding server_rule ech_rules country_tags fake_ip_rules find_fake_ip_tag
ordered_rules dns t direct =
    server_rule "clash_mode" (str "Direct") direct ∷ dns.rules
    ++ (ech_rules t.ech_query_servers (some dns) direct
        ++ (server_rule "rule_set" (strs (country_tags t.country)) direct
            ∷ fake_ip_rules (find_fake_ip_tag (some dns))))
    ++ t.dns_terminal_rules

module _ (o : Outside) where
  unfoldable pub dns_rules_with : String → Dns → Translation → Translation
  unfolding warn with_dns_rules ensure_country ordered_rules
  dns_rules_with direct dns t =
      if direct == ""
      then with_dns_rules dns (dns.rules ++ t.dns_terminal_rules)
          (warn "no direct DNS server found; DNS rules not generated" t)
      else with_dns_rules dns (ordered_rules dns t direct) (ensure_country o t.country t)

  unfoldable pub dns_rules_onto : Option Dns → Translation → Translation
  unfolding dns_rules_with find_first_direct_dns_tag
  dns_rules_onto none t = t
  dns_rules_onto (some dns) t =
      if is_empty dns.servers
      then t
      else if not t.dns_enabled
      then t
      else dns_rules_with (find_first_direct_dns_tag (some dns)) dns t

  -- `generateDNSRules`
  unfoldable pub generate_dns_rules : Translation → Translation
  unfolding dns_rules_onto
  generate_dns_rules t = dns_rules_onto t.config.dns t
