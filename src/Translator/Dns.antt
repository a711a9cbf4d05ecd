-- ===== src/Translator/Dns.antt =====
-- `translateDNS` of translator/dns.go, and the DNS settings it reads and writes.
pub mod Address
pub mod Server
pub mod Entries
pub mod Resolvers
pub mod FakeIp
pub mod Tags
pub mod References
pub mod Sound
use cff_core.Base.{
  String, Bool, true, false, not, ◌&&◌, ◌||◌, List, [], ◌∷◌, ◌++◌, Option, none, some, is_empty,
  map, ◌==◌, if◌then◌else◌,
}
use cff_core.Outside.{Outside}
use cff_core.Value.{Object, str, put}
use cff_core.Translator.State.{Translation, Dns, warn_all, first_group_tag, first_or_empty}
use cff_core.Translator.RawConfig.{RawConfig, RawDns}
use cff_core.Translator.Dns.Entries.{
  no_entries, build_dns_server_entries, auto_bootstrap, is_text, prefer_udp_server, bootstrap_tag,
  bootstrap_server, add_bootstrap_dns, is_local_dns_server,
}
use cff_core.Translator.Dns.Resolvers.{set_domain_resolvers}
use cff_core.Translator.Dns.FakeIp.{translate_fake_ip, translate_hosts}

abbrev pub is_given : Bool → Option Bool → Bool
is_given b none = false
is_given true (some b) = b
is_given false (some b) = not b

-- The switch of the first step.
unfoldable pub dns_strategy : RawConfig → String
dns_strategy cfg =
    if is_given false cfg.dns.ipv6
    then "ipv4_only"
    else if cfg.ipv6 || is_given true cfg.dns.ipv6
    then "prefer_ipv6"
    else "prefer_ipv4"

-- `if srv["type"] == "https" { srv["type"] = "h3" }`
unfoldable pub upgrade_h3 : Object → Object
unfolding is_text put
upgrade_h3 srv = if is_text "type" "https" srv then put "type" (str "h3") srv else srv

-- `if dns.PreferH3`
unfoldable pub prefer_h3_servers : Bool → List Object → List Object
unfolding upgrade_h3
prefer_h3_servers prefer servers = if prefer then map upgrade_h3 servers else servers

-- The sections of nameservers, after the step that takes bootstrap servers.
pub record Sections : Type 0 where
  pub default_tags : List String
  pub nameserver_tags : List String
  pub fallback_tags : List String
  pub servers : List Object
  pub warnings : List String

abbrev pub no_default_warning : String
no_default_warning =
    "no default-nameserver configured and no IP-based nameserver found; proxy server domains may not resolve correctly"

module _ (o : Outside) where
  unfoldable pub build_sections : RawDns → String → Sections
  unfolding build_dns_server_entries auto_bootstrap
  build_sections dns detour =
      let def = build_dns_server_entries o dns.default_nameserver "def-" "" in
      let ns = build_dns_server_entries o dns.name_server "ns-" detour in
      let fb = build_dns_server_entries o dns.fallback "fb-" detour in
      let psn = build_dns_server_entries o dns.proxy_server_nameserver "psn-" "" in
      let auto = if is_empty def.tags then auto_bootstrap o 0 dns.name_server else no_entries in
      let default_tags = if is_empty def.tags then auto.tags else def.tags in
      record {
        default_tags = default_tags;
        nameserver_tags = ns.tags;
        fallback_tags = fb.tags;
        servers = def.servers ++ ns.servers ++ fb.servers ++ psn.servers ++ auto.servers;
        warnings =
            def.warnings
            ++ ns.warnings
            ++ fb.warnings
            ++ psn.warnings
            ++ auto.warnings
            ++ (if is_empty default_tags then no_default_warning ∷ [] else []);
      }

-- `route.default_domain_resolver` after the sections.
unfoldable pub choose_resolver : List String → List Object → String → String
unfolding prefer_udp_server
choose_resolver default_tags servers current =
    if is_empty default_tags then current else prefer_udp_server default_tags servers

-- The ninth step: `dns.final`.
unfoldable pub choose_final : List String → List String → String
choose_final [] nameserver_tags = first_or_empty nameserver_tags
choose_final (tag ∷ tags) nameserver_tags = tag

-- The last step: a resolver that is set and is not of type local, and the servers with it.
unfoldable pub ensure_resolver : String → List Object → String × List Object
unfolding is_local_dns_server add_bootstrap_dns
ensure_resolver resolver servers =
    if resolver == "" || is_local_dns_server resolver servers
    then add_bootstrap_dns servers
    else (resolver, servers)

unfoldable pub with_dns : Dns → String → Translation → Translation
with_dns dns resolver t = record t {
  config = record t.config {
    dns = some dns;
    route = record t.config.route { default_domain_resolver = resolver };
  };
}

-- `if !dns.Enable`
unfoldable pub disabled_dns : Translation → Translation
unfolding with_dns add_bootstrap_dns
disabled_dns t =
    let (tag, servers) = add_bootstrap_dns [] in
    record (with_dns (record { servers = servers; rules = []; final = tag; strategy = "" }) tag t) {
      dns_enabled = false;
    }

module _ (o : Outside) where
  unfoldable pub enabled_dns : RawConfig → Translation → Translation
  unfolding build_sections choose_resolver set_domain_resolvers translate_fake_ip translate_hosts
      prefer_h3_servers ensure_resolver dns_strategy choose_final with_dns warn_all
  enabled_dns cfg t =
      let s = build_sections o cfg.dns (first_group_tag t) in
      let chosen =
        choose_resolver s.default_tags s.servers t.config.route.default_domain_resolver in
      let (resolved, warnings) = set_domain_resolvers o s.default_tags s.default_tags s.servers in
      let fake = translate_fake_ip o cfg.dns (first_or_empty s.nameserver_tags) in
      let (hosts, hosts_rules) = translate_hosts cfg.hosts cfg.dns.use_hosts in
      let upgraded = prefer_h3_servers cfg.dns.prefer_h3 (resolved ++ fake.servers ++ hosts) in
      let (resolver, servers) = ensure_resolver chosen upgraded in
      let dns : Dns = record {
        servers = servers;
        rules = fake.rules ++ hosts_rules;
        final = choose_final s.fallback_tags s.nameserver_tags;
        strategy = dns_strategy cfg;
      } in
      record (with_dns dns resolver (warn_all (s.warnings ++ warnings) t)) {
        dns_enabled = true;
        dns_terminal_rules = t.dns_terminal_rules ++ fake.terminal;
      }

  -- `translateDNS`
  unfoldable pub translate_dns : RawConfig → Translation → Translation
  unfolding disabled_dns enabled_dns
  translate_dns cfg t = if cfg.dns.enable then enabled_dns cfg t else disabled_dns t
