-- ===== src/Translator/Pipeline.antt =====
-- `translateFromConfig` of translator/translator.go: the steps in their order. The text that
-- `encoding/json` makes of the configuration is not part of it.
pub mod Defaults
pub mod Outbounds
pub mod Frames
pub mod Orphans
pub mod Accepted
use cff_core.Base.{
  String, Bool, false, List, [], ◌∷◌, ◌++◌, Option, none, some, is_empty, if◌then◌else◌,
}
use cff_core.Base.Text.{to_lower}
use cff_core.Outside.{Outside}
use cff_core.Value.{Object}
use cff_core.Translator.State.{Translation, SingboxConfig, Route}
use cff_core.Translator.RawConfig.{RawConfig}
use cff_core.Translator.General.{translate_general, translate_experimental}
use cff_core.Translator.Proxies.{translate_proxies}
use cff_core.Translator.Ech.{collect_ech_query_servers, add_dns_route_action}
use cff_core.Translator.Groups.{translate_groups}
use cff_core.Translator.Groups.Default.{generate_default_groups}
use cff_core.Translator.Autoroute.{translate_rules, generate_dns_rules}
use cff_core.Translator.Dns.{translate_dns}
use cff_core.Translator.Tun.{translate_tun}
use cff_core.Translator.Assemble.{assemble}
use cff_core.Translator.Validation.{Invalid, validate}

abbrev pub no_route : Route
no_route = record {
  rules = [];
  rule_set = [];
  final = "";
  auto_detect_interface = false;
  find_process = false;
  default_interface = "";
  default_mark = 0;
  default_domain_resolver = "";
}

-- The state in which a translation starts, at the country that was detected.
unfoldable pub initial : (String → String) → String → Translation
initial lower country = record {
  config = record {
    log = none;
    dns = none;
    inbounds = [];
    outbounds = [];
    route = no_route;
    experimental = none;
  };
  warnings = [];
  proxy_tags = [];
  stub_tags = [];
  invalid_health_check_proxy_tags = [];
  group_tag_order = [];
  group_tags = [];
  rule_set_defs = [];
  ech_query_servers = [];
  dns_terminal_rules = [];
  dns_enabled = false;
  country = lower country;
}

-- The result: the error and the warnings, or the configuration and the warnings; each with the stubs.
pub data Outcome : Type 0 where
  failed : Invalid → List String → List (String × String) → Outcome
  translated : SingboxConfig → List String → List (String × String) → Outcome

abbrev pub outcome : Option Invalid × Translation → Outcome
outcome (some e, t) = failed e t.warnings t.stub_tags
outcome (none, t) = translated t.config t.warnings t.stub_tags

module _ (o : Outside) where
  -- `if len(t.groupTagOrder) == 0`
  unfoldable pub groups_or_default : List Object × Translation → List Object × Translation
  unfolding generate_default_groups
  groups_or_default (groups, t) =
      if is_empty t.group_tag_order then generate_default_groups o t else (groups, t)

  -- The outbounds: the proxies, and then the groups.
  unfoldable pub translate_outbounds : RawConfig → Translation → Translation
  unfolding translate_proxies collect_ech_query_servers translate_groups groups_or_default
  translate_outbounds cfg t =
      let (proxies, t₁) = translate_proxies o cfg.proxy cfg.global_fingerprint t in
      let t₂ = collect_ech_query_servers proxies t₁ in
      let (groups, t₃) = groups_or_default (translate_groups o cfg.proxy_group t₂) in
      record t₃ {
        config = record t₃.config { outbounds = t₃.config.outbounds ++ proxies ++ groups };
      }

  -- The steps on the DNS settings.
  unfoldable pub translate_dns_settings : RawConfig → Translation → Translation
  unfolding translate_dns generate_dns_rules add_dns_route_action
  translate_dns_settings cfg t = add_dns_route_action (generate_dns_rules o (translate_dns o cfg t))

  -- The steps before the validation.
  unfoldable pub run_steps : RawConfig → Translation → Translation
  unfolding translate_general translate_outbounds translate_rules translate_dns_settings
      translate_tun translate_experimental assemble
  run_steps cfg t =
      let general = record t { config = translate_general cfg t.config } in
      let outbounds = translate_outbounds cfg general in
      let rules = translate_rules o cfg outbounds in
      let dns = translate_dns_settings cfg rules in
      let tun = translate_tun cfg dns in
      let experimental = record tun { config = translate_experimental o cfg tun.config } in
      assemble experimental

  -- `translateFromConfig`
  unfoldable pub translate_from_config : RawConfig → String → Outcome
  unfolding run_steps initial to_lower validate
  translate_from_config cfg country =
      outcome (validate (run_steps cfg (initial (to_lower o.lower) country)))
