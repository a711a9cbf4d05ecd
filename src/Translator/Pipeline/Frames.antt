-- ===== src/Translator/Pipeline/Frames.antt =====
-- What the steps of `translateFromConfig` (translator/translator.go) on the rules and on the DNS settings leave alone.
use cff_core.Base.{
  String, Bool, true, false, not, List, [], ◌∷◌, Option, some, none, ◌==◌, is_empty, is_some,
  if◌then◌else◌, ◌≡◌, refl, Bool-cases, inl, inr,
}
use cff_core.Base.Text.{◌+++◌}
use cff_core.Base.StringSet.{has}
use cff_core.Outside.{Outside}
use cff_core.Value.{Object}
use cff_core.Translator.State.{Translation, Dns, warn, warn_all}
use cff_core.Translator.RawConfig.{RawConfig}
use cff_core.Translator.Rule.{register_rule_set, ensure_rule_set_def, find_def}
use cff_core.Translator.Dns.{translate_dns, enabled_dns, disabled_dns, with_dns}
use cff_core.Translator.Ech.{add_dns_route_action}
use cff_core.Translator.Pipeline.{translate_dns_settings}
use cff_core.Translator.Autoroute.{
  warn_count, warn_unsupported_routing, add_route_rule, rule_set_rule, ensure_and_rule,
  add_services, cn_services, overseas_ai_url, generic_cc_tlds, generate_cn_routes,
  generate_country_routes, translate_rules, with_dns_rules, ensure_country, dns_rules_with,
  dns_rules_onto, generate_dns_rules,
}

-- What the route rules leave alone.
abbrev pub RouteFrame : Type 0
RouteFrame = List Object × List String × String × List Object × String

abbrev pub route_frame : Translation → RouteFrame
route_frame t = (
  t.config.outbounds, t.group_tag_order, t.config.route.default_domain_resolver,
  t.dns_terminal_rules, t.config.route.final,
)

-- The route rules of a step left these as they were at the start.
pub record Framed (start t : Translation) : Type 0 where
  pub frame : route_frame t ≡ route_frame start

module _ {start : Translation} where
  register-Framed :
      (tag url : String) (t : Translation)
      → Framed start t
      → Framed start (register_rule_set tag url t)
  unfolding register_rule_set
  register-Framed tag url t h = elim (Bool-cases (is_some (find_def tag t.rule_set_defs))) [
    | inl e ↦ rw e h
    | inr e ↦ rw e (record { frame = h.frame })
  ]

  rule-Framed :
      (rule : Object) (t : Translation) → Framed start t → Framed start (add_route_rule rule t)
  unfolding add_route_rule
  rule-Framed rule t h = record { frame = h.frame }

  rule_set-Framed :
      (tag outbound : String) (t : Translation)
      → Framed start t
      → Framed start (rule_set_rule tag outbound t)
  unfolding rule_set_rule
  rule_set-Framed tag outbound t h = rule-Framed _ t h

  warn_count-Framed {ℓ} :
      {A : Type ℓ} (xs : List A) (msg : String) (t : Translation)
      → Framed start t
      → Framed start (warn_count xs msg t)
  unfolding warn_count warn
  warn_count-Framed [] msg t h = h
  warn_count-Framed (x ∷ xs) msg t h = record { frame = h.frame }

module _ (o : Outside) {start : Translation} where
  ensure-Framed :
      (tag type name outbound : String) (t : Translation)
      → Framed start t
      → Framed start (ensure_and_rule o tag type name outbound t)
  unfolding ensure_and_rule ensure_rule_set_def
  ensure-Framed tag type name outbound t h =
      rule_set-Framed tag outbound _ (register-Framed tag _ t h)

  services-Framed :
      (names : List String) (t : Translation)
      → Framed start t
      → Framed start (add_services o names t)
  unfolding add_services
  services-Framed [] t h = h
  services-Framed (name ∷ names) t h =
      services-Framed names _ (ensure-Framed ("geosite-" +++ name) "geosite" name "DIRECT" t h)

  cn-Framed :
      (proxy : String) (t : Translation)
      → Framed start t
      → Framed start (generate_cn_routes o proxy t)
  unfolding generate_cn_routes
  cn-Framed proxy t h =
      let overseas =
        rule_set-Framed "overseas-ai" proxy _ (register-Framed "overseas-ai" overseas_ai_url t h) in
      let foreign =
        ensure-Framed "geosite-geolocation-!cn" "geosite" "geolocation-!cn" proxy _
          (services-Framed cn_services _ overseas) in
      let sites = ensure-Framed "geosite-cn" "geosite" "cn" "DIRECT" _ foreign in
      rule-Framed _ _ (ensure-Framed "geoip-cn" "geoip" "cn" "DIRECT" _ sites)

  country-Framed :
      (cc : String) (t : Translation)
      → Framed start t
      → Framed start (generate_country_routes o cc t)
  unfolding generate_country_routes
  country-Framed cc t h =
      let addresses = ensure-Framed ("geoip-" +++ cc) "geoip" cc "DIRECT" t h in
      elim (Bool-cases (has cc generic_cc_tlds)) [
        | inl e ↦ rw e addresses
        | inr e ↦ rw e (rule-Framed _ _ addresses)
      ]

  pub rules-Framed :
      (cfg : RawConfig) (t : Translation) → Framed start t → Framed start (translate_rules o cfg t)
  unfolding translate_rules warn_unsupported_routing
  rules-Framed cfg t h =
      let warned =
        warn_count-Framed cfg.rule_provider _ _
          (warn_count-Framed cfg.proxy_provider _ _ (warn_count-Framed cfg.rule _ t h)) in
      let private =
        ensure-Framed "geosite-private" "geosite" "private" "DIRECT" _ (rule-Framed _ _ warned) in
      elim (Bool-cases (t.country == "cn")) [
        | inl e ↦ rw e (cn-Framed _ _ private)
        | inr e ↦ rw e (country-Framed t.country _ private)
      ]

-- What the DNS settings leave alone.
pub record Kept (start t : Translation) : Type 0 where
  pub outbounds : t.config.outbounds ≡ start.config.outbounds
  pub order : t.group_tag_order ≡ start.group_tag_order
  pub final : t.config.route.final ≡ start.config.route.final

if-Kept :
    (start : Translation) (b : Bool) (t t' : Translation)
    → Kept start t
    → Kept start t'
    → Kept start (if b then t else t')
if-Kept start true t t' h k = h
if-Kept start false t t' h k = k

module _ (o : Outside) (start : Translation) where
  dns-Kept : (cfg : RawConfig) → Kept start (translate_dns o cfg start)
  unfolding translate_dns enabled_dns disabled_dns with_dns warn_all
  dns-Kept cfg =
      if-Kept start cfg.dns.enable (enabled_dns o cfg start) (disabled_dns start)
        (record { outbounds = refl; order = refl; final = refl })
        (record { outbounds = refl; order = refl; final = refl })

  ensure_def-Kept :
      (tag type name : String) (t : Translation)
      → Kept start t
      → Kept start (ensure_rule_set_def o tag type name t)
  unfolding ensure_rule_set_def register_rule_set
  ensure_def-Kept tag type name t h =
      if-Kept start (is_some (find_def tag t.rule_set_defs)) t _ h
        (record { outbounds = h.outbounds; order = h.order; final = h.final })

  ensure_country-Kept :
      (cc : String) (t : Translation) → Kept start t → Kept start (ensure_country o cc t)
  unfolding ensure_country
  ensure_country-Kept cc t h =
      let private = ensure_def-Kept "geosite-private" "geosite" "private" t h in
      ensure_def-Kept ("geoip-" +++ cc) "geoip" cc _ (
        if-Kept start (cc == "cn") _ _ (ensure_def-Kept "geosite-cn" "geosite" "cn" _ private)
          private)

  with_rules-Kept :
      (dns : Dns) (rules : List Object) (t : Translation)
      → Kept start t
      → Kept start (with_dns_rules dns rules t)
  unfolding with_dns_rules
  with_rules-Kept dns rules t h = record {
    outbounds = h.outbounds;
    order = h.order;
    final = h.final;
  }

  dns_rules_with-Kept :
      (direct : String) (dns : Dns) (t : Translation)
      → Kept start t
      → Kept start (dns_rules_with o direct dns t)
  unfolding dns_rules_with warn
  dns_rules_with-Kept direct dns t h =
      if-Kept start (direct == "") _ _
        (record { outbounds = h.outbounds; order = h.order; final = h.final })
        (with_rules-Kept dns _ _ (ensure_country-Kept t.country t h))

  generate-Kept :
      (dns : Option Dns) (t : Translation) → Kept start t → Kept start (dns_rules_onto o dns t)
  unfolding dns_rules_onto
  generate-Kept none t h = h
  generate-Kept (some dns) t h =
      if-Kept start (is_empty dns.servers) t _ h
        (if-Kept start (not t.dns_enabled) t _ h (dns_rules_with-Kept _ dns t h))

  pub settings-Kept : (cfg : RawConfig) → Kept start (translate_dns_settings o cfg start)
  unfolding translate_dns_settings generate_dns_rules add_dns_route_action
  settings-Kept cfg =
      let t = translate_dns o cfg start in
      let h = generate-Kept t.config.dns t (dns-Kept cfg) in
      record { outbounds = h.outbounds; order = h.order; final = h.final }
