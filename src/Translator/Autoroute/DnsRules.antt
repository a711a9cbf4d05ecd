-- ===== src/Translator/Autoroute/DnsRules.antt =====
-- The servers that the DNS rules of `generateDNSRules` (translator/autoroute.go) name.
use cff_core.Base.{
  String, Bool, true, false, not, ◌&&◌, List, [], ◌∷◌, some, map, ◌==◌, is_empty, if◌then◌else◌,
  ◌≡◌, refl, ap, sym, subst, ◌∙◌, is_some, All, All-append, Bool-cases, inl, inr,
}
use cff_core.Base.Text.{◌+++◌}
use cff_core.Translator.Dns.Entries.{is_local_dns_server}
use cff_core.Outside.{Outside}
use cff_core.Value.{Object, str, get, get_text, has_key, as_str}
use cff_core.Value.Laws.{get-put}
use cff_core.Translator.State.{Translation, SingboxConfig, warn}
use cff_core.Translator.Rule.{ensure_rule_set_def, register_rule_set, find_def}
use cff_core.Translator.Validation.Sound.{IsServer, IsReference}
use cff_core.Translator.DnsServers.{find_server, is_udp, find_first_direct_dns_tag}
use cff_core.Translator.Dns.FakeIp.Laws.{HasServer}
use cff_core.Translator.Dns.Sound.{DnsLaws}
use cff_core.Translator.Ech.{route_action, with_actions, add_dns_route_action}
use cff_core.Translator.Autoroute.{
  with_dns_rules, ensure_country, dns_rules_with, dns_rules_onto, generate_dns_rules,
}
use cff_core.Translator.Autoroute.Servers.{found-IsReference, given-IsServer, ordered_rules-All}

config-register_rule_set :
    (tag url : String) (t : Translation)
    → ((register_rule_set tag url t).config ≡ t.config)
      × ((register_rule_set tag url t).dns_terminal_rules ≡ t.dns_terminal_rules)
unfolding register_rule_set
config-register_rule_set tag url t = elim (Bool-cases (is_some (find_def tag t.rule_set_defs))) [
  | inl e ↦ rw e (refl, refl)
  | inr e ↦ rw e (refl, refl)
]

-- The same DNS settings, route and terminal rules.
with_rules-DnsLaws :
    (obs : List Object) (t t' : Translation) (l : DnsLaws obs t) (rules : List Object)
    → t'.config.route.default_domain_resolver ≡ t.config.route.default_domain_resolver
    → t'.dns_terminal_rules ≡ t.dns_terminal_rules
    → All (HasServer (IsServer l.dns.servers)) rules
    → DnsLaws obs (with_dns_rules l.dns rules t')
unfolding with_dns_rules
with_rules-DnsLaws obs t t' l rules same same_terminal h = record {
  dns = record l.dns { rules = rules };
  is_set = refl;
  detours = l.detours;
  rules = h;
  terminal = subst (All (HasServer (IsServer l.dns.servers))) (sym same_terminal) l.terminal;
  final = l.final;
  resolver = subst (IsServer l.dns.servers) (sym same) l.resolver;
  not_local = subst (λ r. is_local_dns_server r l.dns.servers ≡ false) (sym same) l.not_local;
}

if-DnsLaws :
    (obs : List Object) (b : Bool) (t t' : Translation)
    → DnsLaws obs t
    → DnsLaws obs t'
    → DnsLaws obs (if b then t else t')
if-DnsLaws obs true t t' l l' = l
if-DnsLaws obs false t t' l l' = l'

module _ (o : Outside) where
  ensure_same :
      (tag type name : String) (t : Translation)
      → ((ensure_rule_set_def o tag type name t).config ≡ t.config)
        × ((ensure_rule_set_def o tag type name t).dns_terminal_rules ≡ t.dns_terminal_rules)
  unfolding ensure_rule_set_def
  ensure_same tag type name t = config-register_rule_set tag _ t

  ensure_country_same :
      (cc : String) (t : Translation)
      → ((ensure_country o cc t).config ≡ t.config)
        × ((ensure_country o cc t).dns_terminal_rules ≡ t.dns_terminal_rules)
  unfolding ensure_country
  ensure_country_same cc t =
      let private = ensure_rule_set_def o "geosite-private" "geosite" "private" t in
      let (a, b) = ensure_same "geosite-private" "geosite" "private" t in
      elim (Bool-cases (cc == "cn")) [
        | inl e ↦
            let sites = ensure_rule_set_def o "geosite-cn" "geosite" "cn" private in
            let (c, d) = ensure_same "geosite-cn" "geosite" "cn" private in
            let (f, g) = ensure_same ("geoip-" +++ cc) "geoip" cc sites in
            rw e (f ∙ c ∙ a, g ∙ d ∙ b)
        | inr e ↦
            let (f, g) = ensure_same ("geoip-" +++ cc) "geoip" cc private in rw e (f ∙ a, g ∙ b)
      ]

  dns_rules_with-DnsLaws :
      (obs : List Object) (t : Translation) (l : DnsLaws obs t) (direct : String)
      → IsReference (IsServer l.dns.servers) direct
      → DnsLaws obs (dns_rules_with o direct l.dns t)
  unfolding dns_rules_with warn
  dns_rules_with-DnsLaws obs t l direct p = elim (Bool-cases (direct == "")) [
    | inl e ↦ rw e (
        with_rules-DnsLaws obs t (warn "no direct DNS server found; DNS rules not generated" t) l _
          refl refl (All-append _ l.dns.rules t.dns_terminal_rules l.rules l.terminal))
    | inr e ↦
        let (same, same_terminal) = ensure_country_same t.country t in
        rw e (
          with_rules-DnsLaws obs t (ensure_country o t.country t) l _
            (ap (λ (c : SingboxConfig). c.route.default_domain_resolver) same) same_terminal
            (ordered_rules-All l.dns t direct (given-IsServer l.dns.servers direct p e) l.rules
              l.terminal))
  ]

  dns_rules_onto-DnsLaws :
      (obs : List Object) (t : Translation) (l : DnsLaws obs t)
      → DnsLaws obs (dns_rules_onto o (some l.dns) t)
  unfolding dns_rules_onto find_first_direct_dns_tag
  dns_rules_onto-DnsLaws obs t l = if-DnsLaws obs (is_empty l.dns.servers) t _ l (
      if-DnsLaws obs (not t.dns_enabled) t _ l (
        dns_rules_with-DnsLaws obs t l (find_server is_udp (some l.dns))
          (found-IsReference l.dns is_udp)))

  -- Where every DNS rule, those kept for the end included, names one of the servers, the detours and the final server
  -- are empty or resolve, and the route's resolver is a server that is not local, all of this holds behind
  -- `generateDNSRules` too.
  pub generate_dns_rules-DnsLaws :
      (obs : List Object) (t : Translation) → DnsLaws obs t → DnsLaws obs (generate_dns_rules o t)
  unfolding generate_dns_rules
  generate_dns_rules-DnsLaws obs t l =
      subst (λ d. DnsLaws obs (dns_rules_onto o d t)) (sym l.is_set)
        (dns_rules_onto-DnsLaws obs t l)

get-route_action :
    (j : String) (rule : Object) → ("action" == j) ≡ false → get j (route_action rule) ≡ get j rule
unfolding route_action
get-route_action j rule h =
    elim (Bool-cases (not (has_key "action" rule) && has_key "server" rule)) [
      | inl e ↦ rw (e, get-put j "action" (str "route") rule, h) refl
      | inr e ↦ rw e refl
    ]

route_actions-All :
    (P : String → Type 0) (rules : List Object)
    → All (HasServer P) rules
    → All (HasServer P) (map route_action rules)
unfolding get_text
route_actions-All P [] h = tt
route_actions-All P (r ∷ rules) (p, h) = (
  subst (λ v. P (as_str v)) (sym (get-route_action "server" r refl)) p,
  route_actions-All P rules h,
)

-- `addDNSRouteAction` keeps them too.
pub add_dns_route_action-DnsLaws :
    (obs : List Object) (t : Translation) → DnsLaws obs t → DnsLaws obs (add_dns_route_action t)
unfolding add_dns_route_action
add_dns_route_action-DnsLaws obs t l = record {
  dns = record l.dns { rules = map route_action l.dns.rules };
  is_set = ap with_actions l.is_set;
  detours = l.detours;
  rules = route_actions-All (IsServer l.dns.servers) l.dns.rules l.rules;
  terminal = l.terminal;
  final = l.final;
  resolver = l.resolver;
  not_local = l.not_local;
}
