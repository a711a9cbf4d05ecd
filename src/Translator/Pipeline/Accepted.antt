-- ===== src/Translator/Pipeline/Accepted.antt =====
-- `translateFromConfig` of translator/translator.go as a whole: what its validation finds.
use cff_core.Base.{
  String, List, [], ◌∷◌, none, ◌≡◌, refl, ap, sym, subst, ◌∙◌, All, All-mono, Bool-cases, inl, inr,
}
use cff_core.Outside.{Outside}
use cff_core.Value.{Object, get, object_of}
use cff_core.Translator.State.{Translation, Route, first_group_tag, first_or_empty}
use cff_core.Translator.RawConfig.{RawConfig}
use cff_core.Translator.General.{translate_general, translate_experimental, route_defaults}
use cff_core.Translator.Tun.{translate_tun}
use cff_core.Translator.Assemble.{
  remove_orphan_rule_set_rules, direct_outbound, assemble_all, assemble,
}
use cff_core.Translator.Validation.{validate}
use cff_core.Translator.Validation.Sound.{
  named_tags, IsDistinct, IsOutbound, IsServer, IsReference, HasDnsReferences, HasKnownMembers,
  StartLaws,
}
use cff_core.Translator.Validation.Complete.{StartLaws-validate}
use cff_core.Translator.Autoroute.{translate_rules}
use cff_core.Translator.Autoroute.DnsRules.{
  generate_dns_rules-DnsLaws, add_dns_route_action-DnsLaws,
}
use cff_core.Translator.Dns.FakeIp.Laws.{HasServer}
use cff_core.Translator.Dns.Sound.{DnsLaws, translate_dns-DnsLaws_at}
use cff_core.Translator.Pipeline.{initial, translate_outbounds, translate_dns_settings, run_steps}
use cff_core.Translator.Pipeline.Outbounds.{OutboundsLaws, translate_outbounds-OutboundsLaws}
use cff_core.Translator.Pipeline.Frames.{Framed, rules-Framed, settings-Kept}
use cff_core.Translator.Pipeline.Orphans.{filtered-HasDnsReferences, final_or-IsReference}

direct-IsOutbound : (obs : List Object) → IsOutbound obs "DIRECT"
unfolding IsOutbound
direct-IsOutbound obs = refl

-- What `assemble` needs of a state, for the validation to accept what it gives.
record AssembleLaws (t : Translation) : Type 0 where
  members :
      All
        (λ ob. HasKnownMembers (direct_outbound ∷ t.config.outbounds) (get "outbounds" ob))
        t.config.outbounds
  first : IsReference (IsOutbound (direct_outbound ∷ t.config.outbounds)) (first_group_tag t)
  final : IsReference (IsOutbound (direct_outbound ∷ t.config.outbounds)) t.config.route.final
  dns : HasDnsReferences (direct_outbound ∷ t.config.outbounds) t.config.dns

assembled-StartLaws :
    (t : Translation)
    → AssembleLaws t
    → IsDistinct (named_tags (assemble t).config.outbounds)
    → StartLaws (assemble t)
unfolding assemble remove_orphan_rule_set_rules assemble_all get object_of
assembled-StartLaws t l d =
    let obs = direct_outbound ∷ t.config.outbounds in
    record {
      distinct = d;
      members = (tt, l.members);
      final =
          final_or-IsReference (IsOutbound obs) t.config.route.final (first_group_tag t)
            (direct-IsOutbound obs) l.final l.first;
      dns = filtered-HasDnsReferences obs _ t.config.dns _ l.dns;
    }

-- What the steps before the DNS settings give.
record RoutedLaws (t : Translation) : Type 0 where
  members :
      All
        (λ ob. HasKnownMembers (direct_outbound ∷ t.config.outbounds) (get "outbounds" ob))
        t.config.outbounds
  first : IsReference (IsOutbound (direct_outbound ∷ t.config.outbounds)) (first_group_tag t)
  resolver : t.config.route.default_domain_resolver ≡ ""
  terminal : t.dns_terminal_rules ≡ []
  final : t.config.route.final ≡ ""

abbrev AreKnown : List Object → Type 0
AreKnown obs = All (λ ob. HasKnownMembers (direct_outbound ∷ obs) (get "outbounds" ob)) obs

abbrev IsFirst : List Object → List String → Type 0
IsFirst obs order = IsReference (IsOutbound (direct_outbound ∷ obs)) (first_or_empty order)

Framed-RoutedLaws : (start t : Translation) → RoutedLaws start → Framed start t → RoutedLaws t
unfolding first_group_tag
Framed-RoutedLaws start t l f =
    let e = sym f.frame in
    record {
      members = subst (λ q. AreKnown q.0) e l.members;
      first = subst (λ q. IsFirst q.0 q.1) e l.first;
      resolver = ap (λ q. q.2) f.frame ∙ l.resolver;
      terminal = ap (λ q. q.3) f.frame ∙ l.terminal;
      final = ap (λ q. q.4) f.frame ∙ l.final;
    }

OutboundsLaws-RoutedLaws :
    (start t : Translation)
    → OutboundsLaws start t
    → start.config.route.default_domain_resolver ≡ ""
    → start.config.route.final ≡ ""
    → start.dns_terminal_rules ≡ []
    → RoutedLaws t
OutboundsLaws-RoutedLaws start t l resolver final terminal = record {
  members = l.members;
  first = l.first;
  resolver = ap (λ (r : Route). r.default_domain_resolver) l.route ∙ resolver;
  terminal = l.terminal ∙ terminal;
  final = ap (λ (r : Route). r.final) l.route ∙ final;
}

module _ (o : Outside) (cfg : RawConfig) where
  settings-DnsLaws :
      (t : Translation)
      → RoutedLaws t
      → DnsLaws (direct_outbound ∷ t.config.outbounds) (translate_dns_settings o cfg t)
  unfolding translate_dns_settings
  settings-DnsLaws t l =
      let obs = direct_outbound ∷ t.config.outbounds in
      add_dns_route_action-DnsLaws obs _ (
        generate_dns_rules-DnsLaws o obs _
          (translate_dns-DnsLaws_at o cfg t obs l.first l.resolver l.terminal))

  settings-AssembleLaws :
      (t : Translation) → RoutedLaws t → AssembleLaws (translate_dns_settings o cfg t)
  unfolding first_group_tag
  settings-AssembleLaws t l =
      let obs = direct_outbound ∷ t.config.outbounds in
      let k = settings-Kept o t cfg in
      let d = settings-DnsLaws t l in
      record {
        members = subst AreKnown (sym k.outbounds) l.members;
        first =
            subst (λ q. IsFirst q (translate_dns_settings o cfg t).group_tag_order)
              (sym k.outbounds) (subst (IsFirst t.config.outbounds) (sym k.order) l.first);
        final = inl (rw (k.final, l.final) refl);
        dns =
            subst
              (λ q.
                HasDnsReferences (direct_outbound ∷ q) (translate_dns_settings o cfg t).config.dns)
              (sym k.outbounds)
              (subst (HasDnsReferences obs) (sym d.is_set) (
                d.detours,
                All-mono _ (HasServer (IsReference (IsServer d.dns.servers))) (λ r h. inr h)
                    d.dns.rules d.rules,
                d.final,
              ));
      }

  tun-AssembleLaws : (t : Translation) → AssembleLaws t → AssembleLaws (translate_tun cfg t)
  unfolding translate_tun first_group_tag
  tun-AssembleLaws t l = elim (Bool-cases cfg.tun.enable) [
    | inl e ↦ rw e (record { members = l.members; first = l.first; final = l.final; dns = l.dns })
    | inr e ↦ rw e l
  ]

  experimental-AssembleLaws :
      (t : Translation)
      → AssembleLaws t
      → AssembleLaws (record t { config = translate_experimental o cfg t.config })
  unfolding translate_experimental first_group_tag
  experimental-AssembleLaws t l = record {
    members = l.members;
    first = l.first;
    final = l.final;
    dns = l.dns;
  }

  -- On the state in which every translation starts, `validate` behind the steps of `translateFromConfig` reports no
  -- error for any configuration and country, as long as the named outbounds of the result have distinct
  -- tags.
  pub run_steps-validate :
      (lower : String → String) (country : String)
      → let t = run_steps o cfg (initial lower country) in
        IsDistinct (named_tags t.config.outbounds) → (validate t).0 ≡ none
  unfolding run_steps initial translate_general route_defaults
  run_steps-validate lower country d =
      let start = initial lower country in
      let general = record start { config = translate_general cfg start.config } in
      let outbounds = translate_outbounds o cfg general in
      let routed =
        OutboundsLaws-RoutedLaws general outbounds
          (translate_outbounds-OutboundsLaws o cfg general refl refl refl) refl refl refl in
      let rules = translate_rules o cfg outbounds in
      let dns = settings-AssembleLaws rules (
        Framed-RoutedLaws outbounds rules routed
          (rules-Framed o cfg outbounds (record { frame = refl }))) in
      let t = translate_tun cfg (translate_dns_settings o cfg rules) in
      StartLaws-validate _ (
        assembled-StartLaws (record t { config = translate_experimental o cfg t.config })
          (experimental-AssembleLaws t (tun-AssembleLaws _ dns)) d)
