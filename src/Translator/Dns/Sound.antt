-- ===== src/Translator/Dns/Sound.antt =====
-- `translateDNS` of translator/dns.go as a whole: every reference it writes.
use cff_core.Base.{
  String, true, false, List, [], ◌∷◌, ◌++◌, some, ◌==◌, ◌≡◌, refl, sym, subst, ◌∙◌, All, All-append,
  All-mono, arith, Bool-cases, inl, inr, ◌⊎◌, eq_iff, eq_refl,
}
use cff_core.Base.StringSet.{has, insert}
use cff_core.Outside.{Outside}
use cff_core.Value.{Object, get, get_text, object_of}
use cff_core.Translator.State.{Translation, Dns, warn_all, first_group_tag, first_or_empty}
use cff_core.Translator.RawConfig.{RawConfig}
use cff_core.Translator.Groups.Cleanup.Pass.{tags_of}
use cff_core.Translator.Validation.{server_tags}
use cff_core.Translator.Validation.Sound.{IsOutbound, IsServer, IsReference}
use cff_core.Translator.Dns.Entries.{
  bootstrap_tag, bootstrap_server, add_bootstrap_dns, is_local_dns_server, is_text,
}
use cff_core.Translator.Dns.FakeIp.{translate_fake_ip, translate_hosts}
use cff_core.Translator.Dns.FakeIp.Laws.{
  Reaches, to_tag, to_first, HasServer, translate_fake_ip-FakeIpLaws, translate_hosts-HostsLaws,
}
use cff_core.Translator.Dns.Resolvers.{set_domain_resolvers}
use cff_core.Translator.Dns.Tags.{AreFresh, build_sections-SectionsLaws}
use cff_core.Translator.Dns.References.{
  Names-IsServer, HasDetourTo, choose_resolver-candidate, ServersLaws, ResolverLaws,
  ensure_resolver-ResolverLaws, collected-ServersLaws,
}
use cff_core.Translator.Dns.{
  build_sections, prefer_h3_servers, choose_resolver, choose_final, ensure_resolver, with_dns,
  disabled_dns, enabled_dns, translate_dns,
}

-- Every rule names one of the servers, the detours and the final server are empty or resolve, and the resolver of the
-- route is one of the servers that is not local. The tag of a server is never empty here.
pub record DnsLaws (obs : List Object) (t : Translation) : Type 0 where
  pub dns : Dns
  pub is_set : t.config.dns ≡ some dns
  pub detours : All (HasDetourTo (IsReference (IsOutbound obs))) dns.servers
  pub rules : All (HasServer (IsServer dns.servers)) dns.rules
  pub terminal : All (HasServer (IsServer dns.servers)) t.dns_terminal_rules
  pub final : IsReference (IsServer dns.servers) dns.final
  pub resolver : IsServer dns.servers t.config.route.default_domain_resolver
  pub not_local : is_local_dns_server t.config.route.default_domain_resolver dns.servers ≡ false

module _ (P : String → Type 0) where
  pub first_or_empty-holds :
      (tags : List String)
      → ((k : String) → has k tags ≡ true → P k)
      → P ""
      → P (first_or_empty tags)
  unfolding has
  first_or_empty-holds [] f p = p
  first_or_empty-holds (tag ∷ tags) f p = f tag (ground (arith, eq_refl tag))

  choose_final-holds :
      (fallback nameserver : List String)
      → ((k : String) → has k fallback ≡ true → P k)
      → ((k : String) → has k nameserver ≡ true → P k)
      → P ""
      → P (choose_final fallback nameserver)
  unfolding choose_final has
  choose_final-holds [] nameserver f g p = first_or_empty-holds nameserver g p
  choose_final-holds (tag ∷ tags) nameserver f g p = f tag (ground (arith, eq_refl tag))

absent-IsReference : (Q : String → Type 0) (k : String) → (k == "") ≡ true → IsReference Q k
absent-IsReference Q k h = inl h

-- A tag of the servers before the last step is one of a server after it.
kept-IsServer :
    (P : String → Type 0) (before : List Object) (r : String × List Object) (k : String)
    → AreFresh (tags_of before)
    → ResolverLaws P before r
    → has k (tags_of before) ≡ true
    → IsServer r.1 k
kept-IsServer P before r k f l h = Names-IsServer r.1 k (record {
  known = l.kept k h;
  some_text = elim (Bool-cases (k == "")) [
    | inl e ↦ absurd (
        ground (
          arith,
          f.no_empty,
          subst (λ j. has j (tags_of before) ≡ true) {y = ""} (ground (arith, eq_iff k "")) h,
        ))
    | inr e ↦ e
  ];
})

Reaches-holds :
    (Q : String → Type 0) (tags names : List String) (k : String)
    → ((j : String) → has j tags ≡ true → Q j)
    → ((j : String) → has j names ≡ true → Q j)
    → Reaches tags (first_or_empty names) k
    → Q k
Reaches-holds Q tags names k f g (to_tag h) = f k h
Reaches-holds Q tags names k f g (to_first e n) = subst Q (sym e) (
    first_or_empty-holds (λ j. (j == "") ≡ false → Q j) names (λ j h m. g j h) (λ m. absurd (cc)) n)

in_servers :
    {P : String → Type 0} {s fake hosts servers : List Object}
    → ServersLaws P s fake hosts servers
    → (k : String)
    → ((has k (tags_of s) ≡ true) ⊎ (has k (tags_of fake) ≡ true)) ⊎ (has k (tags_of hosts) ≡ true)
    → has k (tags_of servers) ≡ true
in_servers l k (inl (inl h)) = l.holds k ∙ rw h refl
in_servers l k (inl (inr h)) = ground (arith, l.holds k, h)
in_servers l k (inr h) = ground (arith, l.holds k, h)

disabled_dns-DnsLaws :
    (obs : List Object) (t : Translation) → t.dns_terminal_rules ≡ [] → DnsLaws obs (disabled_dns t)
unfolding disabled_dns add_bootstrap_dns bootstrap_server get_text get object_of has server_tags
    insert is_local_dns_server is_text with_dns
disabled_dns-DnsLaws obs t h = record {
  dns = record {
    servers = (add_bootstrap_dns []).1;
    rules = [];
    final = bootstrap_tag;
    strategy = "";
  };
  is_set = refl;
  detours = (inl refl, tt);
  rules = tt;
  terminal = rw h tt;
  final = inr refl;
  resolver = refl;
  not_local = refl;
}

module _ (o : Outside) where
  enabled_dns-DnsLaws :
      (cfg : RawConfig) (t : Translation) (obs : List Object)
      → IsReference (IsOutbound obs) (first_group_tag t)
      → t.config.route.default_domain_resolver ≡ ""
      → t.dns_terminal_rules ≡ []
      → DnsLaws obs (enabled_dns o cfg t)
  unfolding enabled_dns with_dns warn_all
  enabled_dns-DnsLaws cfg t obs group unset empty =
      let P = IsReference (IsOutbound obs) in
      let s = build_sections o cfg.dns (first_group_tag t) in
      let first = first_or_empty s.nameserver_tags in
      let fake = translate_fake_ip o cfg.dns first in
      let hosts = translate_hosts cfg.hosts cfg.dns.use_hosts in
      let sl =
        build_sections-SectionsLaws o cfg.dns P (first_group_tag t)
          (absent-IsReference (IsOutbound obs)) group in
      let fl = translate_fake_ip-FakeIpLaws o cfg.dns first in
      let hl = translate_hosts-HostsLaws cfg.hosts cfg.dns.use_hosts in
      let up = prefer_h3_servers cfg.dns.prefer_h3 (
        (set_domain_resolvers o s.default_tags s.default_tags s.servers).0
        ++ fake.servers
        ++ hosts.0) in
      let vl =
        collected-ServersLaws o P cfg.dns.prefer_h3 s.default_tags s.servers fake.servers hosts.0
          (inl refl) sl.fresh sl.detoured fl.servers hl.servers in
      let chosen =
        choose_resolver s.default_tags s.servers t.config.route.default_domain_resolver in
      let known =
        λ (k : String) (h : has k (tags_of s.servers) ≡ true). in_servers vl k (inl (inl h)) in
      let R = IsReference (λ k. has k (tags_of up) ≡ true) in
      let reference =
        choose_resolver-candidate R s.servers s.default_tags t.config.route.default_domain_resolver
          (λ k h. inr (known k (sl.defaults k h))) (rw unset (inl refl)) in
      let rl = ensure_resolver-ResolverLaws P (inl refl) chosen up vl.fresh vl.detoured reference in
      let Q = IsServer (ensure_resolver chosen up).1 in
      let served = λ (k : String) (h : has k (tags_of up) ≡ true).
        kept-IsServer P up (ensure_resolver chosen up) k vl.fresh rl h in
      let of_ns = λ (k : String) (h : has k s.nameserver_tags ≡ true).
        served k (known k (sl.nameservers k h)) in
      let of_fb =
        λ (k : String) (h : has k s.fallback_tags ≡ true). served k (known k (sl.fallbacks k h)) in
      let of_fake = λ (k : String) (h : has k (tags_of fake.servers) ≡ true).
        served k (in_servers vl k (inl (inr h))) in
      let of_hosts =
        λ (k : String) (h : has k (tags_of hosts.0) ≡ true). served k (in_servers vl k (inr h)) in
      let reach = λ (r : Object).
        Reaches-holds Q (tags_of fake.servers) s.nameserver_tags (get_text "server" r) of_fake
          of_ns in
      record {
        dns = _;
        is_set = refl;
        detours = rl.detoured;
        rules =
            All-append (HasServer Q) fake.rules hosts.1
              (All-mono _ (HasServer Q) reach fake.rules fl.rules)
              (All-mono _ (HasServer Q) (λ r h. of_hosts _ h) hosts.1 hl.rules);
        terminal =
            All-append (HasServer Q) t.dns_terminal_rules fake.terminal
              (subst (All (HasServer Q)) (sym empty) tt)
              (All-mono _ (HasServer Q) reach fake.terminal fl.terminal);
        final =
            choose_final-holds (IsReference Q) s.fallback_tags s.nameserver_tags
              (λ k h. inr (of_fb k h)) (λ k h. inr (of_ns k h)) (inl refl);
        resolver = Names-IsServer _ _ rl.named;
        not_local = rl.not_local;
      }

  -- The same for outbounds that are still to come.
  pub translate_dns-DnsLaws_at :
      (cfg : RawConfig) (t : Translation) (obs : List Object)
      → IsReference (IsOutbound obs) (first_group_tag t)
      → t.config.route.default_domain_resolver ≡ ""
      → t.dns_terminal_rules ≡ []
      → DnsLaws obs (translate_dns o cfg t)
  unfolding translate_dns
  translate_dns-DnsLaws_at cfg t obs group unset empty = elim (Bool-cases cfg.dns.enable) [
    | inl e ↦ rw e (enabled_dns-DnsLaws cfg t obs group unset empty)
    | inr e ↦ rw e (disabled_dns-DnsLaws obs t empty)
  ]

  -- From a state without a resolver for the route and without rules kept for the end, whose first group is an
  -- outbound or absent, `translateDNS` gives settings in which every rule, those kept for the end included, names one of the servers, every detour is empty or
  -- an outbound, the final server is empty or one of the servers, and the route's resolver is one of them, not of
  -- type local.
  pub translate_dns-DnsLaws :
      (cfg : RawConfig) (t : Translation)
      → IsReference (IsOutbound t.config.outbounds) (first_group_tag t)
      → t.config.route.default_domain_resolver ≡ ""
      → t.dns_terminal_rules ≡ []
      → DnsLaws t.config.outbounds (translate_dns o cfg t)
  translate_dns-DnsLaws cfg t group unset empty =
      translate_dns-DnsLaws_at cfg t t.config.outbounds group unset empty
