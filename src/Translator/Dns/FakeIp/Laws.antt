-- ===== src/Translator/Dns/FakeIp/Laws.antt =====
-- The servers and rules for fake addresses and hosts in `translateDNS` (translator/dns.go).
use cff_core.Base.{
  String, Bool, true, false, List, [], ◌∷◌, Option, map, ◌==◌, if◌then◌else◌, ◌≡◌, refl, All,
  All-append, arith, Bool-cases, inl, inr,
}
use cff_core.Base.Sort.{sort_texts}
use cff_core.Base.StringSet.{has}
use cff_core.Outside.{Outside}
use cff_core.Value.{Value, Object, str, get, get_text, strs, object_of}
use cff_core.Value.Laws.{get-object_of_pair}
use cff_core.Translator.RawConfig.{RawDns}
use cff_core.Translator.Groups.Cleanup.Pass.{tags_of}
use cff_core.Translator.Dns.FakeIp.{
  FakeIp, fakeip_tag, fakeip_server, split_filter, names_rule, filter_rules, translate_fake_ip,
  hosts_tag, translate_hosts, uses_hosts,
}

-- The tag of one of the servers, or of the first nameserver, where there is one.
pub data Reaches (tags : List String) (first k : String) : Type 0 where
  to_tag : has k tags ≡ true → Reaches tags first k
  to_first : k ≡ first → (first == "") ≡ false → Reaches tags first k

abbrev pub HasServer : (String → Type 0) → Object → Type 0
HasServer P rule = P (get_text "server" rule)

-- A server with this tag and no detour.
pub record IsPlain (tag : String) (srv : Object) : Type 0 where
  pub tagged : get_text "tag" srv ≡ tag
  pub no_detour : get_text "detour" srv ≡ ""

module _ (P : Object → Type 0) where
  -- What holds of the elements, which are there on a condition.
  All-if : (b : Bool) (xs : List Object) → (b ≡ true → All P xs) → All P (if b then xs else [])
  All-if true xs h = h refl
  All-if false xs h = tt

module _ (P : String → Type 0) (server : String) (p : P server) where
  names_rule-All :
      (key : String) (names : List String)
      → (key == "server") ≡ false
      → All (HasServer P) (names_rule key names server)
  unfolding names_rule get_text
  names_rule-All key [] h = tt
  names_rule-All key (n ∷ ns) h =
      (rw (get-object_of_pair "server" key (strs (n ∷ ns)) (str server) h) p, tt)

  filter_rules-All : (filter : List String) → All (HasServer P) (filter_rules filter server)
  unfolding filter_rules
  filter_rules-All filter =
      let (suffixes, domains) = split_filter filter in
      All-append (HasServer P) (names_rule "domain_suffix" suffixes server) _
        (names_rule-All "domain_suffix" suffixes refl) (names_rule-All "domain" domains refl)

pub record FakeIpLaws (first : String) (fake : FakeIp) : Type 0 where
  pub servers : All (IsPlain fakeip_tag) fake.servers
  pub rules : All (HasServer (Reaches (tags_of fake.servers) first)) fake.rules
  pub terminal : All (HasServer (Reaches (tags_of fake.servers) first)) fake.terminal

to_first_of :
    (tags : List String) (first : String) → (first == "") ≡ false → Reaches tags first first
to_first_of tags first h = to_first refl h

target :
    (P : String → Type 0) (mode first : String)
    → P fakeip_tag
    → P first
    → P (if mode == "whitelist" then fakeip_tag else first)
target P mode first p q = elim (Bool-cases (mode == "whitelist")) [
  | inl e ↦ rw e p
  | inr e ↦ rw e q
]

module _ (o : Outside) where
  fakeip_server-IsPlain : (dns : RawDns) → IsPlain fakeip_tag (fakeip_server o dns)
  unfolding fakeip_server get_text get object_of
  fakeip_server-IsPlain dns = elim (Bool-cases (dns.fake_ip_range6 == "")) [
    | inl e ↦ record { tagged = rw e refl; no_detour = rw e refl }
    | inr e ↦ record { tagged = rw e refl; no_detour = rw e refl }
  ]

  fakeip_tag-tags_of : (dns : RawDns) → has fakeip_tag (tags_of (fakeip_server o dns ∷ [])) ≡ true
  unfolding has
  fakeip_tag-tags_of dns = rw ((fakeip_server-IsPlain dns).tagged) refl

  pub translate_fake_ip-FakeIpLaws :
      (dns : RawDns) (first : String) → FakeIpLaws first (translate_fake_ip o dns first)
  unfolding translate_fake_ip get_text get object_of
  translate_fake_ip-FakeIpLaws dns first = elim (Bool-cases (dns.enhanced_mode == "fake-ip")) [
    | inr e ↦ rw e (record { servers = tt; rules = tt; terminal = tt })
    | inl e ↦
        let P = Reaches (tags_of (fakeip_server o dns ∷ [])) first in
        let to_ns = to_first_of (tags_of (fakeip_server o dns ∷ [])) first in
        rw e (record {
          servers = (fakeip_server-IsPlain dns, tt);
          rules = All-if (HasServer P) _ _ (λ h.
              filter_rules-All P _
                (target P dns.fake_ip_filter_mode first (to_tag (fakeip_tag-tags_of dns))
                  (to_ns (ground arith)))
                dns.fake_ip_filter);
          terminal =
              All-if (HasServer P) _ (object_of (("server", str first) ∷ []) ∷ [])
                (λ h. (to_ns (ground arith), tt));
        })
  ]

pub record HostsLaws (hosts : List Object × List Object) : Type 0 where
  pub servers : All (IsPlain hosts_tag) hosts.0
  pub rules : All (HasServer (λ k. has k (tags_of hosts.0) ≡ true)) hosts.1

pub translate_hosts-HostsLaws :
    (hosts : List (String × Value)) (use_hosts : Option Bool)
    → HostsLaws (translate_hosts hosts use_hosts)
unfolding translate_hosts get_text get object_of has
translate_hosts-HostsLaws hosts use_hosts = elim (Bool-cases (uses_hosts hosts use_hosts)) [
  | inr e ↦ rw e (record { servers = tt; rules = tt })
  | inl e ↦ rw e (record {
    servers = (record { tagged = refl; no_detour = refl }, tt);
    rules =
        names_rule-All (λ k. has k (hosts_tag ∷ []) ≡ true) hosts_tag refl "domain"
          (sort_texts (map (λ h. h.0) hosts)) refl;
  })
]
