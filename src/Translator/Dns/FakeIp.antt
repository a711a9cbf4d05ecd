-- ===== src/Translator/Dns/FakeIp.antt =====
-- The fake addresses and the hosts of `translateDNS` in translator/dns.go.
pub mod Laws
use cff_core.Base.{
  String, Bool, true, false, not, ◌&&◌, ◌||◌, List, [], ◌∷◌, ◌++◌, Option, none, some, is_some,
  is_empty, map, ◌==◌, if◌then◌else◌,
}
use cff_core.Base.Text.{◌+++◌, cut, cut_prefix, has_prefix, trim_prefix}
use cff_core.Base.Sort.{sort_texts}
use cff_core.Outside.{Outside}
use cff_core.Value.{Value, Object, str, strs, list, obj, empty, put, object_of, item_texts}
use cff_core.Translator.RawConfig.{RawDns}
use cff_core.Translator.Dns.Server.{default_fake_ip_range}

module _ (o : Outside) where
  -- `normalizeFakeIPRange`
  unfoldable pub normalize_fake_ip_range : String → String
  normalize_fake_ip_range ip_range = elim (o.parse_cidr ip_range) [
    | none ↦ default_fake_ip_range
    | some (text, inside) ↦ if inside then default_fake_ip_range else text
  ]

  -- `normalizeFakeIPRange6`
  unfoldable pub normalize_fake_ip_range6 : String → String
  normalize_fake_ip_range6 ip_range = elim (o.parse_cidr ip_range) [
    | none ↦ ip_range
    | some (text, inside) ↦ text
  ]

abbrev pub fakeip_tag : String
fakeip_tag = "fakeip-dns"

module _ (o : Outside) where
  unfoldable pub fakeip_server : RawDns → Object
  unfolding object_of put normalize_fake_ip_range normalize_fake_ip_range6
  fakeip_server dns =
      let inet4_range =
        if dns.fake_ip_range == ""
        then default_fake_ip_range
        else normalize_fake_ip_range o dns.fake_ip_range in
      let srv = object_of (
        ("type", str "fakeip") ∷ ("tag", str fakeip_tag) ∷ ("inet4_range", str inet4_range) ∷ []) in
      if dns.fake_ip_range6 == ""
      then srv
      else put "inet6_range" (str (normalize_fake_ip_range6 o dns.fake_ip_range6)) srv

-- `f[1:]` of a text that starts with `*`.
unfoldable pub without_star : String → String
unfolding trim_prefix
without_star f = trim_prefix f "*"

-- The suffixes and the domains of `fake-ip-filter`.
unfoldable pub split_filter : List String → List String × List String
unfolding has_prefix without_star cut
split_filter [] = ([], [])
split_filter (f ∷ filter) =
    let (suffixes, domains) = split_filter filter in
    if has_prefix f "*."
    then (without_star f ∷ suffixes, domains)
    else if is_some (cut f b'*')
    then (("." +++ trim_prefix f "*") ∷ suffixes, domains)
    else (suffixes, f ∷ domains)

-- `if len(names) > 0`, a rule from the names to a server.
unfoldable pub names_rule : String → List String → String → List Object
unfolding object_of
names_rule key names server =
    if is_empty names then [] else object_of ((key, strs names) ∷ ("server", str server) ∷ []) ∷ []

unfoldable pub filter_rules : List String → String → List Object
unfolding split_filter names_rule
filter_rules filter server =
    let (suffixes, domains) = split_filter filter in
    names_rule "domain_suffix" suffixes server ++ names_rule "domain" domains server

-- What the step on fake addresses adds: servers, rules, and rules behind all others.
pub record FakeIp : Type 0 where
  pub servers : List Object
  pub rules : List Object
  pub terminal : List Object

module _ (o : Outside) where
  unfoldable pub translate_fake_ip : RawDns → String → FakeIp
  unfolding fakeip_server filter_rules object_of
  translate_fake_ip dns first_ns =
      let filtered = not (is_empty dns.fake_ip_filter) && not (first_ns == "") in
      let whitelist = dns.fake_ip_filter_mode == "whitelist" in
      if dns.enhanced_mode == "fake-ip"
      then record {
        servers = fakeip_server o dns ∷ [];
        rules =
            if filtered
            then filter_rules dns.fake_ip_filter (if whitelist then fakeip_tag else first_ns)
            else [];
        terminal =
            if filtered && whitelist then object_of (("server", str first_ns) ∷ []) ∷ [] else [];
      }
      else record { servers = []; rules = []; terminal = [] }

abbrev pub hosts_tag : String
hosts_tag = "hosts"

abbrev pub put_addresses : String → List String → Object → Object
put_addresses domain [] m = m
put_addresses domain (ip ∷ []) m = put domain (str ip) m
put_addresses domain (ip ∷ ips) m = put domain (strs (ip ∷ ips)) m

-- The switch on the type of a host's value.
unfoldable pub put_host : String → Value → Object → Object
unfolding put item_texts
put_host domain (str v) m = put domain (str v) m
put_host domain (list items) m = put_addresses domain (item_texts items) m
put_host domain v m = m

unfoldable pub predefined_hosts : List (String × Value) → Object
unfolding put_host
predefined_hosts [] = empty
predefined_hosts ((domain, v) ∷ hosts) = put_host domain v (predefined_hosts hosts)

abbrev pub enables : Option Bool → Bool
enables none = true
enables (some b) = b

unfoldable pub uses_hosts : List (String × Value) → Option Bool → Bool
uses_hosts hosts use_hosts = not (is_empty hosts) && enables use_hosts

-- The server and the rule of `hosts`.
unfoldable pub translate_hosts : List (String × Value) → Option Bool → List Object × List Object
unfolding uses_hosts predefined_hosts sort_texts names_rule object_of
translate_hosts hosts use_hosts =
    if uses_hosts hosts use_hosts
    then (
      object_of (
            ("type", str "hosts")
            ∷ ("tag", str hosts_tag)
            ∷ ("predefined", obj (predefined_hosts hosts))
            ∷ [])
          ∷ [],
      names_rule "domain" (sort_texts (map (λ h. h.0) hosts)) hosts_tag,
    )
    else ([], [])
