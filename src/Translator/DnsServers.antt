-- ===== src/Translator/DnsServers.antt =====
-- The searches of translator/dns.go for a DNS server of some kind.
pub mod First
use cff_core.Base.{
  String, Bool, true, false, not, ◌&&◌, ◌||◌, List, [], ◌∷◌, Option, none, some, ◌==◌,
  if◌then◌else◌,
}
use cff_core.Value.{Object, has_key, get_text}
use cff_core.Translator.State.{Dns}

-- A server that has a tag and no detour, and that is not for fake addresses or hosts.
unfoldable pub is_direct : Object → Bool
unfolding has_key get_text
is_direct srv =
    let type = get_text "type" srv in
    not (type == "fakeip" || type == "hosts")
    && (not (has_key "detour" srv) && not (get_text "tag" srv == ""))

-- The loop of both searches: `preferred` is the test on the type that ends it, `fallback` its variable.
unfoldable pub find_from : (String → Bool) → List Object → String → String
unfolding is_direct get_text
find_from preferred [] fallback = fallback
find_from preferred (srv ∷ servers) fallback =
    let tag = get_text "tag" srv in
    let rest =
      find_from preferred servers (if is_direct srv && fallback == "" then tag else fallback) in
    if is_direct srv && preferred (get_text "type" srv) then tag else rest

unfoldable pub find_server : (String → Bool) → Option Dns → String
unfolding find_from
find_server preferred none = ""
find_server preferred (some dns) = find_from preferred dns.servers ""

abbrev pub is_udp : String → Bool
is_udp type = type == "udp"

-- The types in the switch of `findFirstECHCapableDNSTag`.
abbrev pub is_encrypted : String → Bool
is_encrypted type = type == "https" || (type == "tls" || (type == "quic" || type == "h3"))

-- `findFirstDirectDNSTag`
unfoldable pub find_first_direct_dns_tag : Option Dns → String
unfolding find_server
find_first_direct_dns_tag dns = find_server is_udp dns

-- `findFirstECHCapableDNSTag`
unfoldable pub find_first_ech_capable_dns_tag : Option Dns → String
unfolding find_server
find_first_ech_capable_dns_tag dns = find_server is_encrypted dns

unfoldable pub find_fake_ip_from : List Object → String
unfolding get_text
find_fake_ip_from [] = ""
find_fake_ip_from (srv ∷ servers) =
    let rest = find_fake_ip_from servers in
    let tag = get_text "tag" srv in
    if get_text "type" srv == "fakeip" && not (tag == "") then tag else rest

-- `findFakeIPTag`
unfoldable pub find_fake_ip_tag : Option Dns → String
unfolding find_fake_ip_from
find_fake_ip_tag none = ""
find_fake_ip_tag (some dns) = find_fake_ip_from dns.servers
