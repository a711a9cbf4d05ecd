-- ===== src/Translator/Dns/Entries.antt =====
-- The sections of nameservers in translator/dns.go, and the choice among the servers they give.
pub mod Laws
use cff_core.Base.{
  ℕ, suc, String, Bool, true, false, ◌&&◌, ◌||◌, List, [], ◌∷◌, ◌++◌, Option, none, some, ◌==◌, leb,
  if◌then◌else◌,
}
use cff_core.Base.Text.{◌+++◌}
use cff_core.Base.Text.Decimal.{itoa_ℕ}
use cff_core.Outside.{Outside}
use cff_core.Value.{Value, Object, str, get, get_text, object_of}
use cff_core.Translator.Dns.Address.{extract_host_port, is_ip_address}
use cff_core.Translator.Dns.Server.{Parsed, parse_dns_server}

-- What a section adds: the tags it returns, the servers it appends, and its warnings.
pub record Entries : Type 0 where
  pub tags : List String
  pub servers : List Object
  pub warnings : List String

abbrev pub no_entries : Entries
no_entries = record { tags = []; servers = []; warnings = [] }

-- `if srv != nil`, in front of the entries that follow.
unfoldable pub add_entry : String → Parsed → Entries → Entries
add_entry tag (none, ws) e = record e { warnings = ws ++ e.warnings }
add_entry tag (some srv, ws) e = record {
  tags = tag ∷ e.tags;
  servers = srv ∷ e.servers;
  warnings = ws ++ e.warnings;
}

module _ (o : Outside) where
  -- The loop of `buildDNSServerEntries`, at index `i`.
  unfoldable pub build_entries_from : ℕ → List String → String → String → Entries
  unfolding add_entry
  build_entries_from i [] prefix detour = no_entries
  build_entries_from i (ns ∷ servers) prefix detour =
      let tag = prefix +++ itoa_ℕ i in
      add_entry tag (parse_dns_server o ns tag detour)
        (build_entries_from (suc i) servers prefix detour)

  -- `buildDNSServerEntries`
  unfoldable pub build_dns_server_entries : List String → String → String → Entries
  unfolding build_entries_from
  build_dns_server_entries servers prefix detour = build_entries_from 0 servers prefix detour

abbrev pub max_bootstrap : ℕ
max_bootstrap = 2

-- The number of bootstrap servers after one more attempt.
unfoldable pub count_entry : Parsed → ℕ → ℕ
count_entry (none, ws) n = n
count_entry (some srv, ws) n = suc n

module _ (o : Outside) where
  -- A nameserver whose host is an address, as a server without a detour.
  unfoldable pub auto_entry : String → String → Parsed
  unfolding is_ip_address extract_host_port
  auto_entry ns tag =
      if is_ip_address o (extract_host_port o ns).host
      then parse_dns_server o ns tag ""
      else (none, [])

  -- The loop that takes bootstrap servers from `nameserver`, with `n` of them taken.
  unfoldable pub auto_bootstrap : ℕ → List String → Entries
  unfolding auto_entry count_entry add_entry
  auto_bootstrap n [] = no_entries
  auto_bootstrap n (ns ∷ servers) =
      let tag = "def-auto-" +++ itoa_ℕ n in
      let parsed = auto_entry ns tag in
      let rest = auto_bootstrap (count_entry parsed n) servers in
      if leb max_bootstrap n then no_entries else add_entry tag parsed rest

-- `v == s`, where `v` is of type `any`.
abbrev pub equals_text : Option Value → String → Bool
equals_text (some (str x)) s = x == s
equals_text _ s = false

-- `srv[key] == s`
unfoldable pub is_text : String → String → Object → Bool
unfolding get
is_text key s srv = equals_text (get key srv) s

unfoldable pub has_udp : String → List Object → Bool
unfolding is_text
has_udp tag [] = false
has_udp tag (srv ∷ servers) =
    (is_text "tag" tag srv && is_text "type" "udp" srv) || has_udp tag servers

-- The loop over the candidates, with the result behind it.
unfoldable pub prefer_udp_from : List String → List Object → String → String
unfolding has_udp
prefer_udp_from [] servers first = first
prefer_udp_from (tag ∷ tags) servers first =
    let rest = prefer_udp_from tags servers first in if has_udp tag servers then tag else rest

-- `preferUDPServer`
unfoldable pub prefer_udp_server : List String → List Object → String
unfolding prefer_udp_from
prefer_udp_server [] servers = ""
prefer_udp_server (tag ∷ tags) servers = prefer_udp_from (tag ∷ tags) servers tag

abbrev pub bootstrap_tag : String
bootstrap_tag = "bootstrap-dns"

-- The server that `addBootstrapDNS` appends.
unfoldable pub bootstrap_server : Object
unfolding object_of
bootstrap_server =
    object_of (("type", str "udp") ∷ ("tag", str bootstrap_tag) ∷ ("server", str "223.5.5.5") ∷ [])

-- `addBootstrapDNS`
unfoldable pub add_bootstrap_dns : List Object → String × List Object
unfolding bootstrap_server
add_bootstrap_dns servers = (bootstrap_tag, servers ++ bootstrap_server ∷ [])

-- `isLocalDNSServer`
unfoldable pub is_local_dns_server : String → List Object → Bool
unfolding get_text is_text
is_local_dns_server tag [] = false
is_local_dns_server tag (srv ∷ servers) =
    let rest = is_local_dns_server tag servers in
    if get_text "tag" srv == tag then is_text "type" "local" srv else rest
