-- ===== src/Examples.antt =====
-- Concrete inputs, runs of the definitions on them, and the theorems at these inputs.
mod Lifecycle
mod Formats
mod Settings
mod Pipeline
use cff_core.Base.{
  ℕ, ◌<◌, length, ℤ, pos, negsuc, String, Char, Bool, true, false, List, [], ◌∷◌, Option, none,
  some, ◌≡◌, refl, All, is_positive, ◌≤◌, arith,
}
use cff_core.Outside.{Addr, Outside}
use cff_core.Value.{Value, Items, Object, str, int, strs, list, nil, cons, object_of, get_text}
use cff_core.Translator.State.{Route, Dns, SingboxConfig, Translation}
use cff_core.Translator.Groups.{translate_groups}
use cff_core.Translator.Groups.Cleanup.{Cleaned, cleanup_loop, cleanup_group_outbounds}
use cff_core.Translator.Groups.Cleanup.Laws.{
  IsCovered, LoopLaws, cleanup_loop_total, cleanup_loop-LoopLaws, cleanup_group_outbounds-LoopLaws,
}
use cff_core.Translator.Groups.Cleanup.Pass.{tags_of}
use cff_core.Translator.Groups.Closed.{GroupsLaws, translate_groups-GroupsLaws}
use cff_core.Translator.Groups.Closed.{HasMembers, Resolves}
use cff_core.Translator.Groups.Default.{generate_default_groups}
use cff_core.Translator.Groups.Default.Members.{generate_default_groups-HasMembers}
use cff_core.Translator.Proxies.{translate_proxies}
use cff_core.Translator.Proxies.Visible.{VisibleLaws, translate_proxies-VisibleLaws}
use cff_core.Translator.Validation.{
  Invalid, validate, missing_member, first_error, collect_tag, collect_from, collect_outbound_tags,
  all_texts, outbound_members, check_known, check_reference, check_group, validate_group_members,
  validate_route_rules, server_tags, check_detour, check_server, validate_dns_references,
  validate_with,
}
use cff_core.Translator.Validation.Sound.{StartLaws, validate-StartLaws}
use cff_core.Translator.DnsServers.{
  find_first_direct_dns_tag, find_first_ech_capable_dns_tag, is_udp, is_encrypted,
}
use cff_core.Translator.DnsServers.First.{
  direct_tags, any_type, first_or, find_first_direct_dns_tag-first_or,
}

abbrev pub outside : Outside
outside = record {
  float_int = λ f. pos f;
  float_text = λ f. "";
  upper = λ c. c;
  lower = λ c. c;
  parse_addr = λ s. none;
  split_host_port = λ s. none;
  parse_cidr = λ s. none;
  is_uuid = λ s. true;
  base64_decode = λ s. none;
  ech_pem = λ b. none;
  format_value = λ v. "";
}

abbrev no_route : Route
no_route = record {
  rules = [];
  rule_set = [];
  final = "";
  auto_detect_interface = true;
  find_process = false;
  default_interface = "";
  default_mark = 0;
  default_domain_resolver = "";
}

abbrev no_config : SingboxConfig
no_config = record {
  log = none;
  dns = none;
  inbounds = [];
  outbounds = [];
  route = no_route;
  experimental = none;
}

abbrev pub fresh : Translation
fresh = record {
  config = no_config;
  warnings = [];
  proxy_tags = [];
  stub_tags = [];
  invalid_health_check_proxy_tags = [];
  group_tag_order = [];
  group_tags = [];
  rule_set_defs = [];
  ech_query_servers = [];
  dns_terminal_rules = [];
  dns_enabled = false;
  country = "cn";
}

abbrev pub node : Object
node = object_of (
    ("name", str "node")
    ∷ ("type", str "snell")
    ∷ ("server", str "1.2.3.4")
    ∷ ("port", int (pos 443))
    ∷ [])

abbrev group_a : Object
group_a = object_of (
    ("name", str "A")
    ∷ ("type", str "select")
    ∷ ("proxies", list (cons (str "node") (cons (str "B") nil)))
    ∷ [])

-- Group B is skipped, since relays are not supported, and A is left with the node.
abbrev group_b : Object
group_b =
    object_of
      (("name", str "B") ∷ ("type", str "relay") ∷ ("proxies", list (cons (str "node") nil)) ∷ [])

abbrev with_node : Translation
with_node = record fresh { proxy_tags = "node" ∷ [] }

abbrev two_groups : List Object
two_groups = group_a ∷ group_b ∷ []

translate_groups-GroupsLaws_example :
    GroupsLaws with_node
      (translate_groups outside two_groups with_node).0
      (translate_groups outside two_groups with_node).1
translate_groups-GroupsLaws_example = translate_groups-GroupsLaws outside two_groups with_node

-- A has a member that is no outbound any more, and nothing is left of B.
abbrev outbound_a : Object
outbound_a = object_of (("tag", str "A") ∷ ("outbounds", strs ("B" ∷ "node" ∷ [])) ∷ [])

abbrev outbound_b : Object
outbound_b = object_of (("tag", str "B") ∷ ("outbounds", strs ("C" ∷ [])) ∷ [])

abbrev two_outbounds : List Object
two_outbounds = outbound_a ∷ outbound_b ∷ []

cleanup_loop_total_example :
    (r : Cleaned) × (cleanup_loop 3 two_outbounds ("A" ∷ "B" ∷ []) with_node ≡ some r)
cleanup_loop_total_example =
    cleanup_loop_total 3 two_outbounds ("A" ∷ "B" ∷ []) with_node (omega arith)

two_outbounds-IsCovered : IsCovered ("A" ∷ "B" ∷ []) two_outbounds
unfolding get_text object_of
two_outbounds-IsCovered = λ j h. h

cleanup_group_outbounds-LoopLaws_example :
    LoopLaws with_node (cleanup_group_outbounds two_outbounds ("A" ∷ "B" ∷ []) with_node)
cleanup_group_outbounds-LoopLaws_example =
    cleanup_group_outbounds-LoopLaws two_outbounds ("A" ∷ "B" ∷ []) with_node
      two_outbounds-IsCovered

translate_proxies-VisibleLaws_example :
    VisibleLaws (node ∷ []) fresh (translate_proxies outside (node ∷ []) "chrome" fresh)
translate_proxies-VisibleLaws_example =
    translate_proxies-VisibleLaws outside "chrome" (node ∷ []) fresh

abbrev valid_outbound : Object
valid_outbound = object_of (("tag", str "A") ∷ ("outbounds", strs ("DIRECT" ∷ "node" ∷ [])) ∷ [])

abbrev node_outbound : Object
node_outbound = object_of (("tag", str "node") ∷ [])

abbrev one_server : Dns
one_server = record {
  servers = object_of (("tag", str "dns-0") ∷ ("detour", str "A") ∷ []) ∷ [];
  rules = object_of (("server", str "dns-0") ∷ []) ∷ [];
  final = "dns-0";
  strategy = "";
}

abbrev pub valid_translation : Translation
valid_translation = record fresh {
  config = record no_config {
    outbounds = valid_outbound ∷ node_outbound ∷ [];
    route = record no_route { final = "A" };
    dns = some one_server;
  };
}

pub validate-valid_translation : (validate valid_translation).0 ≡ none
unfolding validate collect_outbound_tags object_of validate_with validate_group_members first_error
    check_group outbound_members check_known check_reference validate_dns_references check_detour
    check_server server_tags
validate-valid_translation = refl

validate-StartLaws_example : StartLaws valid_translation
validate-StartLaws_example = validate-StartLaws valid_translation validate-valid_translation

abbrev with_rules : Translation
with_rules = record fresh {
  group_tag_order = "A" ∷ [];
  config = record no_config {
    route = record no_route {
      rules =
          object_of (("outbound", str "REJECT") ∷ [])
          ∷ object_of (("outbound", str "A") ∷ ("rule_set", strs ("gone" ∷ [])) ∷ [])
          ∷ [];
    };
  };
}

abbrev two_servers : Dns
two_servers = record one_server {
  servers =
      object_of (("type", str "https") ∷ ("tag", str "dns-0") ∷ [])
      ∷ object_of (("type", str "udp") ∷ ("tag", str "dns-1") ∷ [])
      ∷ [];
}

find_first_direct_dns_tag-first_or_example :
    let others = first_or "" (direct_tags any_type two_servers.servers) in
    (find_first_direct_dns_tag (some two_servers)
      ≡ first_or others (direct_tags is_udp two_servers.servers))
    × (find_first_ech_capable_dns_tag (some two_servers)
        ≡ first_or others (direct_tags is_encrypted two_servers.servers))
find_first_direct_dns_tag-first_or_example = find_first_direct_dns_tag-first_or two_servers

abbrev three_proxies : Translation
three_proxies = record fresh {
  proxy_tags = "c" ∷ "a" ∷ "b" ∷ [];
  invalid_health_check_proxy_tags = "a" ∷ [];
}

generate_default_groups-HasMembers_example :
    let groups = (generate_default_groups outside three_proxies).0 in
    All (HasMembers (Resolves three_proxies.proxy_tags groups)) groups
generate_default_groups-HasMembers_example =
    generate_default_groups-HasMembers outside three_proxies
