-- ===== src/Translator/Dns/Server.antt =====
-- `parseDNSServer` of translator/dns.go: one nameserver as a sing-box DNS server.
use cff_core.Base.{
  String, Bool, true, false, ◌&&◌, ◌||◌, List, [], ◌∷◌, Option, none, some, is_some, is_positive,
  not, ◌==◌, if◌then◌else◌,
}
use cff_core.Base.Text.{◌+++◌, trim_space, has_prefix, trim_prefix, to_lower}
use cff_core.Outside.{Outside}
use cff_core.Value.{Value, Object, str, int, bool, obj, put, object_of}
use cff_core.Translator.Dns.Address.{Address, Params, find_param, extract_host_port}

-- `defaultFakeIPRange`
abbrev pub default_fake_ip_range : String
default_fake_ip_range = "198.18.0.0/15"

-- `if b { srv[key] = v }`
unfoldable pub put_when : Bool → String → Value → Object → Object
unfolding put
put_when b key v srv = if b then put key v srv else srv

-- `if v, ok := params[name]; ok { srv[key] = v }`
unfoldable pub put_param : Option String → String → Object → Object
unfolding put
put_param none key srv = srv
put_param (some v) key srv = put key (str v) srv

-- `h3`, unless it is absent or "false".
unfoldable pub forces_h3 : Params → Bool
unfolding find_param
forces_h3 params = elim (find_param "h3" params) [ none ↦ false | some v ↦ not (v == "false") ]

-- `nil` or a server, and the warnings.
abbrev pub Parsed : Type 0
Parsed = Option Object × List String

module _ (o : Outside) where
  -- `schemeToDNSType`
  unfoldable pub scheme_to_dns_type : String → Params → String
  unfolding forces_h3
  scheme_to_dns_type scheme params =
      let s = to_lower o.lower scheme in
      if forces_h3 params
      then "h3"
      else if s == "https"
      then "https"
      else if s == "http"
      then ""
      else if s == "tls"
      then "tls"
      else if s == "quic"
      then "quic"
      else if s == "h3"
      then "h3"
      else "udp"

-- `_, ok := params[key]`
unfoldable pub has_param : String → Params → Bool
unfolding find_param
has_param key params = is_some (find_param key params)

-- The server at an address, up to its path.
unfoldable pub address_server : String → String → Address → Object
unfolding put_when object_of
address_server tag type a =
    put_when (not (a.path == "") && (type == "https" || type == "h3")) "path" (str a.path) (
      put_when (is_positive a.port) "server_port" (int a.port)
        (object_of (("tag", str tag) ∷ ("type", str type) ∷ ("server", str a.host) ∷ [])))

-- The parameters behind `#`.
unfoldable pub put_params : String → Params → Object → Object
unfolding put_when put_param has_param find_param object_of
put_params type params srv =
    put_when (has_param "disable-ipv6" params) "strategy" (str "ipv4_only") (
      put_when (has_param "disable-ipv4" params) "strategy" (str "ipv6_only") (
        put_param (find_param "ecs" params) "client_subnet" (
          put_when
            (has_param "skip-cert-verify" params
              && (type == "https" || (type == "tls" || type == "h3")))
            "tls" (obj (object_of (("enabled", bool true) ∷ ("insecure", bool true) ∷ []))) srv)))

-- The server at an address, whose type is known.
unfoldable pub server_object : String → String → String → Address → Object
unfolding put_when address_server put_params
server_object tag detour type a =
    put_params type a.params
      (put_when (not (detour == "")) "detour" (str detour) (address_server tag type a))

module _ (o : Outside) where
  -- What stands behind the special cases.
  unfoldable pub remote_server : String → String → Address → Parsed
  unfolding scheme_to_dns_type server_object
  remote_server tag detour a =
      let type = scheme_to_dns_type o a.scheme a.params in
      if type == ""
      then (
        none,
        ("DNS server \"" +++ a.host +++ "\": plain HTTP DNS is not supported by sing-box, skipping")
            ∷ [],
      )
      else (some (server_object tag detour type a), [])

  -- `parseDNSServer`
  unfoldable pub parse_dns_server : String → String → String → Parsed
  unfolding trim_space has_prefix trim_prefix object_of remote_server
  parse_dns_server raw_url tag detour =
      let s = trim_space raw_url in
      if s == ""
      then (none, [])
      else if s == "system"
      then (some (object_of (("type", str "local") ∷ ("tag", str tag) ∷ [])), [])
      else if s == "fakeip"
      then (
        some (
            object_of (
              ("type", str "fakeip")
              ∷ ("tag", str tag)
              ∷ ("inet4_range", str default_fake_ip_range)
              ∷ [])),
        ("nameserver \"fakeip\" creates a separate fake-ip pool with the default range "
              +++ default_fake_ip_range
              +++ "; prefer dns.enhanced-mode: fake-ip with fake-ip-range")
            ∷ [],
      )
      else if has_prefix s "rcode://"
      then (
        none,
        ("nameserver \"" +++ s
              +++ "\" is not supported by sing-box (no rcode server type), skipping")
            ∷ [],
      )
      else if has_prefix s "dhcp://"
      then (
        some (
            object_of (
              ("type", str "dhcp")
              ∷ ("tag", str tag)
              ∷ ("interface", str (trim_prefix s "dhcp://"))
              ∷ [])),
        [],
      )
      else remote_server tag detour (extract_host_port o s)
