-- ===== src/Translator/Input/Uris.antt =====
-- The proxies of a list of URIs in translator/input.go. The decoders and the parser of URLs are parameters.
use cff_core.Base.{
  pos, is_zero, String, true, not, ◌||◌, List, [], ◌∷◌, Option, none, some, ◌==◌, if◌then◌else◌,
}
use cff_core.Base.Text.{◌+++◌, cut, cut_text, cut_last, trim_space, to_lower}
use cff_core.Outside.{Outside}
use cff_core.Value.{Value, Object, str, int, bool, obj, get, get_text, object_of}
use cff_core.Translator.Dns.Server.{put_when}
use cff_core.Translator.General.{put_text}
use cff_core.Translator.Input.Number.{str_to_int, atoi_clamped}
use cff_core.Translator.Input.Parsers.{Url, Parsers, encodings, first_decoded}

-- `strings.Split(s, "?")[0]`
unfoldable pub before_query : String → String
unfolding cut
before_query s = elim (cut s b'?') [ none ↦ s | some (before, after) ↦ before ]

-- `if p := …; p != nil { proxies = append(proxies, p) }`, in front of those that follow.
abbrev pub with_some : Option Object → List Object → List Object
with_some none rest = rest
with_some (some m) rest = m ∷ rest

-- `strOr`
abbrev pub str_or : Option Value → String → String
str_or (some (str s)) default = if s == "" then default else s
str_or _ default = default

module _ (q : Parsers) where
  -- `base64Decode`
  unfoldable pub base64_decode : String → Option String
  unfolding first_decoded
  base64_decode s = first_decoded (encodings q) s

  -- The credentials and the authority of an `ss` URI.
  unfoldable pub ss_parts : String → Option (String × String)
  unfolding cut cut_last base64_decode before_query
  ss_parts body = elim (cut body b'@') [
    | some (encoded, authority) ↦ elim (base64_decode encoded) [
      | none ↦ none
      | some decoded ↦ some (decoded, before_query authority)
    ]
    | none ↦ elim (base64_decode (before_query body)) [
      | none ↦ none
      | some decoded ↦ cut_last decoded b'@'
    ]
  ]

module _ (o : Outside) (q : Parsers) where
  -- What follows of the credentials, the host and the port.
  unfoldable pub ss_proxy : String → String → String × String → Option Object
  unfolding cut atoi_clamped object_of
  ss_proxy name decoded (host, port) = elim (cut decoded b':') [
    | none ↦ none
    | some (cipher, password) ↦ some (
        object_of (
          ("name", str name)
          ∷ ("type", str "ss")
          ∷ ("server", str host)
          ∷ ("port", int (atoi_clamped port))
          ∷ ("cipher", str cipher)
          ∷ ("password", str password)
          ∷ []))
  ]

  -- `parseSS`
  unfoldable pub parse_ss : String → String → Option Object
  unfolding ss_parts ss_proxy
  parse_ss body name = elim (ss_parts q body) [
    | none ↦ none
    | some (decoded, authority) ↦ elim (o.split_host_port authority) [
      | none ↦ none
      | some hp ↦ ss_proxy name decoded hp
    ]
  ]

  unfoldable pub vmess_proxy : String → Object → Option Object
  unfolding get get_text str_to_int object_of
  vmess_proxy name raw =
      let server = get_text "add" raw in
      let id = get_text "id" raw in
      let ps = get_text "ps" raw in
      if server == "" || id == ""
      then none
      else some (
          object_of (
            ("name", str (if ps == "" then name else ps))
            ∷ ("type", str "vmess")
            ∷ ("server", str server)
            ∷ ("port", int (str_to_int o (get "port" raw)))
            ∷ ("uuid", str id)
            ∷ ("alterId", int (str_to_int o (get "aid" raw)))
            ∷ ("cipher", str (str_or (get "scy" raw) "auto"))
            ∷ []))

  abbrev pub vmess_of : String → Option Value → Option Object
  vmess_of name (some (obj raw)) = vmess_proxy name raw
  vmess_of name _ = none

  -- `parseVmess`
  unfoldable pub parse_vmess : String → String → Option Object
  unfolding base64_decode
  parse_vmess body name = elim (base64_decode q body) [
    | none ↦ none
    | some decoded ↦ vmess_of name (q.json decoded)
  ]

  unfoldable pub vless_proxy : String → Url → Object
  unfolding put_text atoi_clamped object_of
  vless_proxy name u =
      let security = u.query "security" in
      put_text "network" (u.query "type") (
        put_text "servername" (u.query "sni") (
          put_text "flow" (u.query "flow") (
            object_of (
              ("name", str name)
              ∷ ("type", str "vless")
              ∷ ("server", str u.hostname)
              ∷ ("port", int (atoi_clamped u.port))
              ∷ ("udp", bool true)
              ∷ ("tls", bool (security == "tls" || security == "reality"))
              ∷ []))))

  -- `parseVless`
  unfoldable pub parse_vless : String → String → Option Object
  unfolding vless_proxy
  parse_vless body name = elim (q.parse_url ("vless://" +++ body)) [
    | none ↦ none
    | some u ↦ some (vless_proxy name u)
  ]

  -- `parseTrojan`
  unfoldable pub parse_trojan : String → String → Option Object
  unfolding atoi_clamped object_of
  parse_trojan body name = elim (q.parse_url ("trojan://" +++ body)) [
    | none ↦ none
    | some u ↦ some (
        object_of (
          ("name", str name)
          ∷ ("type", str "trojan")
          ∷ ("server", str u.hostname)
          ∷ ("port", int (atoi_clamped u.port))
          ∷ ("password", str u.username)
          ∷ []))
  ]

  unfoldable pub hysteria2_proxy : String → Url → Object
  unfolding put_when put_text atoi_clamped object_of
  hysteria2_proxy name u =
      let port = atoi_clamped u.port in
      let start = object_of (
        ("name", str name)
        ∷ ("type", str "hysteria2")
        ∷ ("server", str u.hostname)
        ∷ ("port", int (pos 443))
        ∷ ("password", str u.username)
        ∷ []) in
      let with_port = put_when (not (is_zero port)) "port" (int port) start in
      let with_sni = put_text "sni" (u.query "sni") with_port in
      let insecure = put_when (u.query "insecure" == "1") "skip-cert-verify" (bool true) with_sni in
      put_text "obfs-password" (u.query "obfs-password") (put_text "obfs" (u.query "obfs") insecure)

  -- `parseHysteria2`
  unfoldable pub parse_hysteria2 : String → String → Option Object
  unfolding hysteria2_proxy
  parse_hysteria2 body name = elim (q.parse_url ("hysteria2://" +++ body)) [
    | none ↦ none
    | some u ↦ if u.hostname == "" then none else some (hysteria2_proxy name u)
  ]

  -- The name behind `#`, and the text in front of it.
  unfoldable pub name_and_body : String → String × String
  unfolding cut
  name_and_body rest = elim (cut rest b'#') [
    | none ↦ ("proxy", rest)
    | some (body, fragment) ↦ elim (q.query_unescape fragment) [
      | none ↦ ("proxy", body)
      | some decoded ↦ (if decoded == "" then "proxy" else decoded, body)
    ]
  ]

  -- The switch on the scheme.
  unfoldable pub parse_scheme : String → String → String → Option Object
  unfolding parse_ss parse_vmess parse_vless parse_trojan parse_hysteria2
  parse_scheme scheme body name =
      if scheme == "ss"
      then parse_ss body name
      else if scheme == "vmess"
      then parse_vmess body name
      else if scheme == "vless"
      then parse_vless body name
      else if scheme == "trojan"
      then parse_trojan body name
      else if scheme == "hysteria2" || scheme == "hy2"
      then parse_hysteria2 body name
      else none

  -- `parseProxyURI`
  unfoldable pub parse_proxy_uri : String → Option Object
  unfolding cut_text to_lower name_and_body parse_scheme
  parse_proxy_uri uri = elim (cut_text uri "://") [
    | none ↦ none
    | some (scheme, rest) ↦
        let (name, body) = name_and_body rest in parse_scheme (to_lower o.lower scheme) body name
  ]

  -- The loop of `buildRawConfigFromURIs`.
  unfoldable pub parse_lines : List String → List Object
  unfolding trim_space parse_proxy_uri
  parse_lines [] = []
  parse_lines (line ∷ lines) =
      let rest = parse_lines lines in
      let text = trim_space line in
      if text == "" then rest else with_some (parse_proxy_uri text) rest
