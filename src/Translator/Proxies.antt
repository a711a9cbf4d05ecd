-- ===== src/Translator/Proxies.antt =====
-- translator/proxy.go: the proxies as outbounds, with stubs in place of those that sing-box does not
-- support.
pub mod Endpoint
pub mod Given
pub mod Visible
use cff_core.Base.{
  ℕ, ℤ, pos, String, Bool, true, false, not, ◌||◌, List, [], ◌∷◌, ◌++◌, Option, none, some, is_some,
  ◌==◌, if◌then◌else◌,
}
use cff_core.Base.StringSet.{insert, has}
use cff_core.Base.Text.{◌+++◌}
use cff_core.Outside.{Outside}
use cff_core.Value.{Value, Object, str, int, get, put, get_text, object_of}
use cff_core.Proxy.Protocols.Start.{Translated, skip}
use cff_core.Proxy.Protocols.Stream.{translate_vless, translate_vmess, translate_trojan}
use cff_core.Proxy.Protocols.Quic.{
  translate_hysteria, translate_hysteria2, translate_tuic, translate_any_tls,
}
use cff_core.Proxy.Protocols.Plain.{translate_socks, translate_http, translate_unsupported}
use cff_core.Proxy.Protocols.Shadowsocks.{translate_shadowsocks}
use cff_core.Translator.State.{Translation, warn, warn_all}
use cff_core.Translator.Proxies.Endpoint.{is_invalid_health_check_endpoint, has_proxy_endpoint}

-- `makeStubOutbound`
unfoldable pub make_stub_outbound : String → String → Object
unfolding object_of
make_stub_outbound name proxy_type = object_of (
    ("type", str "socks")
    ∷ ("tag", str name)
    ∷ ("version", str "5")
    ∷ ("server", str "127.0.0.1")
    ∷ ("server_port", int (pos 1))
    ∷ ("username", str ("unsupported:" +++ proxy_type))
    ∷ [])

-- `markInvalidHealthCheckProxy`
unfoldable pub mark_invalid_health_check_proxy : String → Translation → Translation
unfolding insert
mark_invalid_health_check_proxy name t = record t {
  invalid_health_check_proxy_tags = insert name t.invalid_health_check_proxy_tags;
}

-- The tag of a translated outbound becomes a known proxy.
unfoldable pub add_proxy_tag : String → Translation → Translation
unfolding insert
add_proxy_tag tag t = record t { proxy_tags = insert tag t.proxy_tags }

-- The bookkeeping of a stub.
unfoldable pub mark_stub : String → String → Translation → Translation
unfolding mark_invalid_health_check_proxy
mark_stub name proxy_type t =
    mark_invalid_health_check_proxy name (record t { stub_tags = (name, proxy_type) ∷ t.stub_tags })

-- The protocols that sing-box has no outbound for.
abbrev pub unsupported_protocols : List String
unsupported_protocols =
    "wireguard" ∷ "ssr" ∷ "snell" ∷ "ssh" ∷ "mieru" ∷ "sudoku" ∷ "masque" ∷ "trusttunnel" ∷ []

-- `append` where there is an outbound.
abbrev pub append_outbound : Option Object → List Object → List Object
append_outbound none outbounds = outbounds
append_outbound (some ob) outbounds = ob ∷ outbounds

module _ (o : Outside) where
  -- The global fingerprint where the proxy has none of its own.
  unfoldable pub with_fingerprint : Object → String → Object
  unfolding get put
  with_fingerprint m global_fingerprint =
      if global_fingerprint == "" || is_some (get "client-fingerprint" m)
      then m
      else put "client-fingerprint" (str global_fingerprint) m

  -- The switch of `translateOneProxy`.
  unfoldable pub translate_protocol : String → Object → Translated
  translate_protocol type m =
      if type == "vless"
      then translate_vless o m
      else if type == "vmess"
      then translate_vmess o m
      else if type == "trojan"
      then translate_trojan o m
      else if type == "ss" || type == "shadowsocks"
      then translate_shadowsocks o m
      else if type == "hysteria2"
      then translate_hysteria2 o m
      else if type == "tuic"
      then translate_tuic o m
      else if type == "anytls"
      then translate_any_tls o m
      else if type == "socks5"
      then translate_socks o m
      else if type == "http"
      then translate_http o m
      else if type == "hysteria"
      then translate_hysteria o m
      else if has type unsupported_protocols
      then translate_unsupported o type m
      else skip ("unknown proxy type: " +++ type)

  -- `translateOneProxy`
  unfoldable pub translate_one_proxy : Object → String → Translated
  translate_one_proxy m global_fingerprint =
      let m' = with_fingerprint m global_fingerprint in translate_protocol (get_text "type" m') m'

  -- The end of a round: an outbound with an empty tag is left out.
  unfoldable pub accept : Object → Translation → Option Object × Translation
  unfolding get_text add_proxy_tag
  accept outbound t =
      let tag = get_text "tag" outbound in
      if tag == "" then (none, t) else (some outbound, add_proxy_tag tag t)

  -- The translated proxy, or a stub in its place.
  unfoldable pub translated_or_stub :
      String → String → Translated → Translation → Option Object × Translation
  translated_or_stub name proxy_type (some outbound, warnings) t =
      accept outbound (warn_all warnings t)
  translated_or_stub name proxy_type (none, warnings) t =
      accept (make_stub_outbound name proxy_type) (mark_stub name proxy_type (warn_all warnings t))

  -- The proxy behind the test for a name.
  unfoldable pub translate_named_proxy :
      String → Object → String → Translation → Option Object × Translation
  translate_named_proxy name p global_fingerprint t =
      let proxy_type = get_text "type" p in
      let t₁ =
        if is_invalid_health_check_endpoint o p
        then mark_invalid_health_check_proxy name t
        else t in
      if has_proxy_endpoint o p
      then translated_or_stub name proxy_type (translate_one_proxy p global_fingerprint) t₁
      else (
        some (make_stub_outbound name proxy_type),
        add_proxy_tag name (
            mark_stub name proxy_type
              (warn ("proxy \"" +++ name +++ "\": missing server or port, degraded to stub") t₁)),
      )

  -- The body of the loop of `translateProxies`.
  unfoldable pub translate_proxy : Object → String → Translation → Option Object × Translation
  translate_proxy p global_fingerprint t =
      let name = get_text "name" p in
      if name == "" then (none, t) else translate_named_proxy name p global_fingerprint t

  -- `translateProxies`
  unfoldable pub translate_proxies : List Object → String → Translation → List Object × Translation
  translate_proxies [] global_fingerprint t = ([], t)
  translate_proxies (p ∷ ps) global_fingerprint t =
      let (ob, t') = translate_proxy p global_fingerprint t in
      let (outbounds, t'') = translate_proxies ps global_fingerprint t' in
      (append_outbound ob outbounds, t'')
