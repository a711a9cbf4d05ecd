-- ===== src/Proxy/Protocols/Stream.antt =====
-- translator/proxy/vless.go, vmess.go and trojan.go.
use cff_core.Base.{ℤ, is_zero, String, not, List, [], ◌∷◌, Option, none, some, ◌==◌, if◌then◌else◌}
use cff_core.Base.StringSet.{has}
use cff_core.Base.Text.{◌+++◌}
use cff_core.Outside.{Outside}
use cff_core.Value.{Object, str, int, obj, put}
use cff_core.Proxy.Fields.{get_str, get_int, get_bool, put_text, put_flag}
use cff_core.Proxy.Transport.{is_unsupported_network}
use cff_core.Proxy.Tls.{translate_tls, enabled}
use cff_core.Proxy.Protocols.Start.{Translated, skip, start, put_tls, finish, packet_encodings}

abbrev pub vless_flows : List String
vless_flows = "" ∷ "xtls-rprx-vision" ∷ []

abbrev pub vmess_securities : List String
vmess_securities =
    "auto" ∷ "none" ∷ "zero" ∷ "aes-128-cfb" ∷ "aes-128-gcm" ∷ "chacha20-poly1305" ∷ []

abbrev pub network_warning : String
network_warning = "xhttp (SplitHTTP) transport is not supported by sing-box, skipping proxy"

-- The message of a value that sing-box has no equivalent for.
abbrev pub unsupported : String → String → String
unsupported what value = what +++ " '" +++ value +++ "' is not supported by sing-box, skipping"

module _ (o : Outside) where
  -- `TranslateTLS`, the transport and the multiplexer, behind all the early returns.
  unfoldable pub secured : Object → Object → Translated
  secured m outbound =
      let (with_tls, warnings) = put_tls o m outbound in (some (finish o m with_tls), warnings)

  -- `TranslateVLESS`
  unfoldable pub translate_vless : Object → Translated
  translate_vless m =
      let uuid = get_str o m "uuid" in
      let flow = get_str o m "flow" in
      let encoding = get_str o m "packet-encoding" in
      if is_unsupported_network o m
      then skip network_warning
      else if uuid == ""
      then skip "vless: missing uuid, skipping"
      else if not (has flow vless_flows)
      then skip (unsupported "vless: flow" flow)
      else if not (has encoding packet_encodings)
      then skip (unsupported "vless: packet-encoding" encoding)
      else secured m (
          put_text "packet_encoding" encoding
            (put_text "flow" flow (put "uuid" (str uuid) (start o "vless" m))))

  -- `alterId`, or `alter_id` where that is 0.
  unfoldable pub alter_id : Object → ℤ
  alter_id m = let a = get_int o m "alterId" in if is_zero a then get_int o m "alter_id" else a

  unfoldable pub vmess_cipher : Object → String
  vmess_cipher m = let c = get_str o m "cipher" in if c == "" then "auto" else c

  -- `TranslateVMess`
  unfoldable pub translate_vmess : Object → Translated
  translate_vmess m =
      let uuid = get_str o m "uuid" in
      let cipher = vmess_cipher m in
      let encoding = get_str o m "packet-encoding" in
      if is_unsupported_network o m
      then skip network_warning
      else if uuid == ""
      then skip "vmess: missing uuid, skipping"
      else if not (has cipher vmess_securities)
      then skip (unsupported "vmess: cipher" cipher)
      else if not (has encoding packet_encodings)
      then skip (unsupported "vmess: packet-encoding" encoding)
      else secured m (
          put_text "packet_encoding" encoding (
            put_flag "authenticated_length" (get_bool m "authenticated-length") (
              put_flag "global_padding" (get_bool m "global-padding") (
                put "security" (str cipher) (
                  put "alter_id" (int (alter_id m)) (put "uuid" (str uuid) (start o "vmess" m)))))))

  abbrev pub tls_or_enabled : Option Object → Object
  tls_or_enabled none = enabled
  tls_or_enabled (some tls) = tls

  -- `TranslateTrojan`: TLS is on even where nothing asks for it.
  unfoldable pub translate_trojan : Object → Translated
  translate_trojan m =
      let password = get_str o m "password" in
      let (tls, warnings) = translate_tls o m in
      if is_unsupported_network o m
      then skip network_warning
      else if password == ""
      then skip "trojan: missing password, skipping"
      else (
        some (
            finish o m (
              put "tls" (obj (tls_or_enabled tls))
                (put "password" (str password) (start o "trojan" m)))),
        warnings,
      )
