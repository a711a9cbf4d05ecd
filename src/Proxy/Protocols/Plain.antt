-- ===== src/Proxy/Protocols/Plain.antt =====
-- translator/proxy/socks.go, http.go and unsupported.go.
use cff_core.Base.{String, List, some, ◌==◌, if◌then◌else◌}
use cff_core.Base.Text.{◌+++◌}
use cff_core.Outside.{Outside}
use cff_core.Value.{Object, empty, field, str}
use cff_core.Proxy.Fields.{get_str, get_map, put_text, put_map, apply_common_fields}
use cff_core.Proxy.Protocols.Start.{Translated, skip, start, put_tls}

abbrev pub outbound_of : Object × List String → Translated
outbound_of (outbound, warnings) = (some outbound, warnings)

module _ (o : Outside) where
  unfoldable pub put_login : Object → Object → Object
  put_login m outbound =
      put_text "password" (get_str o m "password")
        (put_text "username" (get_str o m "username") outbound)

  -- `TranslateSOCKS`
  unfoldable pub translate_socks : Object → Translated
  translate_socks m = outbound_of (
      put_tls o m (
        put_login m (
          apply_common_fields o m (
            field "type" (str "socks")
              (field "tag" (str (get_str o m "name")) (field "version" (str "5") empty))))))

  -- `TranslateHTTP`
  unfoldable pub translate_http : Object → Translated
  translate_http m =
      outbound_of
        (put_tls o m (put_map "headers" (get_map m "headers") (put_login m (start o "http" m))))

  -- `TranslateUnsupported`
  unfoldable pub translate_unsupported : String → Object → Translated
  translate_unsupported protocol m =
      let name = get_str o m "name" in
      let shown : String = if name == "" then "" else " '" +++ name +++ "'" in
      skip (
        "protocol '" +++ protocol +++ "'" +++ shown
        +++ " is not supported by sing-box, degraded to stub")
