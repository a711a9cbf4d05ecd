-- ===== src/Proxy/Tls.antt =====
-- translator/proxy/tls.go, and `BuildAlwaysOnTLS` of common.go.
use cff_core.Base.{
  ℕ, eqb, String, Bool, true, ◌||◌, List, [], ◌∷◌, ◌++◌, Option, none, some, is_some, ◌==◌, not,
  if◌then◌else◌,
}
use cff_core.Base.Text.{◌+++◌, trim_space, trim_right, split}
use cff_core.Outside.{Outside}
use cff_core.Value.{Object, empty, field, str, bool, strs, obj, put, object_of}
use cff_core.Proxy.Fields.{get_str, get_bool, get_map, get_str_slice, put_text, put_flag, put_slice}
use cff_core.Proxy.Multiplex.{put_nonempty}

abbrev pub enabled : Object
enabled = field "enabled" (bool true) empty

-- `if s != "" { m[key] = []string{s} }`
unfoldable pub put_single : String → String → Object → Object
unfolding put
put_single key s m = if s == "" then m else put key (strs (s ∷ [])) m

module _ (o : Outside) where
  -- `BuildAlwaysOnTLS`
  unfoldable pub build_always_on_tls : Object → Object
  unfolding get_str get_bool get_str_slice put_text put_flag put_slice
  build_always_on_tls m = put_slice "alpn" (get_str_slice m "alpn") (
      put_flag "insecure" (get_bool m "skip-cert-verify")
        (put_text "server_name" (get_str o m "sni") enabled))

  -- `applyUTLS`
  unfoldable pub apply_utls : Object → Object → Object
  unfolding get_str put object_of
  apply_utls m tls =
      let fp = get_str o m "client-fingerprint" in
      if fp == ""
      then tls
      else put "utls" (obj (object_of (("enabled", bool true) ∷ ("fingerprint", str fp) ∷ []))) tls

  unfoldable pub put_reality : Option Object → Object → Object
  unfolding get_str put put_text
  put_reality none tls = tls
  put_reality (some opts) tls =
      put "reality"
        (obj (
          put_text "short_id" (get_str o opts "short-id")
            (put_text "public_key" (get_str o opts "public-key") enabled)))
        tls

  pem_lines : Option String → Option (List String)
  unfolding trim_right split
  pem_lines none = none
  pem_lines (some text) = some (split (trim_right (λ c. eqb c 10) text) 10)

  decoded_lines : Option (List ℕ) → Option (List String)
  unfolding pem_lines
  decoded_lines (some (byte ∷ bytes)) = pem_lines (o.ech_pem (byte ∷ bytes))
  decoded_lines _ = none

  -- `echConfigToPEMLines`
  unfoldable pub ech_config_to_pem_lines : String → Option (List String)
  unfolding decoded_lines trim_space
  ech_config_to_pem_lines b64 = decoded_lines (o.base64_decode (trim_space b64))

  -- The `config` of `ech-opts`: PEM lines, or a warning where the text is not base64.
  unfoldable pub ech_config : String → String → Object → Object × List String
  unfolding put ech_config_to_pem_lines
  ech_config name cfg ech = if cfg == "" then (ech, []) else elim (ech_config_to_pem_lines cfg) [
    | some lines ↦ (put "config" (strs lines) ech, [])
    | none ↦ (
      ech,
      ("proxy \"" +++ name +++ "\": ech-opts.config is not valid base64, ECH disabled") ∷ [],
    )
  ]

  unfoldable pub put_ech : String → Option Object → Object → Object × List String
  unfolding get_str get_bool put_flag put_text ech_config put_nonempty
  put_ech name none tls = (tls, [])
  put_ech name (some opts) tls =
      let (ech, warnings) =
        ech_config name (get_str o opts "config")
          (put_flag "enabled" (get_bool opts "enable") empty) in
      (
        put_nonempty "ech" (put_text "query_server_name" (get_str o opts "query-server-name") ech)
            tls,
        warnings,
      )

  -- Whether anything that concerns TLS is configured.
  unfoldable pub wants_tls : Object → Bool
  unfolding get_str get_bool get_map get_str_slice
  wants_tls m =
      get_bool m "tls"
      || is_some (get_map m "reality-opts")
      || is_some (get_map m "ech-opts")
      || not (get_str o m "sni" == "")
      || not (get_str o m "servername" == "")
      || get_bool m "skip-cert-verify"
      || is_some (get_str_slice m "alpn")
      || not (get_str o m "fingerprint" == "")
      || not (get_str o m "certificate" == "")
      || not (get_str o m "private-key" == "")
      || not (get_str o m "client-fingerprint" == "")

  unfoldable pub server_name : Object → String
  unfolding get_str
  server_name m = let sni = get_str o m "sni" in if sni == "" then get_str o m "servername" else sni

  unfoldable pub fingerprint_warning : Object → List String
  unfolding get_str
  fingerprint_warning m =
      if get_str o m "fingerprint" == ""
      then []
      else ("proxy \""
          +++ get_str o m "name"
          +++ "\": fingerprint (certificate pinning) has no equivalent in sing-box and was ignored; TLS still uses standard chain verification")
        ∷ []

  -- The object behind the early return, with the warnings in their order.
  unfoldable pub tls_object : Object → Object × List String
  unfolding get_str get_bool get_map get_str_slice put_text put_flag put_slice put_single
      server_name apply_utls put_reality put_ech fingerprint_warning
  tls_object m =
      let named = put_text "server_name" (server_name m) enabled in
      let insecure = put_flag "insecure" (get_bool m "skip-cert-verify") named in
      let alpn = put_slice "alpn" (get_str_slice m "alpn") insecure in
      let reality = put_reality (get_map m "reality-opts") (apply_utls m alpn) in
      let keyed =
        put_single "client_key" (get_str o m "private-key")
          (put_single "client_certificate" (get_str o m "certificate") reality) in
      let (tls, warnings) = put_ech (get_str o m "name") (get_map m "ech-opts") keyed in
      (tls, fingerprint_warning m ++ warnings)

  -- `TranslateTLS`; `none` is nil.
  unfoldable pub translate_tls : Object → Option Object × List String
  unfolding wants_tls tls_object
  translate_tls m =
      let (tls, warnings) = tls_object m in if wants_tls m then (some tls, warnings) else (none, [])
