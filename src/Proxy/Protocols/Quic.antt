-- ===== src/Proxy/Protocols/Quic.antt =====
-- translator/proxy/hysteria.go, hysteria2.go, tuic.go and anytls.go: TLS is always on.
use cff_core.Base.{
  ℤ, is_positive, String, not, ◌&&◌, List, [], ◌∷◌, ◌++◌, some, ◌==◌, is_some, if◌then◌else◌,
}
use cff_core.Base.StringSet.{has}
use cff_core.Base.Text.{◌+++◌}
use cff_core.Outside.{Outside}
use cff_core.Value.{Object, str, strs, obj, get, put, object_of}
use cff_core.Proxy.Duration.{seconds_to_duration}
use cff_core.Proxy.Fields.{get_str, get_int, get_bool, put_text, put_flag, put_positive}
use cff_core.Proxy.Ports.{parse_server_ports}
use cff_core.Proxy.Multiplex.{put_bandwidth}
use cff_core.Proxy.Tls.{build_always_on_tls}
use cff_core.Proxy.Protocols.Start.{Translated, skip, start}
use cff_core.Proxy.Protocols.Stream.{unsupported}

abbrev pub udp_relay_modes : List String
udp_relay_modes = "native" ∷ "quic" ∷ []

abbrev pub congestion_controllers : List String
congestion_controllers = "cubic" ∷ "new_reno" ∷ "bbr" ∷ []

-- The ports where some are parsable, and a warning where none is.
unfoldable pub put_server_ports : String → String → String → Object → Object × List String
put_server_ports protocol name ports m =
    if ports == "" then (m, []) else elim (parse_server_ports ports) [
      | [] ↦ (
        m,
        (protocol +++ " \"" +++ name +++ "\": unparsable ports \"" +++ ports
              +++ "\", port hopping disabled")
            ∷ [],
      )
      | p ∷ ps ↦ (put "server_ports" (strs (p ∷ ps)) m, [])
    ]

unfoldable pub put_hop_interval : ℤ → Object → Object
put_hop_interval n m =
    if is_positive n then put "hop_interval" (str (seconds_to_duration n)) m else m

module _ (o : Outside) where
  unfoldable pub put_always_on_tls : Object → Object → Object
  put_always_on_tls m outbound = put "tls" (obj (build_always_on_tls o m)) outbound

  -- The outbound behind the obfuscation of `TranslateHysteria2`.
  unfoldable pub hysteria2_rest : Object → Object → Translated
  hysteria2_rest m outbound =
      let (ported, warnings) =
        put_server_ports "hysteria2" (get_str o m "name") (get_str o m "ports") outbound in
      (some (put_always_on_tls m (put_hop_interval (get_int o m "hop-interval") ported)), warnings)

  -- `TranslateHysteria2`
  unfoldable pub translate_hysteria2 : Object → Translated
  translate_hysteria2 m =
      let obfs = get_str o m "obfs" in
      let obfs_password = get_str o m "obfs-password" in
      let outbound = put_bandwidth "down_mbps" (get_str o m "down") (
        put_bandwidth "up_mbps" (get_str o m "up")
          (put_text "password" (get_str o m "password") (start o "hysteria2" m))) in
      if obfs == ""
      then hysteria2_rest m outbound
      else if not (obfs == "salamander")
      then skip (unsupported "hysteria2: obfs" obfs)
      else if obfs_password == ""
      then skip "hysteria2: obfs-password is required by sing-box when obfs is enabled, skipping"
      else hysteria2_rest m (
          put "obfs" (obj (object_of (("type", str obfs) ∷ ("password", str obfs_password) ∷ [])))
            outbound)

  -- `auth-str`, or `auth` where that is missing.
  unfoldable pub hysteria_auth : Object → String
  hysteria_auth m = let a = get_str o m "auth-str" in if a == "" then get_str o m "auth" else a

  -- The bandwidth text, or the plain number of the other key where the text is missing.
  unfoldable pub put_speed : String → String → String → Object → Object → Object
  put_speed key text_key int_key m outbound =
      let s = get_str o m text_key in
      if s == ""
      then put_positive key (get_int o m int_key) outbound
      else put_bandwidth key s outbound

  unfoldable pub quic_fingerprint_warning : Object → List String
  quic_fingerprint_warning m =
      if get_str o m "fingerprint" == ""
      then []
      else ("hysteria \""
          +++ get_str o m "name"
          +++ "\": fingerprint has no equivalent in sing-box (QUIC outbounds do not support uTLS) and was ignored")
        ∷ []

  -- `TranslateHysteria`
  unfoldable pub translate_hysteria : Object → Translated
  translate_hysteria m =
      let authenticated = put_text "auth_str" (hysteria_auth m) (start o "hysteria" m) in
      let fast =
        put_speed "down_mbps" "down" "down-speed" m
          (put_speed "up_mbps" "up" "up-speed" m authenticated) in
      let obfuscated = put_text "obfs" (get_str o m "obfs") fast in
      let (ported, warnings) =
        put_server_ports "hysteria" (get_str o m "name") (get_str o m "ports") obfuscated in
      let tuned = put_text "network" (get_str o m "protocol") (
        put_flag "disable_mtu_discovery" (get_bool m "disable-mtu-discovery") (
          put_positive "recv_window" (get_int o m "recv-window") (
            put_positive "recv_window_conn" (get_int o m "recv-window-conn")
              (put_hop_interval (get_int o m "hop-interval") ported)))) in
      (some (put_always_on_tls m tuned), warnings ++ quic_fingerprint_warning m)

  -- `tls["alpn"] = []string{"h3"}` where there is no `alpn`
  unfoldable pub default_alpn : Object → Object
  default_alpn tls = if is_some (get "alpn" tls) then tls else put "alpn" (strs ("h3" ∷ [])) tls

  -- `TranslateTUIC`
  unfoldable pub translate_tuic : Object → Translated
  translate_tuic m =
      let uuid = get_str o m "uuid" in
      let password = get_str o m "password" in
      let mode = get_str o m "udp-relay-mode" in
      let controller = get_str o m "congestion-controller" in
      if not (get_str o m "token" == "")
      then skip "tuic: TUIC v4 (token authentication) is not supported by sing-box, skipping"
      else if uuid == ""
      then skip "tuic: missing uuid, skipping"
      else if not (o.is_uuid uuid)
      then skip "tuic: invalid uuid, skipping"
      else if password == ""
      then skip "tuic: missing password, skipping"
      else if not (mode == "") && not (has mode udp_relay_modes)
      then skip (unsupported "tuic: udp-relay-mode" mode)
      else if not (controller == "") && not (has controller congestion_controllers)
      then skip (unsupported "tuic: congestion-controller" controller)
      else (
        some (
            put "tls" (obj (default_alpn (build_always_on_tls o m))) (
              put_flag "zero_rtt_handshake" (get_bool m "reduce-rtt") (
                put_text "congestion_control" controller (
                  put_text "udp_relay_mode" mode
                    (put "password" (str password) (put "uuid" (str uuid) (start o "tuic" m))))))),
        [],
      )

  -- `TranslateAnyTLS`
  unfoldable pub translate_any_tls : Object → Translated
  translate_any_tls m =
      let password = get_str o m "password" in
      if password == ""
      then skip "anytls: missing password, skipping"
      else (some (put_always_on_tls m (put "password" (str password) (start o "anytls" m))), [])
