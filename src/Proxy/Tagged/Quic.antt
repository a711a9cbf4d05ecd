-- ===== src/Proxy/Tagged/Quic.antt =====
-- The tag of what the translators of hysteria, hysteria2, tuic and anytls give.
use cff_core.Base.{ℤ, String, List, [], ◌∷◌, ◌==◌, refl, arith, Bool-cases, inl, inr}
use cff_core.Outside.{Outside}
use cff_core.Value.{Object, str, strs, obj, put, object_of}
use cff_core.Proxy.Duration.{seconds_to_duration}
use cff_core.Proxy.Fields.{get_str, get_int, get_bool, put_text}
use cff_core.Proxy.Ports.{parse_server_ports}
use cff_core.Proxy.Multiplex.{put_bandwidth}
use cff_core.Proxy.Tls.{build_always_on_tls}
use cff_core.Base.Text.{◌+++◌}
use cff_core.Proxy.Tagged.{
  IsOther, IsTagged, put-IsTagged, put_text-IsTagged, put_flag-IsTagged, put_positive-IsTagged,
  put_bandwidth-IsTagged, start-IsTagged,
}
use cff_core.Proxy.Tagged.Stream.{Gives}
use cff_core.Proxy.Protocols.Start.{start}
use cff_core.Proxy.Protocols.Quic.{
  put_server_ports, put_hop_interval, put_always_on_tls, put_speed, default_alpn, hysteria2_rest,
  translate_hysteria, translate_hysteria2, translate_tuic, translate_any_tls,
}

put_server_ports-IsTagged :
    (protocol shown ports : String) {name : String} {ob : Object}
    → IsTagged name ob
    → IsTagged name (put_server_ports protocol shown ports ob).0
unfolding put_server_ports
put_server_ports-IsTagged protocol shown ports {name} {ob} h = elim (Bool-cases (ports == "")) [
  | inl e ↦ rw e h
  | inr e ↦ rw e (by_entries (parse_server_ports ports))
]
  where
    by_entries :
        (entries : List String)
        → IsTagged name (
            let r : Object × List String = elim entries [
              | [] ↦ (
                ob,
                (protocol +++ " \"" +++ shown +++ "\": unparsable ports \"" +++ ports
                      +++ "\", port hopping disabled")
                    ∷ [],
              )
              | p ∷ ps ↦ (put "server_ports" (strs (p ∷ ps)) ob, [])
            ] in
            r.0)
    by_entries [] = h
    by_entries (p ∷ ps) = put-IsTagged "server_ports" (refl, refl) (strs (p ∷ ps)) h

put_hop_interval-IsTagged :
    (n : ℤ) {name : String} {ob : Object} → IsTagged name ob → IsTagged name (put_hop_interval n ob)
unfolding put_hop_interval
put_hop_interval-IsTagged n h =
    ground (arith, put-IsTagged "hop_interval" (refl, refl) (str (seconds_to_duration n)) h)

module _ (o : Outside) where
  put_always_on_tls-IsTagged :
      {name : String} (m : Object) {ob : Object}
      → IsTagged name ob
      → IsTagged name (put_always_on_tls o m ob)
  unfolding put_always_on_tls
  put_always_on_tls-IsTagged m h = put-IsTagged "tls" (refl, refl) _ h

  put_speed-IsTagged :
      (key : String)
      → IsOther key
      → (text_key int_key : String) (m : Object) {name : String} {ob : Object} → IsTagged name ob
      → IsTagged name (put_speed o key text_key int_key m ob)
  unfolding put_speed
  put_speed-IsTagged key other text_key int_key m h = ground (
    arith,
    put_positive-IsTagged key other (get_int o m int_key) h,
    put_bandwidth-IsTagged key other (get_str o m text_key) h,
  )

  hysteria2_rest-Gives :
      {name : String} (m : Object) {ob : Object}
      → IsTagged name ob
      → Gives name (hysteria2_rest o m ob).0
  unfolding hysteria2_rest
  hysteria2_rest-Gives m h = put_always_on_tls-IsTagged m (
      put_hop_interval-IsTagged (get_int o m "hop-interval")
        (put_server_ports-IsTagged "hysteria2" (get_str o m "name") (get_str o m "ports") h))

  hysteria2_start :
      (m : Object)
      → IsTagged (get_str o m "name") (
          put_bandwidth "down_mbps" (get_str o m "down") (
            put_bandwidth "up_mbps"
              (get_str o m "up")
              (put_text "password" (get_str o m "password") (start o "hysteria2" m))))
  hysteria2_start m =
      put_bandwidth-IsTagged "down_mbps" (refl, refl) _
        (put_bandwidth-IsTagged "up_mbps" (refl, refl) _
          (put_text-IsTagged "password" (refl, refl) _ (start-IsTagged o "hysteria2" m)))

  pub hysteria2-Gives : (m : Object) → Gives (get_str o m "name") (translate_hysteria2 o m).0
  unfolding translate_hysteria2
  hysteria2-Gives m = ground (
    arith,
    hysteria2_rest-Gives m (hysteria2_start m),
    hysteria2_rest-Gives m (
        put-IsTagged "obfs" (refl, refl)
          (obj (
            object_of (
              ("type", str (get_str o m "obfs"))
              ∷ ("password", str (get_str o m "obfs-password"))
              ∷ [])))
          (hysteria2_start m)),
  )

  pub hysteria-Gives : (m : Object) → Gives (get_str o m "name") (translate_hysteria o m).0
  unfolding translate_hysteria
  hysteria-Gives m = put_always_on_tls-IsTagged m (
      put_text-IsTagged "network" (refl, refl) _
        (put_flag-IsTagged "disable_mtu_discovery" (refl, refl) _
          (put_positive-IsTagged "recv_window" (refl, refl) _
            (put_positive-IsTagged "recv_window_conn" (refl, refl) _
              (put_hop_interval-IsTagged _ (
                put_server_ports-IsTagged "hysteria" _ _ (
                  put_text-IsTagged "obfs" (refl, refl) _
                    (put_speed-IsTagged "down_mbps" (refl, refl) "down" "down-speed" m
                      (put_speed-IsTagged "up_mbps" (refl, refl) "up" "up-speed" m
                        (put_text-IsTagged "auth_str" (refl, refl) _
                          (start-IsTagged o "hysteria" m)))))))))))

  pub tuic-Gives : (m : Object) → Gives (get_str o m "name") (translate_tuic o m).0
  unfolding translate_tuic
  tuic-Gives m = ground (
    arith,
    put-IsTagged "tls" (refl, refl) (obj (default_alpn o (build_always_on_tls o m)))
        (put_flag-IsTagged "zero_rtt_handshake" (refl, refl) (get_bool m "reduce-rtt")
          (put_text-IsTagged "congestion_control" (refl, refl) (get_str o m "congestion-controller")
            (put_text-IsTagged "udp_relay_mode" (refl, refl) (get_str o m "udp-relay-mode")
              (put-IsTagged "password" (refl, refl) (str (get_str o m "password"))
                (put-IsTagged "uuid" (refl, refl) (str (get_str o m "uuid"))
                  (start-IsTagged o "tuic" m)))))),
  )

  pub any_tls-Gives : (m : Object) → Gives (get_str o m "name") (translate_any_tls o m).0
  unfolding translate_any_tls
  any_tls-Gives m = ground (
    arith,
    put_always_on_tls-IsTagged m (
        put-IsTagged "password" (refl, refl) (str (get_str o m "password"))
          (start-IsTagged o "anytls" m)),
  )
