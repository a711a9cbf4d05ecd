-- ===== src/Translator/Tun.antt =====
-- translator/tun.go: the TUN inbound.
use cff_core.Base.{
  ℤ, String, Bool, true, List, [], ◌∷◌, ◌++◌, Option, none, some, is_empty, is_positive, eqb, ◌==◌,
  if◌then◌else◌,
}
use cff_core.Value.{Object, str, strs, int, ints, uint32, bool, put, object_of}
use cff_core.Proxy.Duration.{seconds_to_duration}
use cff_core.Translator.State.{Translation}
use cff_core.Translator.RawConfig.{RawConfig, RawTun}
use cff_core.Translator.General.{put_text}

-- `if n > 0 { m[key] = n }`
unfoldable pub put_positive : String → ℤ → Object → Object
unfolding put
put_positive key n m = if is_positive n then put key (int n) m else m

-- `if len(xs) > 0 { m[key] = xs }`
unfoldable pub put_texts : String → List String → Object → Object
unfolding put
put_texts key xs m = if is_empty xs then m else put key (strs xs) m

unfoldable pub put_ints : String → List ℤ → Object → Object
unfolding put
put_ints key xs m = if is_empty xs then m else put key (ints xs) m

unfoldable pub text_or : String → String → String
text_or s default = if s == "" then default else s

-- The addresses of the interface.
unfoldable pub tun_addresses : RawConfig → List String
unfolding text_or
tun_addresses cfg =
    text_or cfg.tun.inet4_address "172.18.0.1/30"
    ∷ (if cfg.ipv6 then text_or cfg.tun.inet6_address "fdfe:dcba:9876::1/126" ∷ [] else [])

-- The settings of the interface.
unfoldable pub tun_interface : RawConfig → Object
unfolding object_of put put_text tun_addresses text_or seconds_to_duration
tun_interface cfg =
    let tun = cfg.tun in
    let required = object_of (
      ("type", str "tun")
      ∷ ("tag", str "tun-in")
      ∷ ("auto_route", bool tun.auto_route)
      ∷ ("strict_route", bool tun.strict_route)
      ∷ ("stack", str (text_or tun.stack "mixed"))
      ∷ []) in
    let named =
      put_text "interface_name" tun.device (put "address" (strs (tun_addresses cfg)) required) in
    let sized = if eqb tun.mtu 0 then named else put "mtu" (uint32 tun.mtu) named in
    let redirected = if tun.auto_redirect then put "auto_redirect" (bool true) sized else sized in
    if is_positive tun.udp_timeout
    then put "udp_timeout" (str (seconds_to_duration tun.udp_timeout)) redirected
    else redirected

-- The settings that choose the traffic.
unfoldable pub put_filters : RawTun → Object → Object
unfolding put_positive put_texts put_ints
put_filters tun m = put_texts "exclude_package" tun.exclude_package (
    put_texts "include_package" tun.include_package (
      put_ints "include_android_user" tun.include_android_user (
        put_texts "exclude_uid_range" tun.exclude_uid_range (
          put_ints "exclude_uid" tun.exclude_uid (
            put_texts "include_uid_range" tun.include_uid_range (
              put_ints "include_uid" tun.include_uid (
                put_positive "iproute2_rule_index" tun.iproute2_rule_index (
                  put_positive "iproute2_table_index" tun.iproute2_table_index (
                    put_texts "route_exclude_address" tun.route_exclude_address
                      (put_texts "route_address" tun.route_address m))))))))))

abbrev pub or_current : Option Bool → Bool → Bool
or_current none current = current
or_current (some b) current = b

-- `translateTUN`
unfoldable pub translate_tun : RawConfig → Translation → Translation
unfolding tun_interface put_filters
translate_tun cfg t =
    let route = t.config.route in
    if cfg.tun.enable
    then record t {
      config = record t.config {
        inbounds = t.config.inbounds ++ put_filters cfg.tun (tun_interface cfg) ∷ [];
        route = record route {
          auto_detect_interface =
              or_current cfg.tun.auto_detect_interface route.auto_detect_interface;
        };
      };
    }
    else t
