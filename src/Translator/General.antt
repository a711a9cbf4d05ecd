-- ===== src/Translator/General.antt =====
-- translator/general.go and translator/experimental.go: the listening inbounds, the log, the defaults
-- of the route, and the settings of the Clash interface and the cache.
use cff_core.Base.{
  ℤ, String, true, ◌||◌, ◌&&◌, not, ◌%◌, ◌^◌, List, [], ◌∷◌, ◌++◌, none, some, is_empty,
  is_positive, nat_part, ◌==◌, if◌then◌else◌,
}
use cff_core.Base.Text.{cut, to_lower}
use cff_core.Outside.{Outside}
use cff_core.Value.{Object, str, int, bool, obj, str_maps, put, object_of}
use cff_core.Translator.State.{SingboxConfig, Route}
use cff_core.Translator.RawConfig.{RawConfig}

-- The `users` of `applyInboundAuth`: the texts "user:pass" among the entries.
unfoldable pub auth_users : List String → List (List (String × String))
unfolding cut
auth_users [] = []
auth_users (a ∷ auth) =
    let rest = auth_users auth in
    elim (cut a b':') [
      | none ↦ rest
      | some (user, pass) ↦ (("username", user) ∷ ("password", pass) ∷ []) ∷ rest
    ]

-- `applyInboundAuth`
unfoldable pub apply_inbound_auth : List String → Object → Object
unfolding auth_users put
apply_inbound_auth auth inbound =
    let users = auth_users auth in
    if is_empty users then inbound else put "users" (str_maps users) inbound

-- `listen`
unfoldable pub listen_address : RawConfig → String
listen_address cfg =
    if cfg.allow_lan
    then (if not (cfg.bind_address == "") && not (cfg.bind_address == "*")
        then cfg.bind_address
        else "0.0.0.0")
    else "127.0.0.1"

unfoldable pub inbound_object : String → String → String → ℤ → Object
unfolding object_of
inbound_object type tag listen port = object_of (
    ("type", str type) ∷ ("tag", str tag) ∷ ("listen", str listen) ∷ ("listen_port", int port) ∷ [])

-- `if port > 0`
unfoldable pub inbound_when : ℤ → Object → List Object
inbound_when port inbound = if is_positive port then inbound ∷ [] else []

unfoldable pub mixed_inbound : RawConfig → String → Object
unfolding inbound_object put
mixed_inbound cfg listen =
    let inbound = inbound_object "mixed" "mixed-in" listen cfg.mixed_port in
    if cfg.mixed_system_proxy then put "set_system_proxy" (bool true) inbound else inbound

-- The inbounds in their order.
unfoldable pub general_inbounds : RawConfig → List Object
unfolding listen_address inbound_object inbound_when mixed_inbound apply_inbound_auth
general_inbounds cfg =
    let listen = listen_address cfg in
    let auth = cfg.authentication in
    inbound_when cfg.mixed_port (apply_inbound_auth auth (mixed_inbound cfg listen))
    ++ inbound_when cfg.port
        (apply_inbound_auth auth (inbound_object "http" "http-in" listen cfg.port))
    ++ inbound_when cfg.socks_port
        (apply_inbound_auth auth (inbound_object "socks" "socks-in" listen cfg.socks_port))
    ++ inbound_when cfg.redir_port (inbound_object "redirect" "redirect-in" listen cfg.redir_port)
    ++ inbound_when cfg.tproxy_port (inbound_object "tproxy" "tproxy-in" listen cfg.tproxy_port)

-- `mapLogLevel`
unfoldable pub map_log_level : String → String
map_log_level level =
    if level == "warning"
    then "warn"
    else if level == "silent"
    then "error"
    else if level == ""
    then "info"
    else level

-- The defaults of the route. `uint32` of a mark keeps its low 32 bits.
unfoldable pub route_defaults : RawConfig → Route → Route
route_defaults cfg route = record route {
  find_process =
      if cfg.find_process_mode == "always" || cfg.find_process_mode == "strict"
      then true
      else route.find_process;
  auto_detect_interface = true;
  default_interface =
      if cfg.interface_name == "" then route.default_interface else cfg.interface_name;
  default_mark =
      if is_positive cfg.routing_mark
      then nat_part cfg.routing_mark % 2 ^ 32
      else route.default_mark;
}

-- `translateGeneral`
unfoldable pub translate_general : RawConfig → SingboxConfig → SingboxConfig
unfolding general_inbounds map_log_level route_defaults object_of
translate_general cfg config = record config {
  inbounds = config.inbounds ++ general_inbounds cfg;
  log =
      some
        (object_of (("level", str (map_log_level cfg.log_level)) ∷ ("timestamp", bool true) ∷ []));
  route = route_defaults cfg config.route;
}

-- `if s != "" { m[key] = s }`
unfoldable pub put_text : String → String → Object → Object
unfolding put
put_text key s m = if s == "" then m else put key (str s) m

module _ (o : Outside) where
  -- `modeMap`
  unfoldable pub mode_map : String → String
  unfolding to_lower
  mode_map mode =
      let m = to_lower o.lower mode in
      if m == "rule"
      then "Rule"
      else if m == "global"
      then "Global"
      else if m == "direct"
      then "Direct"
      else "Rule"

  unfoldable pub clash_api : RawConfig → Object
  unfolding put_text mode_map object_of
  clash_api cfg =
      let defaults = object_of (
        ("external_controller", str "127.0.0.1:9090")
        ∷ ("secret", str "")
        ∷ ("default_mode", str "Rule")
        ∷ []) in
      put_text "default_mode" (if cfg.mode == "" then "" else mode_map cfg.mode) (
        put_text "external_ui" cfg.external_ui (
          put_text "secret" cfg.secret
            (put_text "external_controller" cfg.external_controller defaults)))

  -- `translateExperimental`
  unfoldable pub translate_experimental : RawConfig → SingboxConfig → SingboxConfig
  unfolding clash_api object_of
  translate_experimental cfg config =
      let cache_file = object_of (
        ("enabled", bool true)
        ∷ ("path", str "cache.db")
        ∷ ("store_fakeip", bool cfg.store_fake_ip)
        ∷ ("store_rdrc", bool true)
        ∷ []) in
      record config {
        experimental =
            some (
              object_of (("clash_api", obj (clash_api cfg)) ∷ ("cache_file", obj cache_file) ∷ []));
      }
