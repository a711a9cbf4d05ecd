-- ===== src/Proxy/Protocols/Shadowsocks.antt =====
-- translator/proxy/shadowsocks.go.
use Prim.Native.String.{compare}
use cff_core.Base.{String, not, List, [], ◌∷◌, map, Option, none, some, ◌==◌, if◌then◌else◌}
use text.Mathlib.Text.{is_le}
use cff_core.Base.StringSet.{has}
use cff_core.Base.Text.{◌+++◌, join}
use cff_core.Outside.{Outside}
use cff_core.Value.{Value, Object, empty, field, str, put}
use cff_core.Proxy.Fields.{get_str, get_map, get_bool, put_flag}
use cff_core.Proxy.Multiplex.{apply_multiplex}
use cff_core.Proxy.Protocols.Start.{Translated, skip, start}
use cff_core.Proxy.Protocols.Stream.{unsupported}

abbrev pub ss_ciphers : List String
ss_ciphers =
    "aes-128-gcm" ∷ "aes-192-gcm" ∷ "aes-256-gcm" ∷ "chacha20-ietf-poly1305"
    ∷ "xchacha20-ietf-poly1305" ∷ "2022-blake3-aes-128-gcm" ∷ "2022-blake3-aes-256-gcm"
    ∷ "2022-blake3-chacha20-poly1305" ∷ []

-- `sip003PluginNames`
unfoldable pub plugin_name : String → Option String
plugin_name p =
    if has p ("obfs" ∷ "obfs-local" ∷ "simple-obfs" ∷ [])
    then some "obfs-local"
    else if p == "v2ray-plugin"
    then some "v2ray-plugin"
    else none

-- `obfsKeyMap`, which applies to `obfs-local` only.
unfoldable pub option_key : String → String → String
option_key plugin k =
    if plugin == "obfs-local"
    then (if k == "mode" then "obfs" else if k == "host" then "obfs-host" else k)
    else k

-- A pair put at its place in a list sorted by key, as `slices.Sorted(maps.Keys(opts))` has them.
unfoldable pub insert_pair : String → Value → List (String × Value) → List (String × Value)
insert_pair k v [] = (k, v) ∷ []
insert_pair k v ((j, w) ∷ rest) =
    let later = insert_pair k v rest in
    if is_le (compare k j) then (k, v) ∷ (j, w) ∷ rest else (j, w) ∷ later

unfoldable pub sorted_pairs : Object → List (String × Value)
sorted_pairs empty = []
sorted_pairs (field k v m) = insert_pair k v (sorted_pairs m)

module _ (o : Outside) where
  -- `buildSIP003Opts`
  unfoldable pub build_sip003_opts : Object → String → String
  build_sip003_opts opts plugin =
      join (map (λ kv. option_key plugin kv.0 +++ "=" +++ o.format_value kv.1) (sorted_pairs opts))
        ";"

  unfoldable pub put_plugin_opts : Option Object → String → Object → Object
  put_plugin_opts none plugin m = m
  put_plugin_opts (some opts) plugin m = put "plugin_opts" (str (build_sip003_opts opts plugin)) m

  -- What stands behind the plugin.
  unfoldable pub ss_rest : Object → Object → Translated
  ss_rest m outbound = (
    some (apply_multiplex o m (put_flag "udp_over_tcp" (get_bool m "udp-over-tcp") outbound)),
    [],
  )

  -- The plugin, whose name must be one that sing-box registers.
  unfoldable pub with_plugin : Object → Object → String → Translated
  with_plugin m outbound plugin =
      if plugin == "" then ss_rest m outbound else elim (plugin_name plugin) [
        | none ↦ skip (
            "shadowsocks \""
            +++ get_str o m "name"
            +++ "\": plugin \""
            +++ plugin
            +++ "\" is not supported by sing-box, skipping")
        | some mapped ↦
            ss_rest m (
              put_plugin_opts (get_map m "plugin-opts") mapped (put "plugin" (str mapped) outbound))
      ]

  -- `TranslateShadowsocks`
  unfoldable pub translate_shadowsocks : Object → Translated
  translate_shadowsocks m =
      let cipher = get_str o m "cipher" in
      let password = get_str o m "password" in
      if cipher == ""
      then skip "shadowsocks: missing cipher"
      else if not (has cipher ss_ciphers)
      then skip (unsupported "shadowsocks: cipher" cipher)
      else if password == ""
      then skip "shadowsocks: missing password, skipping"
      else with_plugin m
          (put "password" (str password) (put "method" (str cipher) (start o "shadowsocks" m)))
          (get_str o m "plugin")
