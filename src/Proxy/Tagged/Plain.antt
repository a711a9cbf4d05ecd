-- ===== src/Proxy/Tagged/Plain.antt =====
-- The tag of what the translators of socks, http and shadowsocks give.
use cff_core.Base.{
  String, Option, none, some, ◌==◌, refl, arith, Bool-cases, Option-cases, inl, inr,
}
use cff_core.Outside.{Outside}
use cff_core.Value.{Object, str, get}
use cff_core.Proxy.Fields.{get_str, get_map}
use cff_core.Proxy.Tagged.{
  IsTagged, put-IsTagged, put_text-IsTagged, put_flag-IsTagged, put_map-IsTagged, common-IsTagged,
  start-IsTagged, put_tls-IsTagged, apply_multiplex-IsTagged,
}
use cff_core.Proxy.Tagged.Stream.{Gives}
use cff_core.Proxy.Protocols.Plain.{
  put_login, translate_socks, translate_http, translate_unsupported,
}
use cff_core.Proxy.Protocols.Shadowsocks.{
  put_plugin_opts, ss_rest, with_plugin, plugin_name, translate_shadowsocks,
}

module _ (o : Outside) where
  put_login-IsTagged :
      {name : String} (m : Object) {ob : Object}
      → IsTagged name ob
      → IsTagged name (put_login o m ob)
  unfolding put_login
  put_login-IsTagged m h =
      put_text-IsTagged "password" (refl, refl) _ (put_text-IsTagged "username" (refl, refl) _ h)

  pub socks-Gives : (m : Object) → Gives (get_str o m "name") (translate_socks o m).0
  unfolding translate_socks get
  socks-Gives m = put_tls-IsTagged o m (put_login-IsTagged m (common-IsTagged o m _ refl))

  pub http-Gives : (m : Object) → Gives (get_str o m "name") (translate_http o m).0
  unfolding translate_http
  http-Gives m =
      put_tls-IsTagged o m (
        put_map-IsTagged "headers" (refl, refl) _
          (put_login-IsTagged m (start-IsTagged o "http" m)))

  ss_rest-Gives :
      {name : String} (m : Object) {ob : Object} → IsTagged name ob → Gives name (ss_rest o m ob).0
  unfolding ss_rest
  ss_rest-Gives m h =
      apply_multiplex-IsTagged o m (put_flag-IsTagged "udp_over_tcp" (refl, refl) _ h)

  put_plugin_opts-IsTagged :
      (opts : Option Object) (plugin : String) {name : String} {ob : Object}
      → IsTagged name ob
      → IsTagged name (put_plugin_opts o opts plugin ob)
  unfolding put_plugin_opts
  put_plugin_opts-IsTagged none plugin h = h
  put_plugin_opts-IsTagged (some opts) plugin h = put-IsTagged "plugin_opts" (refl, refl) _ h

  with_plugin-Gives :
      {name : String} (m : Object) {ob : Object} (plugin : String)
      → IsTagged name ob
      → Gives name (with_plugin o m ob plugin).0
  unfolding with_plugin
  with_plugin-Gives m plugin h = elim (Bool-cases (plugin == "")) [
    | inl e ↦ rw e (ss_rest-Gives m h)
    | inr e ↦ elim (Option-cases (plugin_name plugin)) [
      | inl n ↦ rw (e, n) tt
      | inr (mapped, n) ↦
          rw (e, n)
            (ss_rest-Gives m (
              put_plugin_opts-IsTagged (get_map m "plugin-opts") mapped
                (put-IsTagged "plugin" (refl, refl) (str mapped) h)))
    ]
  ]

  pub shadowsocks-Gives : (m : Object) → Gives (get_str o m "name") (translate_shadowsocks o m).0
  unfolding translate_shadowsocks
  shadowsocks-Gives m = ground (
    arith,
    with_plugin-Gives m (get_str o m "plugin") (
        put-IsTagged "password" (refl, refl) (str (get_str o m "password"))
          (put-IsTagged "method" (refl, refl) (str (get_str o m "cipher"))
            (start-IsTagged o "shadowsocks" m))),
  )

  pub unsupported-Gives :
      (name protocol : String) (m : Object) → Gives name (translate_unsupported o protocol m).0
  unfolding translate_unsupported
  unsupported-Gives name protocol m = tt
