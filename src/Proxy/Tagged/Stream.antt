-- ===== src/Proxy/Tagged/Stream.antt =====
-- The tag of what the translators of vless, vmess and trojan give.
use cff_core.Base.{String, Option, none, some, refl, arith}
use cff_core.Outside.{Outside}
use cff_core.Value.{Value, Object, str, obj}
use cff_core.Proxy.Fields.{get_str, get_bool}
use cff_core.Proxy.Tls.{translate_tls}
use cff_core.Proxy.Tagged.{
  IsTagged, put-IsTagged, put_text-IsTagged, put_flag-IsTagged, start-IsTagged, put_tls-IsTagged,
  finish-IsTagged,
}
use cff_core.Proxy.Protocols.Stream.{
  tls_or_enabled, secured, alter_id, vmess_cipher, translate_vless, translate_vmess,
  translate_trojan,
}

-- An outbound, where there is one, has this tag and no members.
abbrev pub Gives : String → Option Object → Type 0
Gives name none = Unit
Gives name (some ob) = IsTagged name ob

module _ (o : Outside) where
  secured-Gives :
      {name : String} (m : Object) {ob : Object} → IsTagged name ob → Gives name (secured o m ob).0
  unfolding secured
  secured-Gives m h = finish-IsTagged o m (put_tls-IsTagged o m h)

  pub vless-Gives : (m : Object) → Gives (get_str o m "name") (translate_vless o m).0
  unfolding translate_vless
  vless-Gives m = ground (
    arith,
    secured-Gives m (
        put_text-IsTagged "packet_encoding" (refl, refl) (get_str o m "packet-encoding")
          (put_text-IsTagged "flow" (refl, refl) (get_str o m "flow")
            (put-IsTagged "uuid" (refl, refl) (str (get_str o m "uuid"))
              (start-IsTagged o "vless" m)))),
  )

  pub vmess-Gives : (m : Object) → Gives (get_str o m "name") (translate_vmess o m).0
  unfolding translate_vmess
  vmess-Gives m = ground (
    arith,
    secured-Gives m (
        put_text-IsTagged "packet_encoding" (refl, refl) (get_str o m "packet-encoding")
          (put_flag-IsTagged "authenticated_length" (refl, refl) (get_bool m "authenticated-length")
            (put_flag-IsTagged "global_padding" (refl, refl) (get_bool m "global-padding")
              (put-IsTagged "security" (refl, refl) (str (vmess_cipher o m))
                (put-IsTagged "alter_id" (refl, refl) (Value.int (alter_id o m))
                  (put-IsTagged "uuid" (refl, refl) (str (get_str o m "uuid"))
                    (start-IsTagged o "vmess" m))))))),
  )

  pub trojan-Gives : (m : Object) → Gives (get_str o m "name") (translate_trojan o m).0
  unfolding translate_trojan
  trojan-Gives m = ground (
    arith,
    finish-IsTagged o m (
        put-IsTagged "tls" (refl, refl) (obj (tls_or_enabled o (translate_tls o m).0))
          (put-IsTagged "password" (refl, refl) (str (get_str o m "password"))
            (start-IsTagged o "trojan" m))),
  )
