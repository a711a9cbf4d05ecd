-- ===== src/Proxy/Protocols/Start.antt =====
-- What the translators of all protocols begin and end with.
use cff_core.Base.{String, List, [], ◌∷◌, Option, none}
use cff_core.Outside.{Outside}
use cff_core.Value.{Object, empty, field, str}
use cff_core.Proxy.Fields.{get_str, apply_common_fields, put_map}
use cff_core.Proxy.Transport.{translate_transport}
use cff_core.Proxy.Multiplex.{apply_multiplex}
use cff_core.Proxy.Tls.{translate_tls}

-- `nil` or an outbound, and the warnings.
abbrev pub Translated : Type 0
Translated = Option Object × List String

-- `warn(msg); return nil`
abbrev pub skip : String → Translated
skip msg = (none, msg ∷ [])

module _ (o : Outside) where
  -- `map[string]any{"type": …, "tag": …}` and `ApplyCommonFields`
  unfoldable pub start : String → Object → Object
  start type m =
      apply_common_fields o m
        (field "type" (str type) (field "tag" (str (get_str o m "name")) empty))

  -- `if tls := TranslateTLS(m, warn); tls != nil { outbound["tls"] = tls }`
  unfoldable pub put_tls : Object → Object → Object × List String
  put_tls m outbound =
      let (tls, warnings) = translate_tls o m in (put_map "tls" tls outbound, warnings)

  -- `TranslateTransport` and `applyMultiplex`, which stand last.
  unfoldable pub finish : Object → Object → Object
  finish m outbound = apply_multiplex o m (put_map "transport" (translate_transport o m) outbound)

-- The three packet encodings that sing-box knows.
abbrev pub packet_encodings : List String
packet_encodings = "" ∷ "packetaddr" ∷ "xudp" ∷ []
