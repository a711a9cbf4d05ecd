-- ===== src/Translator/Proxies/Given.antt =====
-- The tag of the outbound that a translated proxy gives.
use cff_core.Base.{
  String, Bool, true, false, List, [], ◌∷◌, Option, none, some, ◌==◌, ◌≡◌, refl, ap, ◌∙◌, arith,
  if◌then◌else◌, subst,
}
use cff_core.Outside.{Outside}
use cff_core.Value.{Value, Object, str, get, get_text, as_str}
use cff_core.Value.Laws.{get-put}
use cff_core.Proxy.Fields.{get_str, scalar_text}
use cff_core.Proxy.Tagged.Stream.{Gives, vless-Gives, vmess-Gives, trojan-Gives}
use cff_core.Proxy.Tagged.Quic.{hysteria-Gives, hysteria2-Gives, tuic-Gives, any_tls-Gives}
use cff_core.Proxy.Tagged.Plain.{socks-Gives, http-Gives, shadowsocks-Gives, unsupported-Gives}
use cff_core.Base.Text.{◌+++◌}
use cff_core.Proxy.Protocols.Stream.{translate_vless, translate_vmess, translate_trojan}
use cff_core.Proxy.Protocols.Quic.{
  translate_hysteria, translate_hysteria2, translate_tuic, translate_any_tls,
}
use cff_core.Proxy.Protocols.Plain.{translate_socks, translate_http, translate_unsupported}
use cff_core.Proxy.Protocols.Shadowsocks.{translate_shadowsocks}
use cff_core.Proxy.Protocols.Start.{Translated, skip}
use cff_core.Translator.Proxies.{with_fingerprint, translate_protocol, translate_one_proxy}

-- The names of the proxies that have one, in order.
abbrev pub names_of : List Object → List String
names_of [] = []
names_of (p ∷ ps) =
    let rest = names_of ps in
    let name = get_text "name" p in if name == "" then rest else name ∷ rest

text_of_scalar :
    (o : Outside) (v : Option Value) → (as_str v == "") ≡ false → scalar_text o v ≡ as_str v
unfolding scalar_text
text_of_scalar o (some (str s)) h = refl
text_of_scalar o none h = cc
text_of_scalar o _ h = cc

-- The same of a result with its warnings, shut: `ground` is to take it whole.
Given : String → Translated → Type 0
Given name r = Gives name r.0

given : (name : String) (r : Translated) → Gives name r.0 → Given name r
unfolding Given
given name r h = h

if-Given :
    (name : String) (b : Bool) (x y : Translated)
    → Given name x
    → Given name y
    → Given name (if b then x else y)
if-Given name true x y h k = h
if-Given name false x y h k = k

module _ (o : Outside) where
  get_str_of_text :
      (key : String) (m : Object)
      → (get_text key m == "") ≡ false
      → get_str o m key ≡ get_text key m
  unfolding get_str get_text
  get_str_of_text key m h = text_of_scalar o (get key m) h

  protocol-Given :
      (type : String) (m : Object) → Given (get_str o m "name") (translate_protocol o type m)
  unfolding translate_protocol
  protocol-Given type m =
      let name = get_str o m "name" in
      if-Given name _ _ _ (given name (translate_vless o m) (vless-Gives o m)) (
        if-Given name _ _ _ (given name (translate_vmess o m) (vmess-Gives o m)) (
          if-Given name _ _ _ (given name (translate_trojan o m) (trojan-Gives o m)) (
            if-Given name _ _ _ (given name (translate_shadowsocks o m) (shadowsocks-Gives o m)) (
              if-Given name _ _ _ (given name (translate_hysteria2 o m) (hysteria2-Gives o m)) (
                if-Given name _ _ _ (given name (translate_tuic o m) (tuic-Gives o m)) (
                  if-Given name _ _ _ (given name (translate_any_tls o m) (any_tls-Gives o m)) (
                    if-Given name _ _ _ (given name (translate_socks o m) (socks-Gives o m)) (
                      if-Given name _ _ _ (given name (translate_http o m) (http-Gives o m)) (
                        if-Given name _ _ _
                          (given name (translate_hysteria o m) (hysteria-Gives o m))
                          (if-Given name _ _ _
                            (given name (translate_unsupported o type m)
                              (unsupported-Gives o name type m))
                            (given name (skip ("unknown proxy type: " +++ type)) tt)))))))))))

  fingerprint-name :
      (m : Object) (fp : String) → get "name" (with_fingerprint o m fp) ≡ get "name" m
  unfolding with_fingerprint
  fingerprint-name m fp = ground (arith, get-put "name" "client-fingerprint" (str fp) m)

  fingerprint-get_str :
      (m : Object) (fp : String) → get_str o (with_fingerprint o m fp) "name" ≡ get_str o m "name"
  unfolding get_str
  fingerprint-get_str m fp = ap (scalar_text o) (fingerprint-name m fp)

  pub one_proxy-Gives :
      (m : Object) (fp : String)
      → (get_text "name" m == "") ≡ false
      → Gives (get_text "name" m) (translate_one_proxy o m fp).0
  unfolding translate_one_proxy
  one_proxy-Gives m fp h =
      let m' = with_fingerprint o m fp in
      let same : get_str o m' "name" ≡ get_text "name" m =
        fingerprint-get_str m fp ∙ get_str_of_text "name" m h in
      subst (λ name. Gives name (translate_protocol o (get_text "type" m') m').0) same
        (unfold Given in protocol-Given (get_text "type" m') m')
