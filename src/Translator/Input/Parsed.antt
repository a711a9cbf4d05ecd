-- ===== src/Translator/Input/Parsed.antt =====
-- What becomes of the proxies that translator/input.go reads from URIs.
use cff_core.Base.{
  String, Bool, true, false, ◌||◌, List, [], ◌∷◌, Option, none, some, ◌==◌, if◌then◌else◌, ◌≡◌,
  refl, subst, Bool-cases, Option-cases, All, inl, inr, some-eq-some,
}
use cff_core.Base.Text.{◌+++◌, trim_space, cut_text, to_lower, cut}
use cff_core.Outside.{Outside}
use cff_core.Value.{Value, Object, str, obj, get, get_text, object_of}
use cff_core.Value.Laws.{get-put}
use cff_core.Proxy.Fields.{get_str, scalar_text}
use cff_core.Proxy.Transport.{is_unsupported_network}
use cff_core.Proxy.Protocols.Stream.{translate_vless}
use cff_core.Translator.Dns.Entries.Laws.{get-put_when}
use cff_core.Translator.General.{put_text}
use cff_core.Translator.Input.Uris.{
  vless_proxy, parse_vless, parse_ss, ss_proxy, ss_parts, vmess_proxy, vmess_of, parse_vmess,
  parse_trojan, hysteria2_proxy, parse_hysteria2, name_and_body, parse_scheme, parse_proxy_uri,
  base64_decode, parse_lines, with_some,
}
use cff_core.Translator.Input.Parsers.{Url, Parsers}

get-put_text :
    (j key s : String) (m : Object) → (key == j) ≡ false → get j (put_text key s m) ≡ get j m
unfolding put_text
get-put_text j key s m h = elim (Bool-cases (s == "")) [
  | inl e ↦ rw e refl
  | inr e ↦ rw (e, get-put j key (str s) m, h) refl
]

module _ (o : Outside) (q : Parsers) where
  vless_proxy-uuid : (name : String) (u : Url) → get "uuid" (vless_proxy o q name u) ≡ none
  unfolding vless_proxy get object_of
  vless_proxy-uuid name u = simp (get-put_text)

  translate_vless-no_uuid : (m : Object) → get "uuid" m ≡ none → (translate_vless o m).0 ≡ none
  unfolding translate_vless get_str scalar_text
  translate_vless-no_uuid m h = elim (Bool-cases (is_unsupported_network o m)) [
    | inl e ↦ rw e refl
    | inr e ↦ rw (e, h) refl
  ]

  -- Every proxy that `parseVless` reads from a URI is one that `TranslateVLESS` refuses.
  pub parse_vless-refused :
      (body name : String) (m : Object)
      → parse_vless o q body name ≡ some m
      → (translate_vless o m).0 ≡ none
  unfolding parse_vless
  parse_vless-refused body name m h = elim (Option-cases (q.parse_url ("vless://" +++ body))) [
    | inl e ↦ cc (rw (e, parse_vless) at h)
    | inr (u, e) ↦
        subst (λ x. (translate_vless o x).0 ≡ none) (some-eq-some (rw (e, parse_vless) at h))
          (translate_vless-no_uuid (vless_proxy o q name u) (vless_proxy-uuid name u))
  ]

-- None, or a proxy with a name.
pub data IsNamed : Option Object → Type 0 where
  refused : IsNamed none
  named : {m : Object} → (get_text "name" m == "") ≡ false → IsNamed (some m)

if-IsNamed : (b : Bool) (x y : Option Object) → IsNamed x → IsNamed y → IsNamed (if b then x else y)
if-IsNamed true x y h k = h
if-IsNamed false x y h k = k

module _ (o : Outside) (q : Parsers) (name : String) (n : (name == "") ≡ false) where
  same_name : (m : Object) → get_text "name" m ≡ name → IsNamed (some m)
  same_name m e = named (rw e n)

  ss_proxy-IsNamed :
      (decoded : String) (hp : String × String) → IsNamed (ss_proxy o q name decoded hp)
  unfolding ss_proxy get_text get object_of
  ss_proxy-IsNamed decoded hp = elim (Option-cases (cut decoded b':')) [
    | inl g ↦ rw (g, ss_proxy) refused
    | inr (cp, g) ↦ rw (g, ss_proxy) (same_name _ refl)
  ]

  ss-IsNamed : (body : String) → IsNamed (parse_ss o q body name)
  unfolding parse_ss
  ss-IsNamed body = elim (Option-cases (ss_parts q body)) [
    | inl e ↦ rw (e, parse_ss) refused
    | inr ((decoded, authority), e) ↦ elim (Option-cases (o.split_host_port authority)) [
      | inl f ↦ rw (e, f, parse_ss) refused
      | inr (hp, f) ↦ rw (e, f, parse_ss) (ss_proxy-IsNamed decoded hp)
    ]
  ]

  vmess_of-IsNamed : (raw : Option Value) → IsNamed (vmess_of o q name raw)
  unfolding vmess_proxy get_text get object_of
  vmess_of-IsNamed (some (obj raw)) =
      let ps = get_text "ps" raw in
      elim (Bool-cases (get_text "add" raw == "" || get_text "id" raw == "")) [
        | inl e ↦ rw e refused
        | inr e ↦ elim (Bool-cases (ps == "")) [
          | inl f ↦ rw (e, f) (same_name _ refl)
          | inr f ↦ rw (e, f) (named f)
        ]
      ]
  vmess_of-IsNamed _ = refused

  vmess-IsNamed : (body : String) → IsNamed (parse_vmess o q body name)
  unfolding parse_vmess
  vmess-IsNamed body = elim (Option-cases (base64_decode q body)) [
    | inl e ↦ rw (e, parse_vmess) refused
    | inr (decoded, e) ↦ rw (e, parse_vmess) (vmess_of-IsNamed (q.json decoded))
  ]

  vless_proxy-name : (u : Url) → get_text "name" (vless_proxy o q name u) ≡ name
  unfolding vless_proxy get_text get object_of
  vless_proxy-name u = simp (get-put_text)

  vless-IsNamed : (body : String) → IsNamed (parse_vless o q body name)
  unfolding parse_vless vless_proxy get_text get object_of
  vless-IsNamed body = elim (Option-cases (q.parse_url ("vless://" +++ body))) [
    | inl e ↦ rw (e, parse_vless) refused
    | inr (u, e) ↦ rw (e, parse_vless) (same_name (vless_proxy o q name u) (vless_proxy-name u))
  ]

  trojan-IsNamed : (body : String) → IsNamed (parse_trojan o q body name)
  unfolding parse_trojan get_text get object_of
  trojan-IsNamed body = elim (Option-cases (q.parse_url ("trojan://" +++ body))) [
    | inl e ↦ rw (e, parse_trojan) refused
    | inr (u, e) ↦ rw (e, parse_trojan) (same_name _ refl)
  ]

  hysteria2_proxy-name : (u : Url) → get_text "name" (hysteria2_proxy o q name u) ≡ name
  unfolding hysteria2_proxy get_text get object_of
  hysteria2_proxy-name u = simp (get-put_text, get-put_when)

  hysteria2-IsNamed : (body : String) → IsNamed (parse_hysteria2 o q body name)
  unfolding parse_hysteria2
  hysteria2-IsNamed body = elim (Option-cases (q.parse_url ("hysteria2://" +++ body))) [
    | inl e ↦ rw (e, parse_hysteria2) refused
    | inr (u, e) ↦
        rw (e, parse_hysteria2)
          (if-IsNamed (u.hostname == "") none _ refused
            (same_name (hysteria2_proxy o q name u) (hysteria2_proxy-name u)))
  ]

  scheme-IsNamed : (scheme body : String) → IsNamed (parse_scheme o q scheme body name)
  unfolding parse_scheme
  scheme-IsNamed scheme body = if-IsNamed (scheme == "ss") _ _ (ss-IsNamed body) (
      if-IsNamed (scheme == "vmess") _ _ (vmess-IsNamed body) (
        if-IsNamed (scheme == "vless") _ _ (vless-IsNamed body) (
          if-IsNamed (scheme == "trojan") _ _ (trojan-IsNamed body) (
            if-IsNamed (scheme == "hysteria2" || scheme == "hy2") _ _ (hysteria2-IsNamed body)
              refused))))

with_named :
    (r : Option Object) (rest : List Object)
    → IsNamed r
    → All (λ m. (get_text "name" m == "") ≡ false) rest
    → All (λ m. (get_text "name" m == "") ≡ false) (with_some r rest)
with_named none rest h hs = hs
with_named (some m) rest (named n) hs = (n, hs)

module _ (o : Outside) (q : Parsers) where
  name_and_body-named : (rest : String) → ((name_and_body o q rest).0 == "") ≡ false
  unfolding name_and_body
  name_and_body-named rest = elim (Option-cases (cut rest b'#')) [
    | inl e ↦ rw (e, name_and_body) refl
    | inr ((body, fragment), e) ↦ elim (Option-cases (q.query_unescape fragment)) [
      | inl f ↦ rw (e, f, name_and_body) refl
      | inr (decoded, f) ↦ elim (Bool-cases (decoded == "")) [
        | inl g ↦ rw (e, f, g, name_and_body) refl
        | inr g ↦ rw (e, f, g, name_and_body) g
      ]
    ]
  ]

  parsed-IsNamed : (uri : String) → IsNamed (parse_proxy_uri o q uri)
  unfolding parse_proxy_uri
  parsed-IsNamed uri = elim (Option-cases (cut_text uri "://")) [
    | inl e ↦ rw (e, parse_proxy_uri) refused
    | inr ((scheme, rest), e) ↦
        rw (e, parse_proxy_uri)
          (scheme-IsNamed o q (name_and_body o q rest).0 (name_and_body-named rest)
            (to_lower o.lower scheme) (name_and_body o q rest).1)
  ]

  -- Every proxy that is read from a list of URIs has a name that is not empty.
  pub parse_lines-HasName :
      (lines : List String) → All (λ m. (get_text "name" m == "") ≡ false) (parse_lines o q lines)
  unfolding parse_lines
  parse_lines-HasName [] = tt
  parse_lines-HasName (line ∷ lines) = elim (Bool-cases (trim_space line == "")) [
    | inl e ↦ rw e (parse_lines-HasName lines)
    | inr e ↦ rw e (
        with_named (parse_proxy_uri o q (trim_space line)) _ (parsed-IsNamed (trim_space line))
          (parse_lines-HasName lines))
  ]
