-- ===== src/Translator/Dns/Address.antt =====
-- The addresses of DNS servers in translator/dns.go: scheme, host, port, path and the parameters
-- behind `#`.
use cff_core.Base.{
  ℤ, pos, String, Bool, List, [], ◌∷◌, Option, none, some, is_some, ◌==◌, ◌||◌, if◌then◌else◌,
  is_zero,
}
use cff_core.Base.Text.{◌+++◌, cut, cut_prefix, split, trim_space, ends_with, drop_last}
use cff_core.Base.Text.Decimal.{atoi}
use cff_core.Outside.{Outside}

-- The parameters, the latest first: a key that stands twice has its last value.
abbrev pub Params : Type 0
Params = List (String × String)

-- `params[key]`
unfoldable pub find_param : String → Params → Option String
find_param key [] = none
find_param key ((k, v) ∷ ps) = if k == key then some v else find_param key ps

-- One part of the fragment, trimmed.
unfoldable pub add_param : String → Params → Params
unfolding cut
add_param part ps =
    if part == ""
    then ps
    else elim (cut part b'=') [ some (k, v) ↦ (k, v) ∷ ps | none ↦ (part, "") ∷ ps ]

unfoldable pub add_params : List String → Params → Params
unfolding add_param trim_space
add_params [] ps = ps
add_params (part ∷ parts) ps = add_params parts (add_param (trim_space part) ps)

-- The text in front of `#`, and the parameters.
unfoldable pub split_fragment : String → String × Params
unfolding cut add_params split
split_fragment s = elim (cut s b'#') [
  | none ↦ (s, [])
  | some (before, after) ↦ (before, add_params (split after b'&') [])
]

-- The switch on the scheme: the first prefix that fits, without `://`.
unfoldable pub split_scheme : List String → String → String × String
unfolding cut_prefix
split_scheme [] s = ("", s)
split_scheme (scheme ∷ schemes) s =
    let other = split_scheme schemes s in
    elim (cut_prefix s (scheme +++ "://")) [ some rest ↦ (scheme, rest) | none ↦ other ]

abbrev pub schemes : List String
schemes = "https" ∷ "http" ∷ "tls" ∷ "quic" ∷ "h3" ∷ []

-- The host with its port, and the path from the first slash.
unfoldable pub split_path : String → String → String × String
unfolding cut
split_path scheme s =
    if scheme == "https" || (scheme == "http" || scheme == "h3")
    then elim (cut s b'/') [ none ↦ (s, "") | some (host, path) ↦ (host, "/" +++ path) ]
    else (s, "")

unfoldable pub default_port : String → ℤ
default_port scheme =
    if scheme == "https" || (scheme == "http" || scheme == "h3")
    then pos 443
    else if scheme == "tls" || scheme == "quic"
    then pos 853
    else pos 53

-- The results of `extractHostPort`.
pub record Address : Type 0 where
  pub host : String
  pub port : ℤ
  pub path : String
  pub scheme : String
  pub params : Params

module _ (o : Outside) where
  -- `isIPAddress`
  unfoldable pub is_ip_address : String → Bool
  is_ip_address s = is_some (o.parse_addr s)

  -- An IPv6 address in brackets with no port, and otherwise the text as it is.
  unfoldable pub bracketed_host : String → String
  unfolding cut_prefix ends_with drop_last
  bracketed_host s = elim (cut_prefix s "[") [
    | none ↦ s
    | some trimmed ↦
        if ends_with trimmed b']'
        then elim (o.parse_addr (drop_last trimmed)) [ none ↦ s | some addr ↦ addr.text ]
        else s
  ]

  -- `net.SplitHostPort` and the number behind it.
  unfoldable pub host_and_port : String → Option (String × ℤ)
  unfolding atoi
  host_and_port s = elim (o.split_host_port s) [
    | none ↦ none
    | some (h, p) ↦ elim (atoi p) [ none ↦ none | some n ↦ some (h, n) ]
  ]

  -- `splitHostPort`
  unfoldable pub split_host_port : String → String × ℤ
  unfolding host_and_port bracketed_host
  split_host_port s = elim (o.parse_addr s) [
    | some addr ↦ (addr.text, pos 0)
    | none ↦ elim (host_and_port s) [ some hp ↦ hp | none ↦ (bracketed_host s, pos 0) ]
  ]

  -- `extractHostPort`
  unfoldable pub extract_host_port : String → Address
  unfolding split_fragment split_scheme split_path split_host_port default_port
  extract_host_port raw_url =
      let (s, params) = split_fragment raw_url in
      let (scheme, rest) = split_scheme schemes s in
      let (authority, path) = split_path scheme rest in
      let (host, port) = split_host_port authority in
      record {
        host = host;
        port = if is_zero port then default_port scheme else port;
        path = path;
        scheme = scheme;
        params = params;
      }
