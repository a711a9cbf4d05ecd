-- ===== src/Translator/Proxies/Endpoint.antt =====
-- The tests of translator/proxy.go on the server and port of a proxy.
use Prim.Native.Char.{Char, code}
use cff_core.Base.{
  ℤ, pos, negsuc, is_zero, String, Bool, true, false, not, ◌||◌, ◌&&◌, Option, none, some, ◌==◌,
  eqb, ltb, if◌then◌else◌,
}
use cff_core.Base.Text.{
  trim_space, has_prefix, trim_prefix, ends_with, drop_last, map_chars, lower_char,
}
use cff_core.Outside.{Outside, Addr}
use cff_core.Value.{Object}
use cff_core.Proxy.Fields.{get_str, get_int}

-- The letters that fold to one of ASCII: upper case, and the long s (U+017F).
unfoldable pub fold_char : Char → Char
unfolding lower_char
fold_char c = lower_char (λ d. if eqb (code d) 0x17F then "s" else d) c

-- `strings.EqualFold(s, "localhost")`
unfoldable pub is_localhost : String → Bool
unfolding map_chars fold_char
is_localhost s = map_chars fold_char s == "localhost"

-- `[` and `]` round an address come off.
unfoldable pub strip_brackets : String → String
unfolding has_prefix trim_prefix ends_with drop_last
strip_brackets s = if has_prefix s "[" && ends_with s b']' then trim_prefix (drop_last s) "[" else s

abbrev pub is_local_addr : Option Addr → Bool
is_local_addr none = false
is_local_addr (some a) = a.is_loopback || a.is_unspecified

-- `port != 0 && (port < 1 || port > 65535)`
abbrev pub is_bad_port : ℤ → Bool
is_bad_port (pos n) = ltb 65535 n
is_bad_port (negsuc n) = true

module _ (o : Outside) where
  -- `isInvalidHealthCheckEndpoint`
  unfoldable pub is_invalid_health_check_endpoint : Object → Bool
  unfolding get_str get_int trim_space strip_brackets is_localhost
  is_invalid_health_check_endpoint p =
      let server = trim_space (get_str o p "server") in
      let host = strip_brackets server in
      if server == ""
      then false
      else is_localhost host
        || is_local_addr (o.parse_addr host)
        || is_bad_port (get_int o p "port")

  -- `hasProxyEndpoint`
  unfoldable pub has_proxy_endpoint : Object → Bool
  unfolding get_str get_int
  has_proxy_endpoint p =
      if get_str o p "server" == ""
      then false
      else not (is_zero (get_int o p "port")) || not (get_str o p "ports" == "")
