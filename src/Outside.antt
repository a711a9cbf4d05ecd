-- ===== src/Outside.antt =====
-- What the program uses of code that is not in the repository, or of tables too large to write out:
-- floating point, Unicode letter case beyond ASCII, and the parsers of addresses, UUIDs and
-- encryption keys. It is a parameter of every definition that uses it.
use cff_core.Base.{ℕ, ℤ, String, Bool, List, Option, Char}
use cff_core.Value.{Value}

-- A parsed `netip.Addr`.
pub record Addr : Type 0 where
  pub text : String
  pub is_loopback : Bool
  pub is_unspecified : Bool

pub record Outside : Type 0 where
  -- `int(f)` and `strconv.FormatFloat(f, 'f', -1, 64)`, at the 64 bits of `f`
  pub float_int : ℕ → ℤ
  pub float_text : ℕ → String
  -- `unicode.ToUpper` and `unicode.ToLower`, used beyond ASCII only
  pub upper : Char → Char
  pub lower : Char → Char
  -- `netip.ParseAddr`
  pub parse_addr : String → Option Addr
  -- `net.SplitHostPort`
  pub split_host_port : String → Option (String × String)
  -- `net.ParseCIDR`: the network's text, and whether 198.18.0.0/15 contains its address
  pub parse_cidr : String → Option (String × Bool)
  -- `uuid.FromString`: whether it succeeds
  pub is_uuid : String → Bool
  -- `base64.StdEncoding.DecodeString`, and `pem.EncodeToMemory` of a block of type "ECH CONFIGS"
  pub base64_decode : String → Option (List ℕ)
  pub ech_pem : List ℕ → Option String
  -- `fmt.Sprintf("%v", v)`
  pub format_value : Value → String
