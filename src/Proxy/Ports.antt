-- ===== src/Proxy/Ports.antt =====
-- `ParseServerPorts` of translator/proxy/common.go: Clash's "1000-2000,3000" as sing-box's
-- "1000:2000" and "3000:3000".
pub mod Range
use cff_core.Base.{
  ℤ, pos, String, Bool, false, ◌&&◌, List, [], ◌∷◌, Option, none, some, ltb, leb, if◌then◌else◌,
  ◌==◌,
}
use cff_core.Base.Text.{trim_space, cut, split, ◌+++◌}
use cff_core.Base.Text.Decimal.{atoi}

abbrev pub in_port_range : Option ℤ → Bool
in_port_range (some (pos n)) = ltb 0 n && leb n 65535
in_port_range _ = false

-- `isPortNumber`
unfoldable pub is_port_number : String → Bool
unfolding atoi
is_port_number s = if s == "" then false else in_port_range (atoi s)

-- The two ends of a segment: both are the segment where it has no dash.
unfoldable pub ends_of : String → String × String
unfolding cut trim_space
ends_of seg = elim (cut seg b'-') [
  | none ↦ let start = trim_space seg in (start, start)
  | some (start, end) ↦ (trim_space start, trim_space end)
]

-- One round of the loop, at a segment that is trimmed.
unfoldable pub parse_segment : String → Option String
unfolding ends_of is_port_number
parse_segment seg =
    if seg == ""
    then none
    else let (start, end) = ends_of seg in
      if is_port_number start && is_port_number end then some (start +++ (":" +++ end)) else none

unfoldable pub parse_segments : List String → List String
unfolding parse_segment trim_space
parse_segments [] = []
parse_segments (seg ∷ segs) =
    let rest = parse_segments segs in
    elim (parse_segment (trim_space seg)) [ none ↦ rest | some entry ↦ entry ∷ rest ]

-- `ParseServerPorts`
unfoldable pub parse_server_ports : String → List String
unfolding split parse_segments
parse_server_ports ports = parse_segments (split ports b',')
