-- ===== src/Proxy/Ports/Range.antt =====
-- The entries that `ParseServerPorts` of translator/proxy/common.go gives.
use cff_core.Base.{
  ℕ, ◌≤◌, ℤ, pos, negsuc, String, true, ◌&&◌, List, [], ◌∷◌, Option, none, some, ◌≡◌, ◌==◌, refl,
  arith, All, Bool-cases, inl, inr, and-true,
}
use cff_core.Base.Text.{◌+++◌, split, trim_space}
use cff_core.Base.Text.Decimal.{atoi}
use cff_core.Proxy.Ports.{
  in_port_range, is_port_number, ends_of, parse_segment, parse_segments, parse_server_ports,
}

-- A text that is read as a number from 1 to 65535.
abbrev pub IsPort : String → Type 0
IsPort s = (n : ℕ) × (atoi s ≡ some (pos n)) × ((1 ≤ n) × (n ≤ 65535))

abbrev pub IsEntry : String → Type 0
IsEntry entry =
    (start : String) × (end : String) × (entry ≡ start +++ (":" +++ end))
    × (IsPort start × IsPort end)

in_port_range-pos :
    (v : Option ℤ) → in_port_range v ≡ true → (n : ℕ) × (v ≡ some (pos n)) × ((1 ≤ n) × (n ≤ 65535))
in_port_range-pos (some (pos n)) h = (n, refl, (ground (arith, h), ground (arith, h)))
in_port_range-pos (some (negsuc n)) h = cc
in_port_range-pos none h = cc

is_port_number-IsPort : (s : String) → is_port_number s ≡ true → IsPort s
unfolding is_port_number
is_port_number-IsPort s h = elim (Bool-cases (s == "")) [
  | inl e ↦ cc (rw (e, is_port_number) at h)
  | inr e ↦ in_port_range-pos (atoi s) (rw (e, is_port_number) at h)
]

abbrev IsSome : Option String → Type 0
IsSome none = Unit
IsSome (some entry) = IsEntry entry

parse_segment-IsSome : (seg : String) → IsSome (parse_segment seg)
unfolding parse_segment
parse_segment-IsSome seg =
    let start = (ends_of seg).0 in
    let end = (ends_of seg).1 in
    elim (Bool-cases (seg == "")) [
      | inl e ↦ rw e tt
      | inr e ↦ elim (Bool-cases (is_port_number start && is_port_number end)) [
        | inl b ↦
            let (p, q) = and-true (is_port_number start) (is_port_number end) b in
            rw (e, b)
              (start, end, refl, (is_port_number-IsPort start p, is_port_number-IsPort end q))
        | inr b ↦ rw (e, b) tt
      ]
    ]

parse_segments-All : (segs : List String) → All IsEntry (parse_segments segs)
unfolding parse_segments
parse_segments-All [] = tt
parse_segments-All (seg ∷ segs) =
    go (parse_segment (trim_space seg)) (parse_segments segs)
      (parse_segment-IsSome (trim_space seg)) (parse_segments-All segs)
  where
    go :
        (entry : Option String) (rest : List String)
        → IsSome entry
        → All IsEntry rest
        → All IsEntry (elim entry [ none ↦ rest | some e ↦ e ∷ rest ])
    go none rest h k = k
    go (some e) rest h k = (h, k)

-- Every entry of `parse_server_ports` is two port numbers from 1 to 65535 with a colon between them.
pub parse_server_ports-All : (ports : String) → All IsEntry (parse_server_ports ports)
unfolding parse_server_ports
parse_server_ports-All ports = parse_segments-All (split ports b',')
