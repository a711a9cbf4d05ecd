-- ===== src/Proxy/Bandwidth.antt =====
-- `ParseBandwidth` of translator/proxy/common.go: "100 Mbps" and the like as whole Mbps.
pub mod Bounds
use Prim.Native.String.{[], ◌∷◌}
use cff_core.Base.{
  ℕ, ℤ, pos, zero, ◌*◌, ◌/◌, ◌%◌, ◌^◌, String, code, Bool, ◌||◌, Option, none, some, ltb, eqb,
  if◌then◌else◌, ◌==◌,
}
use cff_core.Base.Text.{trim_space}
use cff_core.Base.Text.Decimal.{is_digit, atoi, parse_uint}

-- `uint64` multiplication.
abbrev pub mul64 : ℕ → ℕ → ℕ
mul64 a b = a * b % 2 ^ 64

-- `\s` of a regular expression.
unfoldable pub is_regexp_space : ℕ → Bool
is_regexp_space c = eqb c 9 || eqb c 10 || eqb c 12 || eqb c 13 || eqb c 32

-- The longest run of digits in front, and the rest.
unfoldable pub take_digits : String → String × String
unfolding is_digit
take_digits [] = ([], [])
take_digits (c ∷ s) =
    let (ds, rest) = take_digits s in if is_digit (code c) then (c ∷ ds, rest) else ([], c ∷ s)

unfoldable pub drop_spaces : String → String
unfolding is_regexp_space
drop_spaces [] = []
drop_spaces (c ∷ s) = let rest = drop_spaces s in if is_regexp_space (code c) then rest else c ∷ s

-- The factor of a unit prefix, in either case.
unfoldable pub prefix_factor : ℕ → Option ℕ
prefix_factor c =
    if eqb c b'T' || eqb c b't'
    then some (1000 * 1000 * 1000 * 1000)
    else if eqb c b'G' || eqb c b'g'
    then some (1000 * 1000 * 1000)
    else if eqb c b'M' || eqb c b'm'
    then some (1000 * 1000)
    else if eqb c b'K' || eqb c b'k'
    then some 1000
    else none

-- `([Bb])ps$`: the factor of a byte or a bit.
unfoldable pub unit_factor : String → Option ℕ
unit_factor s = if s == "Bps" then some 8 else if s == "bps" then some 1 else none

abbrev pub with_factor : ℕ → Option ℕ → Option (ℕ × ℕ)
with_factor k none = none
with_factor k (some u) = some (k, u)

-- `\s*([KMGTkmgt]?)([Bb])ps$`: the factors of the prefix and of the unit.
unfoldable pub suffix_factors : String → Option (ℕ × ℕ)
unfolding prefix_factor unit_factor
suffix_factors [] = none
suffix_factors (c ∷ s) = elim (prefix_factor (code c)) [
  | none ↦ with_factor 1 (unit_factor (c ∷ s))
  | some k ↦ with_factor k (unit_factor s)
]

-- From bits per second to whole Mbps, at least 1 and at most `math.MaxInt32`.
unfoldable pub mbps_of_bits : ℕ → ℕ
mbps_of_bits bits =
    let mbps = bits / 1_000_000 in
    if eqb mbps 0
    then (if ltb 0 bits then 1 else 0)
    else if ltb 2147483647 mbps
    then 2147483647
    else mbps

-- The value and its factors as bits per second, in `uint64`.
unfoldable pub bits_of : ℕ → ℕ → ℕ → ℕ
bits_of value k u = mul64 (mul64 value k) u

-- The part behind the test for a plain number.
unfoldable pub parse_with_unit : String → ℕ
unfolding take_digits drop_spaces suffix_factors parse_uint bits_of mbps_of_bits
parse_with_unit s =
    let (ds, rest) = take_digits s in
    elim (suffix_factors (drop_spaces rest)) [
      | none ↦ 0
      | some (k, u) ↦ elim (parse_uint ds) [
        | none ↦ 0
        | some value ↦ mbps_of_bits (bits_of value k u)
      ]
    ]

-- `ParseBandwidth`
unfoldable pub parse_bandwidth : String → ℤ
unfolding trim_space atoi parse_with_unit
parse_bandwidth s =
    let t = trim_space s in
    if t == ""
    then pos zero
    else elim (atoi t) [ some mbps ↦ mbps | none ↦ pos (parse_with_unit t) ]
