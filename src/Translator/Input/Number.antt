-- ===== src/Translator/Input/Number.antt =====
-- `strToInt` of translator/input.go, where the error of `strconv.Atoi` is dropped.
use Prim.Native.Nat.{ℕ, zero, suc, ◌+◌, ◌-◌, ◌*◌, ◌^◌}
use Prim.Native.Char.{code}
use Prim.Native.String.{String, [], ◌∷◌}
use mathlib.Core.Option.{Option, none, some}
use cff_core.Base.{ltb, leb, eqb, if◌then◌else◌, ℤ, pos, negsuc}
use cff_core.Base.Text.Decimal.{is_digit}
use cff_core.Outside.{Outside}
use cff_core.Value.{Value, str, int, float}

-- The loop of `strconv.ParseUint`: 2^64 stands for a number that is too large, which ends it.
unfoldable pub scan_clamped : String → ℕ → Option ℕ
unfolding is_digit
scan_clamped [] n = some n
scan_clamped (c ∷ s) n =
    let next = n * 10 + (code c - b'0') in
    let rest = scan_clamped s next in
    if is_digit (code c) then if ltb next (2 ^ 64) then rest else some (2 ^ 64) else none

-- At least one digit.
unfoldable pub digits_clamped : String → Option ℕ
unfolding scan_clamped
digits_clamped [] = none
digits_clamped (c ∷ s) = scan_clamped (c ∷ s) 0

-- `-n`
abbrev pub negated : ℕ → ℤ
negated zero = pos 0
negated (suc n) = negsuc n

abbrev pub upper_bound : Option ℕ → ℤ
upper_bound none = pos 0
upper_bound (some n) = if ltb n (2 ^ 63) then pos n else pos (2 ^ 63 - 1)

abbrev pub lower_bound : Option ℕ → ℤ
lower_bound none = pos 0
lower_bound (some n) = if leb n (2 ^ 63) then negated n else negated (2 ^ 63)

-- `i, _ := strconv.Atoi(s)`: 0 where the text is no number, and the nearest bound where it is out of range.
unfoldable pub atoi_clamped : String → ℤ
unfolding digits_clamped
atoi_clamped [] = pos 0
atoi_clamped (c ∷ s) =
    if eqb (code c) b'-'
    then lower_bound (digits_clamped s)
    else if eqb (code c) b'+'
    then upper_bound (digits_clamped s)
    else upper_bound (digits_clamped (c ∷ s))

module _ (o : Outside) where
  -- `strToInt`
  unfoldable pub str_to_int : Option Value → ℤ
  unfolding atoi_clamped
  str_to_int (some (int n)) = n
  str_to_int (some (float f)) = o.float_int f
  str_to_int (some (str s)) = atoi_clamped s
  str_to_int _ = pos 0
