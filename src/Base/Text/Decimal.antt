-- ===== src/Base/Text/Decimal.antt =====
-- Decimal numbers: `strconv.Itoa`, `strconv.Atoi` and `strconv.ParseUint`.
use Prim.Native.Nat.{ℕ, zero, suc, ◌+◌, ◌-◌, ◌*◌, ◌/◌, ◌%◌, ◌^◌, ◌<◌}
use Prim.Native.Char.{Char, code}
use Prim.Native.String.{String, [], ◌∷◌, ◌++◌}
use mathlib.Core.Path.{◌≡◌, refl}
use mathlib.Core.Bool.{Bool, ◌&&◌}
use mathlib.Core.Option.{Option, none, some}
use native.Mathlib.Omega.{arith}
use text.Mathlib.TextLemmas.{nil-append, cons-append}
use cff_core.Base.Tests.{ltb, leb, eqb, if◌then◌else◌}
use cff_core.Base.Int.{ℤ, pos, negsuc}
use cff_core.Base.Text.{pick}

unfoldable pub digit_char : ℕ → Char
unfolding pick
digit_char d = pick "0123456789" d

-- The digits of `n` in front of `out`, on fuel: `suc n` rounds are enough.
unfoldable pub digits_onto : ℕ → ℕ → String → String
unfolding digit_char
digits_onto zero n out = out
digits_onto (suc fuel) n out =
    let rest = digits_onto fuel (n / 10) (digit_char (n % 10) ∷ out) in
    if ltb n 10 then digit_char n ∷ out else rest

-- `strconv.Itoa` of a number that is not negative.
unfoldable pub itoa_ℕ : ℕ → String
unfolding digits_onto
itoa_ℕ n = digits_onto (suc n) n []

unfoldable pub itoa : ℤ → String
unfolding itoa_ℕ
itoa (pos n) = itoa_ℕ n
itoa (negsuc n) = "-" ++ itoa_ℕ (suc n)

unfoldable pub is_digit : ℕ → Bool
is_digit c = leb b'0' c && leb c b'9'

-- The number that digits spell behind `n`; `none` at any other character.
unfoldable pub scan : String → ℕ → Option ℕ
unfolding is_digit
scan [] n = some n
scan (c ∷ s) n = if is_digit (code c) then scan s (n * 10 + (code c - b'0')) else none

abbrev pub at_most : ℕ → Option ℕ → Option ℕ
at_most bound none = none
at_most bound (some n) = if leb n bound then some n else none

-- `strconv.ParseUint(s, 10, 64)`
unfoldable pub parse_uint : String → Option ℕ
unfolding scan
parse_uint [] = none
parse_uint (c ∷ s) = at_most (2 ^ 64 - 1) (scan (c ∷ s) 0)

abbrev pub positive : Option ℕ → Option ℤ
positive none = none
positive (some n) = some (pos n)

abbrev pub negative : Option ℕ → Option ℤ
negative none = none
negative (some zero) = some (pos zero)
negative (some (suc n)) = some (negsuc n)

-- The digits behind a sign: at least one.
unfoldable pub unsigned : ℕ → String → Option ℕ
unfolding scan
unsigned bound [] = none
unsigned bound (c ∷ s) = at_most bound (scan (c ∷ s) 0)

-- `strconv.Atoi`: an optional sign, then digits, in the range of a 64-bit `int`.
unfoldable pub atoi : String → Option ℤ
unfolding unsigned
atoi [] = none
atoi (c ∷ s) =
    if eqb (code c) b'-'
    then negative (unsigned (2 ^ 63) s)
    else if eqb (code c) b'+'
    then positive (unsigned (2 ^ 63 - 1) s)
    else positive (unsigned (2 ^ 63 - 1) (c ∷ s))

-- The characters of the digits 0 to 9.
pub code-digit_char : (d : ℕ) → d < 10 → code (digit_char d) ≡ b'0' + d
unfolding digit_char
code-digit_char zero h = refl
code-digit_char (suc zero) h = refl
code-digit_char (suc (suc zero)) h = refl
code-digit_char (suc (suc (suc zero))) h = refl
code-digit_char (suc (suc (suc (suc zero)))) h = refl
code-digit_char (suc (suc (suc (suc (suc zero))))) h = refl
code-digit_char (suc (suc (suc (suc (suc (suc zero)))))) h = refl
code-digit_char (suc (suc (suc (suc (suc (suc (suc zero))))))) h = refl
code-digit_char (suc (suc (suc (suc (suc (suc (suc (suc zero)))))))) h = refl
code-digit_char (suc (suc (suc (suc (suc (suc (suc (suc (suc zero))))))))) h = refl
code-digit_char (suc (suc (suc (suc (suc (suc (suc (suc (suc (suc d)))))))))) h =
    absurd (omega arith)

pub scan-digit :
    (d : ℕ) (s : String) (n : ℕ) → d < 10 → scan (digit_char d ∷ s) n ≡ scan s (n * 10 + d)
unfolding scan
scan-digit d s n h = ground (arith, code-digit_char d h)

-- The fuel of `itoa_ℕ` is enough, and reading the digits back gives the number: with a text behind
-- them, the scan arrives at that text having read `n`.
pub scan-digits_onto :
    (fuel n : ℕ) (out : String) → n < fuel → scan (digits_onto fuel n out) 0 ≡ scan out n
unfolding digits_onto
scan-digits_onto zero n out h = elim h [ ]
scan-digits_onto (suc fuel) n out h = ground (
  arith,
  scan-digits_onto fuel (n / 10) (digit_char (n % 10) ∷ out),
  scan-digit n out 0,
  scan-digit (n % 10) out (n / 10),
)

-- What stands behind the digits stays there.
digits_onto-append :
    (fuel n : ℕ) (out rest : String)
    → digits_onto fuel n out ++ rest ≡ digits_onto fuel n (out ++ rest)
unfolding digits_onto
digits_onto-append zero n out rest = refl
digits_onto-append (suc fuel) n out rest = ground (
  arith,
  digits_onto-append fuel (n / 10) (digit_char (n % 10) ∷ out) rest,
  cons-append (digit_char (n % 10)) out rest,
  cons-append (digit_char n) out rest,
)

pub itoa_ℕ-append : (n : ℕ) (rest : String) → itoa_ℕ n ++ rest ≡ digits_onto (suc n) n rest
unfolding itoa_ℕ
itoa_ℕ-append n rest = rw (digits_onto-append (suc n) n [] rest, nil-append)
