-- ===== src/Proxy/Duration/ReadBack.antt =====
-- The text of `SecondsToDuration`, read as a duration: each number counts in the unit behind it.
use Prim.Native.String.{[], ◌∷◌, ◌++◌}
use cff_core.Base.{
  ℕ, ℤ, pos, negsuc, zero, suc, ◌+◌, ◌-◌, ◌*◌, ◌/◌, ◌%◌, ◌<◌, String, Char, code, Bool, true, false,
  Option, none, some, eqb, if◌then◌else◌, ◌≡◌, refl, ◌∙◌, ap, sym, arith, nat_part,
}
use text.Mathlib.TextLemmas.{append-nil, nil-append, cons-append, append_assoc}
use cff_core.Base.Text.Decimal.{
  itoa_ℕ, is_digit, digit_char, digits_onto, itoa_ℕ-append, code-digit_char,
}
use cff_core.Proxy.Duration.{part, seconds_to_duration}

-- The seconds of a unit; `none` at a character that is no unit.
abbrev pub unit_seconds : ℕ → Option ℕ
unit_seconds c =
    if eqb c b'h'
    then some 3600
    else if eqb c b'm'
    then some 60
    else if eqb c b's'
    then some 1
    else none

-- `pending` says that digits stand in `n` which have no unit yet.
pub read_from : String → Bool → ℕ → ℕ → Option ℕ
unfolding is_digit
read_from [] true n total = none
read_from [] false n total = some total
read_from (c ∷ s) pending n total =
    if is_digit (code c)
    then read_from s true (n * 10 + (code c - b'0')) total
    else elim (unit_seconds (code c)) [
      | none ↦ none
      | some unit ↦ if pending then read_from s false 0 (total + n * unit) else none
    ]

pub read_duration : String → Option ℕ
read_duration s = read_from s false 0 0

read_from-digit :
    (d : ℕ) (s : String) (pending : Bool) (n total : ℕ)
    → d < 10
    → read_from (digit_char d ∷ s) pending n total ≡ read_from s true (n * 10 + d) total
unfolding read_from
read_from-digit d s pending n total h = ground (arith, code-digit_char d h)

read_from-digits_onto :
    (fuel n : ℕ) (out : String) (total : ℕ)
    → n < fuel
    → read_from (digits_onto fuel n out) false 0 total ≡ read_from out true n total
unfolding digits_onto
read_from-digits_onto zero n out total h = elim h [ ]
read_from-digits_onto (suc fuel) n out total h = ground (
  arith,
  read_from-digits_onto fuel (n / 10) (digit_char (n % 10) ∷ out) total,
  read_from-digit n out false 0 total,
  read_from-digit (n % 10) out true (n / 10) total,
)

part_pos : (n : ℕ) (unit : String) → part (suc n) unit ≡ itoa_ℕ (suc n) ++ unit
unfolding part
part_pos n unit = ground arith

-- One unit's part is read as that many of its seconds, whatever stands behind it.
read_from-part :
    (n : ℕ) (c : Char) (k : ℕ) (rest : String) (total : ℕ)
    → is_digit (code c) ≡ false
    → unit_seconds (code c) ≡ some k
    → read_from (part n (c ∷ []) ++ rest) false 0 total ≡ read_from rest false 0 (total + n * k)
read_from-part zero c k rest total d u =
    unfold part in rw nil-append (ap (read_from rest false 0) (omega arith))
read_from-part (suc n) c k rest total d u =
    rw (part_pos, append_assoc, cons-append, nil-append, itoa_ℕ-append)
      (read_from-digits_onto (suc (suc n)) (suc n) (c ∷ rest) total (omega arith) ∙ step)
  where
    step : read_from (c ∷ rest) true (suc n) total ≡ read_from rest false 0 (total + suc n * k)
    step = unfold read_from in ground arith

read_duration-parts :
    (n : ℕ)
    → read_duration (part (n / 3600) "h" ++ (part (n % 3600 / 60) "m" ++ part (n % 60) "s"))
      ≡ some n
unfolding read_duration read_from is_digit
read_duration-parts n =
    let h : ℕ = n / 3600 in
    let m : ℕ = n % 3600 / 60 in
    let seconds : ℕ = n % 60 in
    read_from-part h "h" 3600 (part m "m" ++ part seconds "s") 0 refl refl
    ∙ read_from-part m "m" 60 (part seconds "s") (0 + h * 3600) refl refl
    ∙ ap (λ s. read_from s false 0 (0 + h * 3600 + m * 60)) (sym (append-nil (part seconds "s")))
    ∙ read_from-part seconds "s" 1 "" (0 + h * 3600 + m * 60) refl refl
    ∙ ap some (omega arith)

-- The text of a number of seconds is read back as that number: no unit is lost or counted twice, and
-- every number that is not positive is read as 0.
pub read_duration-seconds_to_duration :
    (n : ℤ) → read_duration (seconds_to_duration n) ≡ some (nat_part n)
unfolding seconds_to_duration
read_duration-seconds_to_duration (negsuc n) = unfold read_duration read_from in refl
read_duration-seconds_to_duration (pos zero) = unfold read_duration read_from in refl
read_duration-seconds_to_duration (pos (suc n)) = read_duration-parts (suc n)
