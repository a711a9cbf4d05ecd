-- ===== src/Translator/Country.antt =====
-- translator/country.go: the country that the rules are for. The answers of the geolocation services
-- are a parameter, in the order in which they arrive.
pub mod Cached
use Prim.Native.Nat.{ℕ, ◌+◌}
use Prim.Native.Char.{Char, code}
use Prim.Native.String.{String, [], ◌∷◌}
use mathlib.Core.List
use mathlib.Core.List.{List}
use mathlib.Core.Bool.{Bool, true, false, ◌&&◌}
use mathlib.Core.Option.{Option, none, some}
use cff_core.Base.{ltb, leb, eqb, if◌then◌else◌}
use cff_core.Base.Text.{trim_space, to_upper}
use cff_core.Outside.{Outside}

-- The bytes of a character in UTF-8.
unfoldable pub rune_length : Char → ℕ
rune_length c =
    if ltb (code c) 0x80
    then 1
    else if ltb (code c) 0x800
    then 2
    else if ltb (code c) 0x10000
    then 3
    else 4

-- `len(s)`
unfoldable pub byte_length : String → ℕ
unfolding rune_length
byte_length [] = 0
byte_length (c ∷ s) = rune_length c + byte_length s

-- The loop over the characters: each is an ASCII capital.
unfoldable pub are_capitals : String → Bool
are_capitals [] = true
are_capitals (c ∷ s) = (leb b'A' (code c) && leb (code c) b'Z') && are_capitals s

-- `cachedCountry` and `cachedCountryFallback`, once `cachedCountryOnce` has run.
abbrev pub CountryCache : Type 0
CountryCache = Option (String × Bool)

-- The first answer of two bytes, in the order of arrival.
unfoldable pub first_answer : List (Option String) → Option String
unfolding byte_length
first_answer List.[] = none
first_answer (List.◌∷◌ none answers) = first_answer answers
first_answer (List.◌∷◌ (some cc) answers) =
    let rest = first_answer answers in if eqb (byte_length cc) 2 then some cc else rest

module _ (o : Outside) where
  -- `normalizeCountryCode`
  unfoldable pub normalize_country_code : String → Option String
  unfolding to_upper trim_space byte_length are_capitals
  normalize_country_code s =
      let cc = to_upper o.upper (trim_space s) in
      if eqb (byte_length cc) 2 && are_capitals cc then some cc else none

  -- What `cachedCountryOnce` runs.
  unfoldable pub detect : List (Option String) → String × Bool
  unfolding first_answer to_upper
  detect answers = elim (first_answer answers) [
    | none ↦ ("CN", true)
    | some cc ↦ (to_upper o.upper cc, false)
  ]

  unfoldable pub fill_cache : List (Option String) → CountryCache → String × Bool
  unfolding detect
  fill_cache answers (some cached) = cached
  fill_cache answers none = detect answers

  -- `DetectCountryWithFallback`, and the cache behind it.
  unfoldable pub detect_country_with_fallback :
      List (Option String) → String → CountryCache → (String × Bool) × CountryCache
  unfolding normalize_country_code fill_cache
  detect_country_with_fallback answers override cache =
      let cached = fill_cache answers cache in
      elim (normalize_country_code override) [
        | some cc ↦ ((cc, false), cache)
        | none ↦ (cached, some cached)
      ]

  -- `DetectCountry`
  unfoldable pub detect_country :
      List (Option String) → String → CountryCache → String × CountryCache
  unfolding normalize_country_code fill_cache
  detect_country answers override cache =
      let cached = fill_cache answers cache in
      elim (normalize_country_code override) [
        | some cc ↦ (cc, cache)
        | none ↦ (cached.0, some cached)
      ]
