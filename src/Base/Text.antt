-- ===== src/Base/Text.antt =====
-- The functions of `strings` and `strconv` that the program calls, on the code points of a text.
-- The tables of Unicode letter case beyond ASCII are the parameters `upper` and `lower`.
pub mod Decimal
pub mod Head
pub mod Trim
pub mod Prefix
use Prim.Native.Nat.{ℕ, zero, suc, ◌+◌, ◌-◌}
use Prim.Native.Char.{Char, code, nul}
use Prim.Native.String.{String, [], ◌∷◌, ◌++◌}
use mathlib.Core.Bool.{Bool, true, false, ◌&&◌, ◌||◌}
use mathlib.Core.Option.{Option, none, some}
use mathlib.Core.List
use mathlib.Core.List.{List}
use cff_core.Base.Tests.{ltb, leb, eqb, if◌then◌else◌, is_some}

-- `s + t` on Go strings.
infixr 65 ◌+++◌
abbrev pub ◌+++◌ : String → String → String
s +++ t = s ++ t

-- The character at an index of a table.
unfoldable pub pick : String → ℕ → Char
pick [] n = nul
pick (c ∷ s) zero = c
pick (c ∷ s) (suc n) = pick s n

unfoldable pub map_chars : (Char → Char) → String → String
map_chars f [] = []
map_chars f (c ∷ s) = f c ∷ map_chars f s

unfoldable pub upper_char : (Char → Char) → Char → Char
unfolding pick
upper_char upper c =
    if ltb (code c) 128
    then (if leb b'a' (code c) && leb (code c) b'z'
        then pick "ABCDEFGHIJKLMNOPQRSTUVWXYZ" (code c - b'a')
        else c)
    else upper c

unfoldable pub lower_char : (Char → Char) → Char → Char
unfolding pick
lower_char lower c =
    if ltb (code c) 128
    then (if leb b'A' (code c) && leb (code c) b'Z'
        then pick "abcdefghijklmnopqrstuvwxyz" (code c - b'A')
        else c)
    else lower c

-- `strings.ToUpper` and `strings.ToLower`
unfoldable pub to_upper : (Char → Char) → String → String
unfolding map_chars upper_char
to_upper upper s = map_chars (upper_char upper) s

unfoldable pub to_lower : (Char → Char) → String → String
unfolding map_chars lower_char
to_lower lower s = map_chars (lower_char lower) s

-- `unicode.IsSpace`
unfoldable pub is_space : ℕ → Bool
is_space c =
    (leb 9 c && leb c 13)
    || eqb c 32
    || eqb c 0x85
    || eqb c 0xA0
    || eqb c 0x1680
    || (leb 0x2000 c && leb c 0x200A)
    || eqb c 0x2028
    || eqb c 0x2029
    || eqb c 0x202F
    || eqb c 0x205F
    || eqb c 0x3000

unfoldable pub trim_left : (ℕ → Bool) → String → String
trim_left p [] = []
trim_left p (c ∷ s) = let rest = trim_left p s in if p (code c) then rest else c ∷ s

-- A character in front of a trimmed rest: dropped with it when the rest is empty.
unfoldable pub trim_step : Bool → Char → String → String
trim_step drop c (d ∷ s) = c ∷ d ∷ s
trim_step true c [] = []
trim_step false c [] = c ∷ []

unfoldable pub trim_right : (ℕ → Bool) → String → String
unfolding trim_step
trim_right p [] = []
trim_right p (c ∷ s) = trim_step (p (code c)) c (trim_right p s)

-- `strings.TrimSpace`
unfoldable pub trim_space : String → String
unfolding trim_left trim_right is_space
trim_space s = trim_right is_space (trim_left is_space s)

-- `strings.CutPrefix`
unfoldable pub cut_prefix : String → String → Option String
cut_prefix s [] = some s
cut_prefix [] (d ∷ p) = none
cut_prefix (c ∷ s) (d ∷ p) = if eqb (code c) (code d) then cut_prefix s p else none

-- `strings.HasPrefix`
unfoldable pub has_prefix : String → String → Bool
unfolding cut_prefix
has_prefix s p = is_some (cut_prefix s p)

-- `strings.TrimPrefix`
unfoldable pub trim_prefix : String → String → String
unfolding cut_prefix
trim_prefix s p = elim (cut_prefix s p) [ none ↦ s | some rest ↦ rest ]

-- `strings.Cut` at a one-character separator.
unfoldable pub cut : String → ℕ → Option (String × String)
cut [] sep = none
cut (c ∷ s) sep =
    let rest = cut s sep in
    if eqb (code c) sep
    then some ([], s)
    else elim rest [ none ↦ none | some (before, after) ↦ some (c ∷ before, after) ]

-- `strings.Index` and the texts on both sides of the separator.
unfoldable pub cut_text : String → String → Option (String × String)
unfolding cut_prefix
cut_text [] sep = elim (cut_prefix [] sep) [ none ↦ none | some rest ↦ some ([], rest) ]
cut_text (c ∷ s) sep =
    let later = cut_text s sep in
    elim (cut_prefix (c ∷ s) sep) [
      | some rest ↦ some ([], rest)
      | none ↦ elim later [ none ↦ none | some (before, after) ↦ some (c ∷ before, after) ]
    ]

-- `strings.Contains`
unfoldable pub contains : String → String → Bool
unfolding cut_text
contains s t = is_some (cut_text s t)

-- `strings.LastIndex` of one character, and the texts on both sides of it.
unfoldable pub cut_last : String → ℕ → Option (String × String)
cut_last [] sep = none
cut_last (c ∷ s) sep = elim (cut_last s sep) [
  | some (before, after) ↦ some (c ∷ before, after)
  | none ↦ if eqb (code c) sep then some ([], s) else none
]

-- A character in front of the first part.
unfoldable pub extend : Char → List String → List String
extend c List.[] = List.◌∷◌ (c ∷ []) List.[]
extend c (List.◌∷◌ p ps) = List.◌∷◌ (c ∷ p) ps

-- `strings.Split` at a one-character separator.
unfoldable pub split : String → ℕ → List String
unfolding extend
split [] sep = List.◌∷◌ [] List.[]
split (c ∷ s) sep =
    let rest = split s sep in if eqb (code c) sep then List.◌∷◌ [] rest else extend c rest

-- `strings.Join`
unfoldable pub join : List String → String → String
join List.[] sep = []
join (List.◌∷◌ s List.[]) sep = s
join (List.◌∷◌ s (List.◌∷◌ t rest)) sep = s ++ (sep ++ join (List.◌∷◌ t rest) sep)

-- The code of the first character.
unfoldable pub head : String → ℕ
head [] = 0
head (c ∷ s) = code c

-- `strings.HasSuffix` and `strings.TrimSuffix` at one character.
unfoldable pub ends_with : String → ℕ → Bool
ends_with [] k = false
ends_with (c ∷ []) k = eqb (code c) k
ends_with (c ∷ d ∷ s) k = ends_with (d ∷ s) k

unfoldable pub drop_last : String → String
drop_last [] = []
drop_last (c ∷ []) = []
drop_last (c ∷ d ∷ s) = c ∷ drop_last (d ∷ s)
