-- ===== src/Base/StringSet.antt =====
-- A Go `map[string]bool` whose values are all true: a set of texts.
use mathlib.Core.Path.{◌≡◌, refl}
use mathlib.Core.Bool.{Bool, true, false, not, ◌&&◌, ◌||◌}
use mathlib.Core.List.{List, [], ◌∷◌, ◌++◌}
use Prim.Native.String.{String}
use native.Mathlib.Omega.{arith}
use text.Mathlib.Text.{◌==◌}
use text.Mathlib.TextEquality.{eq_iff}
use text.Mathlib.TextPositions.{eq_refl}
use cff_core.Base.Tests.{if◌then◌else◌}
use cff_core.Base.Lists.{All}

abbrev pub StringSet : Type 0
StringSet = List String

unfoldable pub has : String → StringSet → Bool
has k [] = false
has k (x ∷ xs) = x == k || has k xs

unfoldable pub insert : String → StringSet → StringSet
unfolding has
insert k xs = if has k xs then xs else k ∷ xs

unfoldable pub remove : String → StringSet → StringSet
remove k [] = []
remove k (x ∷ xs) = let rest = remove k xs in if x == k then rest else x ∷ rest

-- `for k := range xs { ys[k] = true }`
unfoldable pub union : StringSet → StringSet → StringSet
unfolding insert
union [] ys = ys
union (x ∷ xs) ys = union xs (insert x ys)

pub has-insert : (j k : String) (xs : StringSet) → has j (insert k xs) ≡ (k == j || has j xs)
unfolding has insert
has-insert j k [] = refl
has-insert j k (x ∷ xs) = ground (arith, eq_iff x k, eq_iff x j, eq_iff k j, has-insert j k xs)

pub has-remove : (j k : String) (xs : StringSet) → has j (remove k xs) ≡ (not (k == j) && has j xs)
unfolding has remove
has-remove j k [] = ground arith
has-remove j k (x ∷ xs) = ground (arith, eq_iff x k, eq_iff x j, eq_iff k j, has-remove j k xs)

pub has-union : (j : String) (xs ys : StringSet) → has j (union xs ys) ≡ (has j xs || has j ys)
unfolding union has
has-union j [] ys = refl
has-union j (x ∷ xs) ys = ground (arith, has-union j xs (insert x ys), has-insert j x ys)

pub has-append : (j : String) (xs ys : StringSet) → has j (xs ++ ys) ≡ (has j xs || has j ys)
unfolding has
has-append j [] ys = refl
has-append j (x ∷ xs) ys = ground (arith, has-append j xs ys)

pub All-has_self :
    (xs ys : StringSet)
    → ((j : String) → has j xs ≡ true → has j ys ≡ true)
    → All (λ j. has j ys ≡ true) xs
unfolding has
All-has_self [] ys h = tt
All-has_self (x ∷ xs) ys h =
    (h x (ground (arith, eq_refl x)), All-has_self xs ys (λ j k. h j (ground arith)))
