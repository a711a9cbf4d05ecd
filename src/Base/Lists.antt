-- ===== src/Base/Lists.antt =====
-- Lists measured by native numbers, selection by a Boolean test, and a predicate on every element.
use Prim.Native.Nat.{ℕ, suc, ◌+◌}
use mathlib.Core.Path.{◌≡◌}
use mathlib.Core.Bool.{Bool, true, false}
use mathlib.Core.List.{List, [], ◌∷◌, ◌++◌}
use native.Mathlib.Omega.{arith}
use cff_core.Base.Tests.{if◌then◌else◌}

module _ {ℓ} {A : Type ℓ} where
  abbrev pub length : List A → ℕ
  length [] = 0
  length (x ∷ xs) = suc (length xs)

  abbrev pub is_empty : List A → Bool
  is_empty [] = true
  is_empty (x ∷ xs) = false

  abbrev pub filter : (A → Bool) → List A → List A
  filter p [] = []
  filter p (x ∷ xs) = let rest = filter p xs in if p x then x ∷ rest else rest

  pub length-append : (xs ys : List A) → length (xs ++ ys) ≡ length xs + length ys
  length-append [] ys = omega arith
  length-append (x ∷ xs) ys = omega (arith, length-append xs ys)

module _ {ℓ κ} {A : Type ℓ} (P : A → Type κ) where
  abbrev pub All : List A → Type κ
  All [] = Unit
  All (x ∷ xs) = P x × All xs

  pub All-append : (xs ys : List A) → All xs → All ys → All (xs ++ ys)
  All-append [] ys h k = k
  All-append (x ∷ xs) ys (p, h) k = (p, All-append xs ys h k)

module _ {ℓ κ μ} {A : Type ℓ} (P : A → Type κ) (Q : A → Type μ) where
  pub All-mono : ((x : A) → P x → Q x) → (xs : List A) → All P xs → All Q xs
  All-mono f [] h = tt
  All-mono f (x ∷ xs) (p, h) = (f x p, All-mono f xs h)

module _ {ℓ} {A : Type ℓ} (p : A → Bool) where
  -- What `filter` keeps passes the test.
  pub filter-All : (xs : List A) → All (λ x. p x ≡ true) (filter p xs)
  filter-All [] = tt
  filter-All (x ∷ xs) = ground (arith, filter-All xs)

  pub filter-All_of_All {κ} : (Q : A → Type κ) (xs : List A) → All Q xs → All Q (filter p xs)
  filter-All_of_All Q [] h = tt
  filter-All_of_All Q (x ∷ xs) (q, h) = ground (arith, filter-All_of_All Q xs h)
