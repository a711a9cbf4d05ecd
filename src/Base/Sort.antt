-- ===== src/Base/Sort.antt =====
-- `slices.Sort` of texts, in the order of their code points, which is that of their UTF-8 bytes.
use Prim.Native.Nat.{Ordering}
use Prim.Native.String.{String, compare}
use mathlib.Core.Path.{◌≡◌, refl}
use mathlib.Core.Bool.{◌||◌}
use mathlib.Core.List.{List, [], ◌∷◌}
use native.Mathlib.Omega.{arith}
use text.Mathlib.Text.{◌==◌}
use cff_core.Base.StringSet.{has}

unfoldable pub insert_text : String → List String → List String
insert_text s [] = s ∷ []
insert_text s (t ∷ ts) =
    let rest = insert_text s ts in elim (compare s t) [ Ordering.gt ↦ t ∷ rest | _ ↦ s ∷ t ∷ ts ]

-- `slices.Sort`
unfoldable pub sort_texts : List String → List String
unfolding insert_text
sort_texts [] = []
sort_texts (s ∷ ss) = insert_text s (sort_texts ss)

has-insert_text :
    (j s : String) (ts : List String) → has j (insert_text s ts) ≡ (s == j || has j ts)
unfolding has insert_text
has-insert_text j s [] = refl
has-insert_text j s (t ∷ ts) = ground (arith, has-insert_text j s ts)

pub has-sort_texts : (j : String) (ss : List String) → has j (sort_texts ss) ≡ has j ss
unfolding has sort_texts
has-sort_texts j [] = refl
has-sort_texts j (s ∷ ss) = ground (arith, has-insert_text j s (sort_texts ss), has-sort_texts j ss)
