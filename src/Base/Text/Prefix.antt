-- ===== src/Base/Text/Prefix.antt =====
-- `strings.CutPrefix` and `strings.HasPrefix` against the concatenation of texts.
use Prim.Native.Char.{code}
use Prim.Native.String.{String, [], ◌∷◌}
use mathlib.Core.Path.{◌≡◌, refl, sym, ap, ap₂, subst, ◌∙◌}
use mathlib.Core.Logic.{◌≢◌, inl, inr}
use mathlib.Core.Bool.{true, false}
use mathlib.Core.Option.{some}
use native.Mathlib.Omega.{arith}
use text.Mathlib.TextLemmas.{nil-append, cons-append}
use text.Mathlib.TextEquality.{Char-path}
use cff_core.Base.Tests.{eqb, is_some, Bool-cases, Option-cases, some-eq-some}
use cff_core.Base.Text.{◌+++◌, cut_prefix, has_prefix}

pub cut_prefix-append : (p r : String) → cut_prefix (p +++ r) p ≡ some r
unfolding cut_prefix
cut_prefix-append [] r = ap some (nil-append r)
cut_prefix-append (c ∷ p) r =
    let same : eqb (code c) (code c) ≡ true = ground arith in
    rw (cons-append c p r, cut_prefix, same) (cut_prefix-append p r)

pub cut_prefix-some : (s p r : String) → cut_prefix s p ≡ some r → s ≡ p +++ r
unfolding cut_prefix
cut_prefix-some s [] r h = some-eq-some h ∙ sym (nil-append r)
cut_prefix-some [] (d ∷ p) r h = cc
cut_prefix-some (c ∷ s) (d ∷ p) r h = elim (Bool-cases (eqb (code c) (code d))) [
  | inl e ↦
      let same : c ≡ d = Char-path c d (ground (arith, e)) in
      let tail = cut_prefix-some s p r (rw e at h) in
      ap₂ (λ x y. x ∷ y) same tail ∙ sym (cons-append d p r)
  | inr e ↦ absurd (cc (rw e at h))
]

-- A text has a prefix exactly when it is that prefix with a rest behind it.
pub has_prefix-split : (s p : String) → has_prefix s p ≡ true → (r : String) × (s ≡ p +++ r)
unfolding has_prefix
has_prefix-split s p h = elim (Option-cases (cut_prefix s p)) [
  | inl e ↦ absurd (cc (rw e at h))
  | inr (r, e) ↦ (r, cut_prefix-some s p r e)
]

pub has_prefix-other : (s p r : String) → has_prefix s p ≡ false → s ≢ p +++ r
unfolding has_prefix
has_prefix-other s p r h e =
    let whole : is_some (cut_prefix s p) ≡ true =
      subst (λ t. is_some (cut_prefix t p) ≡ true) (sym e) (rw (cut_prefix-append p r) refl) in
    cc (whole, h)
