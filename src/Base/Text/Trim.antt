-- ===== src/Base/Text/Trim.antt =====
-- `strings.TrimRight`: what is dropped, and what is left.
use Prim.Native.Nat.{ℕ}
use Prim.Native.Char.{Char, code}
use Prim.Native.String.{String, [], ◌∷◌}
use mathlib.Core.Path.{◌≡◌, refl, sym, ap, ◌∙◌}
use mathlib.Core.Bool.{Bool, true, false, ◌&&◌}
use text.Mathlib.TextLemmas.{nil-append, cons-append}
use cff_core.Base.Text.{◌+++◌, trim_step, trim_right}

module _ (p : ℕ → Bool) where
  unfoldable pub are_all : String → Bool
  are_all [] = true
  are_all (c ∷ s) = p (code c) && are_all s

  -- Of the last character, where there is one.
  unfoldable pub ends_in : Bool → String → Bool
  ends_in last [] = last
  ends_in last (c ∷ s) = ends_in (p (code c)) s

  -- The text is the trimmed one and dropped characters behind it, and the trimmed one ends in none of these.
  pub record IsTrimmed (s t : String) : Type 0 where
    pub rest : String
    pub split : s ≡ t +++ rest
    pub dropped : are_all rest ≡ true
    pub ends : ends_in false t ≡ false

  step-IsTrimmed :
      (c : Char) (s t : String) (drop : Bool)
      → p (code c) ≡ drop
      → IsTrimmed s t
      → IsTrimmed (c ∷ s) (trim_step drop c t)
  unfolding trim_step are_all ends_in
  step-IsTrimmed c s (d ∷ t) drop e h = record {
    rest = h.rest;
    split = ap (λ r. c ∷ r) h.split ∙ sym (cons-append c (d ∷ t) h.rest);
    dropped = h.dropped;
    ends = h.ends;
  }
  step-IsTrimmed c s [] true e h = record {
    rest = c ∷ h.rest;
    split = ap (λ r. c ∷ r) (h.split ∙ nil-append h.rest) ∙ sym (nil-append (c ∷ h.rest));
    dropped = rw (e, h.dropped) refl;
    ends = refl;
  }
  step-IsTrimmed c s [] false e h = record {
    rest = h.rest;
    split = ap (λ r. c ∷ r) h.split ∙ sym (cons-append c [] h.rest);
    dropped = h.dropped;
    ends = e;
  }

  pub trim_right-IsTrimmed : (s : String) → IsTrimmed s (trim_right p s)
  unfolding trim_right are_all ends_in
  trim_right-IsTrimmed [] = record {
    rest = [];
    split = sym (nil-append []);
    dropped = refl;
    ends = refl;
  }
  trim_right-IsTrimmed (c ∷ s) =
      step-IsTrimmed c s (trim_right p s) (p (code c)) refl (trim_right-IsTrimmed s)
