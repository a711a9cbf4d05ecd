-- ===== src/Base/Text/Head.antt =====
-- The first character of a text, which tells texts apart.
use Prim.Native.String.{String}
use mathlib.Core.Path.{◌≡◌, ap}
use mathlib.Core.Logic.{◌≢◌, inl, inr}
use mathlib.Core.Bool.{false}
use native.Mathlib.Omega.{arith}
use text.Mathlib.Text.{◌==◌}
use text.Mathlib.TextEquality.{eq_iff}
use cff_core.Base.Tests.{Bool-cases}
use cff_core.Base.Text.{head}

pub eq-head : (s t : String) → head s ≢ head t → (s == t) ≡ false
eq-head s t h = elim (Bool-cases (s == t)) [
  | inl e ↦ absurd (h (ap head (ground (arith, eq_iff s t))))
  | inr e ↦ e
]
