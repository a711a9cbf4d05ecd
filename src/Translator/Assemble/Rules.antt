-- ===== src/Translator/Assemble/Rules.antt =====
-- The route rules that `assemble` of translator/assemble.go leaves.
use cff_core.Base.{true, false, Option, none, some, is_some, ◌==◌, ◌≡◌, All}
use cff_core.Base.StringSet.{StringSet, has}
use cff_core.Value.{Value, Object, get, get_texts, as_str}

-- A rule with an outbound has an action, and its outbound is not REJECT, which is none.
pub record IsAction (rule : Object) : Type 0 where
  pub action : is_some (get "outbound" rule) ≡ true → is_some (get "action" rule) ≡ true
  pub no_reject : (as_str (get "outbound" rule) == "REJECT") ≡ false

-- A rule that names defined rule sets only.
abbrev pub IsDefined : StringSet → Object → Type 0
IsDefined defined rule = All (λ tag. has tag defined ≡ true) (get_texts "rule_set" rule)

module _ (defined : StringSet) where
  abbrev IsKept : Option Object → Type 0
  IsKept none = Unit
  IsKept (some rule) = IsAction rule × IsDefined defined rule
