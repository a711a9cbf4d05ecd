-- ===== src/Translator/Rule/Mirror/Laws.antt =====
-- What `ApplyRuleSetProxy` changes in a configuration, and what it leaves as it is.
use cff_core.Base.{String, false, some, ◌==◌, ◌≡◌}
use cff_core.Value.{Value, Items, Object, list, obj, nil, cons, get, get_text}
use cff_core.Translator.Rule.Mirror.Url.{IsMirroredUrl}
use cff_core.Translator.Rule.Mirror.{Json, Mirrored, marshalled}

-- The second map has the link through the mirror, and otherwise the same fields.
pub record IsMirrored (proxy : String) (def def' : Object) : Type 0 where
  pub url : IsMirroredUrl proxy (get_text "url" def) (get_text "url" def')
  pub others : (k : String) → ("url" == k) ≡ false → get k def' ≡ get k def

abbrev pub IsMirroredItem : String → Value → Value → Type 0
IsMirroredItem proxy (obj def) (obj def') = IsMirrored proxy def def'
IsMirroredItem proxy v v' = v' ≡ v

abbrev pub AreMirrored : String → Items → Items → Type 0
AreMirrored proxy nil nil = Unit
AreMirrored proxy (cons v items) (cons v' items') =
    IsMirroredItem proxy v v' × AreMirrored proxy items items'
AreMirrored proxy items items' = items' ≡ items

-- The result is the text of a configuration whose rule sets alone differ, each by its `url`.
pub record MirrorLaws (j : Json) (proxy : String) (root route : Object) (items : Items)
    (r : Mirrored) : Type 0 where
  pub root' : Object
  pub route' : Object
  pub items' : Items
  pub result : r ≡ marshalled (j.marshal root')
  pub has_route : get "route" root' ≡ some (obj route')
  pub has_items : get "rule_set" route' ≡ some (list items')
  pub other_parts : (k : String) → ("route" == k) ≡ false → get k root' ≡ get k root
  pub other_routes : (k : String) → ("rule_set" == k) ≡ false → get k route' ≡ get k route
  pub mirrored_items : AreMirrored proxy items items'
