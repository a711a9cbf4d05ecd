-- ===== src/Translator/Rule/Mirror.antt =====
-- `ApplyRuleSetProxy` of translator/rule.go: the rule sets of a finished configuration, fetched through a mirror.
-- The configuration is text; reading and writing JSON are parameters.
pub mod Url
pub mod Laws
use cff_core.Base.{String, Option, none, some, ◌==◌, if◌then◌else◌}
use cff_core.Value.{Value, Items, Object, null, obj, list, str, nil, cons, get, get_text, put}
use cff_core.Translator.Rule.{proxy_url}

-- `json.Unmarshal` into `any` and `json.Marshal`
pub record Json : Type 0 where
  pub unmarshal : String → Option Value
  pub marshal : Object → Option String

-- The results: a text, or one of the two errors.
pub data Mirrored : Type 0 where
  mirrored : String → Mirrored
  parse_failed : Mirrored
  marshal_failed : Mirrored

-- `if u, _ := def["url"].(string); u != ""`
unfoldable pub mirror_def : String → Object → Object
unfolding get_text put
mirror_def proxy def =
    if get_text "url" def == ""
    then def
    else put "url" (str (proxy_url (get_text "url" def) proxy)) def

abbrev pub mirror_item : String → Value → Value
mirror_item proxy (obj def) = obj (mirror_def proxy def)
mirror_item proxy v = v

unfoldable pub mirror_items : String → Items → Items
unfolding mirror_def
mirror_items proxy nil = nil
mirror_items proxy (cons v items) = cons (mirror_item proxy v) (mirror_items proxy items)

-- `json.Marshal(root)`
abbrev pub marshalled : Option String → Mirrored
marshalled (some text) = mirrored text
marshalled none = marshal_failed

module _ (j : Json) (text proxy : String) where
  -- `root["route"].(map[string]any)["rule_set"].([]any)`
  unfoldable pub mirror_rule_sets : Object → Object → Option Value → Mirrored
  unfolding mirror_items put
  mirror_rule_sets root route (some (list items)) =
      marshalled (
        j.marshal (put "route" (obj (put "rule_set" (list (mirror_items proxy items)) route)) root))
  mirror_rule_sets root route v = mirrored text

  unfoldable pub mirror_route : Object → Option Value → Mirrored
  unfolding mirror_rule_sets get
  mirror_route root (some (obj route)) = mirror_rule_sets root route (get "rule_set" route)
  mirror_route root v = mirrored text

  -- A text `null` gives a nil map, in which no key is found.
  unfoldable pub mirror_root : Option Value → Mirrored
  unfolding mirror_route get
  mirror_root (some (obj root)) = mirror_route root (get "route" root)
  mirror_root (some null) = mirrored text
  mirror_root v = parse_failed

-- `ApplyRuleSetProxy`
unfoldable pub apply_rule_set_proxy : Json → String → String → Mirrored
unfolding mirror_root
apply_rule_set_proxy j text proxy =
    if proxy == "" then mirrored text else mirror_root j text proxy (j.unmarshal text)
