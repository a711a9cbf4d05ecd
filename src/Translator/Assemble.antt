-- ===== src/Translator/Assemble.antt =====
-- translator/assemble.go: the built-in outbound and rules, the actions of the rules, and the rule sets.
pub mod Rules
use cff_core.Base.{
  String, Bool, true, false, not, ◌&&◌, List, [], ◌∷◌, ◌++◌, map, Option, none, some, is_some, ◌==◌,
  if◌then◌else◌, is_empty, filter,
}
use Prim.Native.String.{compare}
use Prim.Native.Nat.{Ordering}
use cff_core.Base.StringSet.{StringSet, has}
use cff_core.Base.Text.{◌+++◌, join}
use cff_core.Value.{
  Value, Object, Objects, none_left, object, str, strs, objs, empty, get, put, delete, has_key,
  get_text, get_texts, object_of,
}
use cff_core.Translator.State.{Translation, SingboxConfig, Route, Dns, warn, first_group_tag}

-- The body of the loop of `convertRejectActions`.
unfoldable pub convert_reject : Object → Object
unfolding get_text put delete
convert_reject rule =
    if get_text "outbound" rule == "REJECT"
    then put "action" (str "reject") (delete "outbound" rule)
    else rule

-- The body of the loop of `addRouteAction`.
unfoldable pub add_action : Object → Object
unfolding has_key put
add_action rule =
    if not (has_key "action" rule) && has_key "outbound" rule
    then put "action" (str "route") rule
    else rule

abbrev pub as_objs : Option Value → Objects
as_objs (some (objs xs)) = xs
as_objs _ = none_left

-- `append(subRules, rule)`
unfoldable pub append_object : Objects → Object → Objects
append_object none_left m = object m none_left
append_object (object x xs) m = object x (append_object xs m)

abbrev pub rule_mode : Object
rule_mode = object_of (("clash_mode", str "Rule") ∷ [])

-- A logical rule has the mode among its conditions.
unfoldable pub add_mode_condition : Object → Object
unfolding get_text put get append_object
add_mode_condition rule =
    if get_text "mode" rule == "and"
    then put "rules" (objs (append_object (as_objs (get "rules" rule)) rule_mode)) rule
    else rule

-- The body of the loop of `addClashModeCondition`.
unfoldable pub add_clash_mode : Object → Object
unfolding has_key get_text put
add_clash_mode rule =
    if not (has_key "outbound" rule)
    then rule
    else if has_key "clash_mode" rule
    then rule
    else if get_text "type" rule == "logical"
    then add_mode_condition rule
    else put "clash_mode" (str "Rule") rule

-- The three loops over the rules, one after another.
unfoldable pub convert_rules : List Object → List Object
convert_rules rules = map add_clash_mode (map add_action (map convert_reject rules))

-- The rules in front of the others, with those of the modes where there is a group.
unfoldable pub default_rules : String → List Object
unfolding object_of
default_rules tag =
    object_of (("action", str "sniff") ∷ [])
    ∷ object_of (("protocol", str "dns") ∷ ("action", str "hijack-dns") ∷ [])
    ∷ (if tag == ""
        then []
        else object_of (
            ("clash_mode", str "Direct")
            ∷ ("outbound", str "DIRECT")
            ∷ ("action", str "route")
            ∷ [])
          ∷ object_of
              (("clash_mode", str "Global") ∷ ("outbound", str tag) ∷ ("action", str "route") ∷ [])
          ∷ [])

-- `Route.Final` where it is not set.
unfoldable pub final_or : String → String → String
final_or final tag = if final == "" then if tag == "" then "DIRECT" else tag else final

-- `slices.Sorted(maps.Keys(t.ruleSetDefs))`, with the definitions.
unfoldable pub insert_def : String × Object → List (String × Object) → List (String × Object)
insert_def (tag, def) [] = (tag, def) ∷ []
insert_def (tag, def) ((k, d) ∷ defs) =
    let rest = insert_def (tag, def) defs in
    elim (compare tag k) [ Ordering.gt ↦ (k, d) ∷ rest | _ ↦ (tag, def) ∷ (k, d) ∷ defs ]

unfoldable pub sort_defs : List (String × Object) → List (String × Object)
unfolding insert_def
sort_defs [] = []
sort_defs (d ∷ defs) = insert_def d (sort_defs defs)

unfoldable pub with_detour : Object → Object
unfolding has_key put
with_detour def =
    if has_key "download_detour" def then def else put "download_detour" (str "DIRECT") def

abbrev pub text_onto : Option Value → List String → List String
text_onto (some (str s)) rest = s ∷ rest
text_onto _ rest = rest

-- The tags of the definitions that have one.
unfoldable pub defined_tags : List (String × Object) → StringSet
unfolding get
defined_tags [] = []
defined_tags ((k, def) ∷ defs) = text_onto (get "tag" def) (defined_tags defs)

-- A rule with the rule sets that are defined; none where it has some and all are undefined.
unfoldable pub filter_rule_sets : StringSet → Object → Option Object
unfolding get_texts has put
filter_rule_sets defined rule =
    let tags = get_texts "rule_set" rule in
    let known = filter (λ tag. has tag defined) tags in
    if is_empty tags
    then some rule
    else if is_empty known
    then none
    else some (put "rule_set" (strs known) rule)

abbrev pub append_kept : Option Object → Objects → Objects
append_kept none rest = rest
append_kept (some rule) rest = object rule rest

abbrev pub append_rule : Option Object → List Object → List Object
append_rule none rest = rest
append_rule (some rule) rest = rule ∷ rest

abbrev pub warn_dropped : String → Option Object → Object → Translation → Translation
warn_dropped msg none rule t = warn (msg +++ join (get_texts "rule_set" rule) ", ") t
warn_dropped msg (some kept) rule t = t

-- `filterOrphanSubRules`
unfoldable pub filter_orphan_sub_rules : StringSet → Objects → Translation → Objects × Translation
unfolding filter_rule_sets
filter_orphan_sub_rules defined none_left t = (none_left, t)
filter_orphan_sub_rules defined (object sub subs) t =
    let kept = filter_rule_sets defined sub in
    let t₁ = warn_dropped "dropped logical sub-rule referencing undefined rule_set: " kept sub t in
    let (rest, t₂) = filter_orphan_sub_rules defined subs t₁ in (append_kept kept rest, t₂)

abbrev pub has_some : Objects → Bool
has_some none_left = false
has_some (object m ms) = true

-- The rule with its sub-rules filtered.
unfoldable pub filter_sub_rules : StringSet → Object → Translation → Object × Translation
unfolding get put filter_orphan_sub_rules
filter_sub_rules defined rule t =
    let subs = as_objs (get "rules" rule) in
    let (kept, t') = filter_orphan_sub_rules defined subs t in
    if has_some subs then (put "rules" (objs kept) rule, t') else (rule, t)

-- `filterOrphanRules`
unfoldable pub filter_orphan_rules :
    StringSet → List Object → Translation → List Object × Translation
unfolding filter_sub_rules filter_rule_sets
filter_orphan_rules defined [] t = ([], t)
filter_orphan_rules defined (rule ∷ rules) t =
    let (rule', t₁) = filter_sub_rules defined rule t in
    let kept = filter_rule_sets defined rule' in
    let t₂ = warn_dropped "dropped rule referencing undefined rule_set: " kept rule' t₁ in
    let (rest, t₃) = filter_orphan_rules defined rules t₂ in (append_rule kept rest, t₃)

abbrev pub detour_all : List (String × Object) → List (String × Object)
detour_all [] = []
detour_all ((tag, def) ∷ defs) = (tag, with_detour def) ∷ detour_all defs

abbrev pub definitions : List (String × Object) → List Object
definitions [] = []
definitions ((tag, def) ∷ defs) = def ∷ definitions defs

-- The rules of the DNS module, where there is one.
unfoldable pub filter_dns_rules : StringSet → Option Dns → Translation → Option Dns × Translation
unfolding filter_orphan_rules
filter_dns_rules defined none t = (none, t)
filter_dns_rules defined (some dns) t =
    let (rules, t') = filter_orphan_rules defined dns.rules t in
    (some (record dns { rules = rules }), t')

-- `removeOrphanRuleSetRules`
unfoldable pub remove_orphan_rule_set_rules : Translation → Translation
unfolding defined_tags filter_orphan_rules filter_dns_rules
remove_orphan_rule_set_rules t =
    let defined = defined_tags t.rule_set_defs in
    let (rules, t₁) = filter_orphan_rules defined t.config.route.rules t in
    let (dns, t₂) = filter_dns_rules defined t.config.dns t₁ in
    record t₂ {
      config = record t.config { route = record t.config.route { rules = rules }; dns = dns };
    }

abbrev pub direct_outbound : Object
direct_outbound = object_of (("type", str "direct") ∷ ("tag", str "DIRECT") ∷ [])

-- `assemble` before the rules of undefined rule sets are removed.
unfoldable pub assemble_all : Translation → Translation
unfolding convert_rules default_rules final_or sort_defs with_detour
assemble_all t =
    let tag = first_group_tag t in
    let route = t.config.route in
    let defs = detour_all (sort_defs t.rule_set_defs) in
    record t {
      rule_set_defs = defs;
      config = record t.config {
        outbounds = direct_outbound ∷ t.config.outbounds;
        route = record route {
          rules = default_rules tag ++ convert_rules route.rules;
          final = final_or route.final tag;
          rule_set = route.rule_set ++ definitions defs;
        };
      };
    }

-- `assemble`
unfoldable pub assemble : Translation → Translation
assemble t = remove_orphan_rule_set_rules (assemble_all t)
