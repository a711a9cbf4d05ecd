-- ===== src/Translator/Rule.antt =====
-- translator/rule.go: the definitions of rule sets, and their download through a mirror.
pub mod Mirror
use cff_core.Base.{String, List, [], ◌∷◌, Option, none, some, is_some, ◌==◌, if◌then◌else◌, eqb}
use cff_core.Base.Text.{◌+++◌, trim_right, has_prefix, to_lower}
use cff_core.Outside.{Outside}
use cff_core.Value.{Object, str, object_of}
use cff_core.Translator.State.{Translation}

-- `RawGitHubPrefix`
abbrev pub raw_github_prefix : String
raw_github_prefix = "https://raw.githubusercontent.com/"

-- `ProxyURL`
unfoldable pub proxy_url : String → String → String
unfolding trim_right has_prefix
proxy_url raw_url proxy =
    let prefix = trim_right (λ c. eqb c 47) proxy in
    if prefix == ""
    then raw_url
    else if has_prefix raw_url raw_github_prefix
    then prefix +++ ("/" +++ raw_url)
    else raw_url

-- `t.ruleSetDefs[tag]`
unfoldable pub find_def : String → List (String × Object) → Option Object
find_def tag [] = none
find_def tag ((k, def) ∷ defs) = if k == tag then some def else find_def tag defs

unfoldable pub remote_rule_set : String → String → Object
unfolding object_of
remote_rule_set tag raw_url = object_of (
    ("type", str "remote")
    ∷ ("tag", str tag)
    ∷ ("format", str "binary")
    ∷ ("url", str raw_url)
    ∷ ("download_detour", str "DIRECT")
    ∷ ("update_interval", str "1d")
    ∷ [])

-- `registerRuleSet`
unfoldable pub register_rule_set : String → String → Translation → Translation
unfolding find_def remote_rule_set
register_rule_set tag raw_url t =
    if is_some (find_def tag t.rule_set_defs)
    then t
    else record t { rule_set_defs = (tag, remote_rule_set tag raw_url) ∷ t.rule_set_defs }

module _ (o : Outside) where
  -- `ensureRuleSetDef`
  unfoldable pub ensure_rule_set_def : String → String → String → Translation → Translation
  ensure_rule_set_def tag geo_type name t =
      let file = to_lower o.lower name +++ ".srs" in
      let base =
        if geo_type == "geoip"
        then raw_github_prefix +++ ("SagerNet/sing-geoip/rule-set/geoip-" +++ file)
        else raw_github_prefix +++ ("SagerNet/sing-geosite/rule-set/geosite-" +++ file) in
      register_rule_set tag base t
