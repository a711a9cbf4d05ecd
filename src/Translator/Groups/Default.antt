-- ===== src/Translator/Groups/Default.antt =====
-- `generateDefaultGroups` of translator/group.go: the groups of a subscription that has none.
pub mod Members
use cff_core.Base.{
  ℕ, String, Bool, List, [], ◌∷◌, ◌++◌, Option, none, some, if◌then◌else◌, leb, length,
}
use cff_core.Base.StringSet.{StringSet, insert}
use cff_core.Base.Sort.{sort_texts}
use cff_core.Outside.{Outside}
use cff_core.Value.{Object, empty}
use cff_core.Translator.State.{Translation}
use cff_core.Translator.Groups.Build.{
  filter_health_check_proxies, translate_select_group, translate_url_test_group,
}

-- The selector with its members, which stands last and comes first in the order.
unfoldable pub with_selector : List Object → List String → Translation → List Object × Translation
unfolding insert
with_selector groups members t = (
  groups ++ translate_select_group "PROXY" members ∷ [],
  record t { group_tags = insert "PROXY" t.group_tags; group_tag_order = "PROXY" ∷ [] },
)

module _ (o : Outside) where
  -- What follows where there are proxies: `Auto` only for two or more that can be checked.
  unfoldable pub default_groups_of : List String → Translation → List Object × Translation
  unfolding insert
  default_groups_of all t =
      let checked = filter_health_check_proxies all t in
      let (auto, t') = translate_url_test_group o "Auto" checked empty t in
      if leb 2 (length checked)
      then with_selector (auto ∷ []) ("Auto" ∷ all)
          (record t' { group_tags = insert "Auto" t'.group_tags })
      else with_selector [] all t

  -- No groups where there is no proxy.
  abbrev pub groups_of : List String → Translation → List Object × Translation
  groups_of [] t = ([], t)
  groups_of (x ∷ xs) t = default_groups_of (x ∷ xs) t

  -- `generateDefaultGroups`
  unfoldable pub generate_default_groups : Translation → List Object × Translation
  unfolding sort_texts
  generate_default_groups t = groups_of (sort_texts t.proxy_tags) t
