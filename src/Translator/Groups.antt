-- ===== src/Translator/Groups.antt =====
-- translator/group.go: proxy groups become selector and urltest outbounds. Cleanup is the loop that
-- removes references to groups which were skipped, Closed is about the references that are left.
pub mod Build
pub mod Cleanup
pub mod Kept
pub mod Closed
pub mod Named
pub mod Default
use cff_core.Base.{
  ℕ, ℤ, zero, suc, ◌+◌, ◌*◌, ◌≤◌, min, max, pos, negsuc, is_positive, nat_part, String, Bool, true,
  false, not, ◌&&◌, ◌||◌, List, [], ◌∷◌, ◌++◌, Option, none, some, ◌==◌, ltb, if◌then◌else◌, filter,
  is_empty,
}
use cff_core.Base.StringSet.{StringSet, has, insert, remove}
use cff_core.Base.Text.{◌+++◌}
use cff_core.Base.Text.Decimal.{itoa_ℕ}
use cff_core.Outside.{Outside}
use cff_core.Proxy.Duration.{seconds_to_duration}
use cff_core.Value.{
  Value, Object, Items, nil, cons, str, int, int64, float, bool, strs, empty, get, put, get_text,
  get_items, object_of, item_texts,
}
use cff_core.Translator.State.{Translation, warn, first_or_empty}
use cff_core.Translator.RawConfig.{RawConfig}
use cff_core.Translator.Groups.Cleanup.{Cleaned, cleanup_group_outbounds}
use cff_core.Translator.Groups.Build.{
  filter_group_proxies, filter_health_check_proxies, translate_select_group,
  translate_load_balance_group, translate_url_test_group, translate_fallback_group,
}

-- The first loop of `translateGroups`: every named group is known before any is translated.
unfoldable pub populate_group_tags : List Object → StringSet → StringSet
unfolding get_text insert
populate_group_tags [] tags = tags
populate_group_tags (g ∷ gs) tags =
    let name = get_text "name" g in
    populate_group_tags gs (if name == "" then tags else insert name tags)

-- The body of the last loop of `translateGroups`.
unfoldable pub order_group : String → StringSet → Translation → Translation
unfolding has remove
order_group name translated t =
    if name == ""
    then t
    else if has name translated
    then record t { group_tag_order = t.group_tag_order ++ name ∷ [] }
    else record t { group_tags = remove name t.group_tags }

-- The last loop of `translateGroups`.
unfoldable pub order_groups : List Object → StringSet → Translation → Translation
unfolding get_text order_group
order_groups [] translated t = t
order_groups (g ∷ gs) translated t =
    order_groups gs translated (order_group (get_text "name" g) translated t)

-- The urltest and fallback cases of the switch, behind the filter on health checks.
unfoldable pub health_checked :
    (List String → Translation → Object × Translation)
    → String
    → List String
    → Translation
    → Option Object × Translation
unfolding warn
health_checked build name [] t = (
  none,
  warn
      ("proxy-group \"" +++ name
        +++ "\" has no valid health-check proxies after filtering, skipping")
      t,
)
health_checked build name (p ∷ ps) t = let (ob, t') = build (p ∷ ps) t in (some ob, t')

abbrev pub kept : Object × Translation → Option Object × Translation
kept (ob, t) = (some ob, t)

abbrev pub append_some : List Object → Option Object → List Object
append_some groups none = groups
append_some groups (some ob) = groups ++ ob ∷ []

abbrev pub mark : Object → Option Object → StringSet → StringSet
mark g none translated = translated
mark g (some ob) translated = insert (get_text "name" g) translated

unfoldable pub warn_no_groups : List Object → Translation → Translation
unfolding warn
warn_no_groups gs t =
    if is_empty t.group_tag_order && not (is_empty gs)
    then warn "no proxy groups were translated successfully; route.final will fall back to DIRECT" t
    else t

module _ (o : Outside) where
  -- The switch on the group's type, at its filtered proxies.
  unfoldable pub translate_typed_group :
      String → String → List String → Object → Translation → Option Object × Translation
  unfolding health_checked translate_select_group translate_url_test_group translate_fallback_group
      translate_load_balance_group filter_health_check_proxies warn
  translate_typed_group type name filtered g t =
      let checked = filter_health_check_proxies filtered t in
      if type == "select"
      then (some (translate_select_group name filtered), t)
      else if type == "url-test"
      then health_checked (λ ps. translate_url_test_group o name ps g) name checked t
      else if type == "fallback"
      then health_checked (λ ps. translate_fallback_group o name ps g) name checked t
      else if type == "load-balance"
      then kept (translate_load_balance_group name filtered t)
      else if type == "relay"
      then (
        none,
        warn ("proxy-group \"" +++ name +++ "\": relay is not supported in sing-box, skipping") t,
      )
      else (
        none,
        warn ("proxy-group \"" +++ name +++ "\": unknown type \"" +++ type +++ "\", skipping") t,
      )

  unfoldable pub translate_filtered_group :
      String → List String → Object → Translation → Option Object × Translation
  unfolding translate_typed_group warn get_text
  translate_filtered_group name [] g t = (
    none,
    warn ("proxy-group \"" +++ name +++ "\" has no valid proxies after filtering, skipping") t,
  )
  translate_filtered_group name (p ∷ ps) g t =
      translate_typed_group (get_text "type" g) name (p ∷ ps) g t

  -- The body of the second loop of `translateGroups`.
  unfoldable pub translate_group : Object → Translation → Option Object × Translation
  unfolding translate_filtered_group filter_group_proxies get_text warn
  translate_group g t =
      let name = get_text "name" g in
      if name == ""
      then (none, warn "proxy-group missing name, skipping" t)
      else translate_filtered_group name (filter_group_proxies g t) g t

  -- The second loop of `translateGroups`: the outbounds so far, and the names that have one.
  unfoldable pub translate_each :
      List Object → List Object → StringSet → Translation → List Object × StringSet × Translation
  unfolding translate_group insert get_text
  translate_each [] groups translated t = (groups, translated, t)
  translate_each (g ∷ gs) groups translated t =
      let (ob, t') = translate_group g t in
      translate_each gs (append_some groups ob) (mark g ob translated) t'

  -- `translateGroups`
  unfoldable pub translate_groups : List Object → Translation → List Object × Translation
  translate_groups gs t =
      let t₁ = record t { group_tags = populate_group_tags gs t.group_tags } in
      let (groups, translated, t₂) = translate_each gs [] [] t₁ in
      let r = cleanup_group_outbounds groups translated t₂ in
      (r.kept, warn_no_groups gs (order_groups gs r.translated r.state))
