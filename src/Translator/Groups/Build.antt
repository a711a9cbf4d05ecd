-- ===== src/Translator/Groups/Build.antt =====
-- The parts of translator/group.go that build one outbound: the filters on its members, its url and
-- interval, and the four kinds of groups.
use cff_core.Base.{
  ℕ, ℤ, ◌*◌, min, max, pos, is_positive, nat_part, String, Bool, true, not, ◌||◌, List, [], ◌∷◌,
  Option, none, some, ◌==◌, ltb, if◌then◌else◌, filter, is_empty,
}
use cff_core.Base.StringSet.{has}
use cff_core.Base.Text.{◌+++◌}
use cff_core.Base.Text.Decimal.{itoa_ℕ}
use cff_core.Outside.{Outside}
use cff_core.Proxy.Duration.{seconds_to_duration}
use cff_core.Value.{
  Value, Object, str, int, int64, float, bool, strs, get, put, get_text, get_items, object_of,
  item_texts,
}
use cff_core.Translator.State.{Translation, warn, first_or_empty}

abbrev pub max_group_interval : ℕ
max_group_interval = 1800

abbrev pub min_group_idle_timeout : ℕ
min_group_idle_timeout = 1800

-- `math.MaxUint16`
abbrev pub max_tolerance : ℕ
max_tolerance = 65535

abbrev pub fallback_tolerance : ℕ
fallback_tolerance = 10000

-- The test of `filterGroupProxies`.
unfoldable pub is_reference : Translation → String → Bool
unfolding has
is_reference t name = has name t.proxy_tags || has name t.group_tags || name == "DIRECT"

-- `filterGroupProxies`
unfoldable pub filter_group_proxies : Object → Translation → List String
unfolding get_items item_texts is_reference
filter_group_proxies g t = filter (is_reference t) (item_texts (get_items "proxies" g))

-- `filterHealthCheckProxies`
unfoldable pub filter_health_check_proxies : List String → Translation → List String
unfolding has
filter_health_check_proxies proxies t =
    if is_empty t.invalid_health_check_proxy_tags
    then proxies
    else filter (λ name. not (has name t.invalid_health_check_proxy_tags)) proxies

-- `translateSelectGroup`; `proxies[0]` exists at both calls of it.
unfoldable pub translate_select_group : String → List String → Object
unfolding object_of
translate_select_group name proxies = object_of (
    ("type", str "selector")
    ∷ ("tag", str name)
    ∷ ("outbounds", strs proxies)
    ∷ ("default", str (first_or_empty proxies))
    ∷ ("interrupt_exist_connections", bool true)
    ∷ [])

-- `translateLoadBalanceGroup`
unfoldable pub translate_load_balance_group :
    String → List String → Translation → Object × Translation
unfolding translate_select_group warn
translate_load_balance_group name proxies t = (
  translate_select_group name proxies,
  warn
      ("proxy-group \"" +++ name
        +++ "\": load-balance has no sing-box equivalent, degraded to selector")
      t,
)

module _ (o : Outside) where
  -- `toInt`
  unfoldable pub to_int : Option Value → Option ℤ
  to_int (some (int n)) = some n
  to_int (some (int64 n)) = some n
  to_int (some (float f)) = some (o.float_int f)
  to_int _ = none

  -- `if n, ok := toInt(v); ok && n > 0`: the number, and 0 otherwise.
  unfoldable pub positive_int : Option Value → ℕ
  unfolding to_int
  positive_int v = elim (to_int v) [ none ↦ 0 | some n ↦ if is_positive n then nat_part n else 0 ]

  abbrev default_url : String
  default_url = "http://www.gstatic.com/generate_204"

  -- The `url` of `groupURLDefaults`.
  unfoldable pub group_url : Object → String
  unfolding get_text
  group_url g = let u = get_text "url" g in if u == "" then default_url else u

  unfoldable pub interval_warning : String → ℕ → String
  unfolding itoa_ℕ
  interval_warning name iv =
      "proxy-group \""
      +++ name
      +++ "\": interval "
      +++ itoa_ℕ iv
      +++ "s exceeds "
      +++ itoa_ℕ max_group_interval
      +++ "s, clamped to "
      +++ itoa_ℕ max_group_interval
      +++ "s"

  -- `groupURLDefaults`: the url, the interval and the state with its warning.
  unfoldable pub group_url_defaults : Object → String → Translation → String × ℕ × Translation
  unfolding get positive_int group_url interval_warning warn
  group_url_defaults g name t =
      let iv = positive_int (get "interval" g) in
      if ltb 0 iv
      then (if ltb max_group_interval iv
          then (group_url g, max_group_interval, warn (interval_warning name iv) t)
          else (group_url g, iv, t))
      else (group_url g, 180, t)

  -- The fields that a urltest outbound has in both of its uses.
  unfoldable pub urltest_object : String → List String → String → ℕ → Object
  unfolding object_of seconds_to_duration
  urltest_object name proxies url interval = object_of (
      ("type", str "urltest")
      ∷ ("tag", str name)
      ∷ ("outbounds", strs proxies)
      ∷ ("url", str url)
      ∷ ("interval", str (seconds_to_duration (pos interval)))
      ∷ (
        "idle_timeout",
        str (seconds_to_duration (pos (max (interval * 2) min_group_idle_timeout))),
      )
      ∷ ("interrupt_exist_connections", bool true)
      ∷ [])

  -- `translateURLTestGroup`
  unfoldable pub translate_url_test_group :
      String → List String → Object → Translation → Object × Translation
  unfolding group_url_defaults urltest_object positive_int get put
  translate_url_test_group name proxies g t =
      let (url, interval, t') = group_url_defaults g name t in
      let result = urltest_object name proxies url interval in
      let tol = positive_int (get "tolerance" g) in
      (if ltb 0 tol then put "tolerance" (int (pos (min tol max_tolerance))) result else result, t')

  -- `translateFallbackGroup`
  unfoldable pub translate_fallback_group :
      String → List String → Object → Translation → Object × Translation
  unfolding group_url_defaults urltest_object put
  translate_fallback_group name proxies g t =
      let (url, interval, t') = group_url_defaults g name t in
      (
        put "tolerance" (int (pos fallback_tolerance)) (urltest_object name proxies url interval),
        t',
      )
