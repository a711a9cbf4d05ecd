-- ===== src/Translator/Groups/Default/Members.antt =====
-- The members of the groups that `generateDefaultGroups` of translator/group.go gives.
use cff_core.Base.{
  String, true, List, [], ◌∷◌, leb, length, ◌≡◌, ◌≢◌, refl, ◌∙◌, arith, All, All-mono, Bool-cases,
  inl, inr, filter-All_of_All, is_empty, eq_iff, subst, sym,
}
use cff_core.Base.StringSet.{StringSet, has, All-has_self}
use cff_core.Base.Sort.{sort_texts, has-sort_texts}
use cff_core.Outside.{Outside}
use cff_core.Value.{Object, empty, get, get_text, get_texts, object_of}
use cff_core.Translator.State.{Translation}
use cff_core.Translator.Groups.Build.{
  filter_health_check_proxies, translate_select_group, translate_url_test_group, urltest_object,
  positive_int,
}
use cff_core.Translator.Groups.Closed.{Resolves, HasMembers}
use cff_core.Translator.Groups.Default.{
  groups_of, with_selector, default_groups_of, generate_default_groups,
}

filter_health_check_proxies-All :
    (P : String → Type 0) (proxies : List String) (t : Translation)
    → All P proxies
    → All P (filter_health_check_proxies proxies t)
unfolding filter_health_check_proxies
filter_health_check_proxies-All P proxies t h =
    elim (Bool-cases (is_empty t.invalid_health_check_proxy_tags)) [
      | inl e ↦ rw e h
      | inr e ↦ rw e (filter-All_of_All _ P proxies h)
    ]

proxy-Resolves :
    (proxies : StringSet) (groups : List Object) (m : String)
    → has m proxies ≡ true
    → Resolves proxies groups m
proxy-Resolves proxies groups m h = ground (arith, h)

length-inhabited : (xs : List String) → leb 2 (length xs) ≡ true → xs ≢ []
length-inhabited [] h = cc
length-inhabited (x ∷ xs) h = λ e. cc

abbrev AreProxies : StringSet → List String → Type 0
AreProxies proxies ms = All (λ m. has m proxies ≡ true) ms

auto-Resolves :
    (proxies : StringSet) (auto sel : Object)
    → get_text "tag" auto ≡ "Auto"
    → Resolves proxies (auto ∷ sel ∷ []) "Auto"
unfolding has
auto-Resolves proxies auto sel h = ground (arith, h, eq_iff (get_text "tag" auto) "Auto")

two-HasMembers :
    (proxies : StringSet) (auto sel : Object) (checked all : List String)
    → get_text "tag" auto ≡ "Auto"
    → get_texts "outbounds" auto ≡ checked
    → get_texts "outbounds" sel ≡ "Auto" ∷ all
    → checked ≢ []
    → AreProxies proxies checked
    → AreProxies proxies all
    → All (HasMembers (Resolves proxies (auto ∷ sel ∷ []))) (auto ∷ sel ∷ [])
two-HasMembers proxies auto sel checked all tag a s some_checked cs xs =
    let P = Resolves proxies (auto ∷ sel ∷ []) in
    let to = All-mono (λ m. has m proxies ≡ true) P (proxy-Resolves proxies (auto ∷ sel ∷ [])) in
    (
      (subst (All P) (sym a) (to checked cs), λ e. some_checked (sym a ∙ e)),
      ((subst (All P) (sym s) (auto-Resolves proxies auto sel tag, to all xs), λ e. cc), tt),
    )

one-HasMembers :
    (proxies : StringSet) (sel : Object) (all : List String)
    → get_texts "outbounds" sel ≡ all
    → all ≢ []
    → AreProxies proxies all
    → All (HasMembers (Resolves proxies (sel ∷ []))) (sel ∷ [])
one-HasMembers proxies sel all s some_all xs =
    let P = Resolves proxies (sel ∷ []) in
    let to = All-mono (λ m. has m proxies ≡ true) P (proxy-Resolves proxies (sel ∷ [])) in
    ((subst (All P) (sym s) (to all xs), λ e. some_all (sym s ∙ e)), tt)

select-outbounds :
    (name : String) (ms : List String) → get_texts "outbounds" (translate_select_group name ms) ≡ ms
unfolding get_texts get translate_select_group object_of
select-outbounds name ms = refl

module _ (o : Outside) where
  url_test-outbounds :
      (name : String) (ms : List String) (t : Translation)
      → (get_texts "outbounds" (translate_url_test_group o name ms empty t).0 ≡ ms)
        × (get_text "tag" (translate_url_test_group o name ms empty t).0 ≡ name)
  unfolding get_texts get_text get translate_url_test_group urltest_object positive_int object_of
  url_test-outbounds name ms t = (refl, refl)

  default_groups_of-members :
      (all : List String) (t : Translation)
      → all ≢ []
      → AreProxies t.proxy_tags all
      → let groups = (default_groups_of o all t).0 in
        All (HasMembers (Resolves t.proxy_tags groups)) groups
  unfolding default_groups_of with_selector
  default_groups_of-members all t h xs =
      let checked = filter_health_check_proxies all t in
      let auto = (translate_url_test_group o "Auto" checked empty t).0 in
      elim (Bool-cases (leb 2 (length checked))) [
        | inl e ↦ rw e (
            two-HasMembers t.proxy_tags auto (translate_select_group "PROXY" ("Auto" ∷ all)) checked
              all (url_test-outbounds "Auto" checked t).1 (url_test-outbounds "Auto" checked t).0
              (select-outbounds "PROXY" ("Auto" ∷ all)) (length-inhabited checked e)
              (filter_health_check_proxies-All _ all t xs) xs)
        | inr e ↦ rw e (
            one-HasMembers t.proxy_tags (translate_select_group "PROXY" all) all
              (select-outbounds "PROXY" all) h xs)
      ]

  groups_of-members :
      (all : List String) (t : Translation)
      → AreProxies t.proxy_tags all
      → let groups = (groups_of o all t).0 in All (HasMembers (Resolves t.proxy_tags groups)) groups
  groups_of-members [] t h = tt
  groups_of-members (x ∷ xs) t h = default_groups_of-members (x ∷ xs) t (λ e. cc) h

  -- The groups that `generate_default_groups` gives have members, and each of these is a proxy tag, `DIRECT` or
  -- one of the groups.
  pub generate_default_groups-HasMembers :
      (t : Translation)
      → let groups = (generate_default_groups o t).0 in
        All (HasMembers (Resolves t.proxy_tags groups)) groups
  unfolding generate_default_groups
  generate_default_groups-HasMembers t = groups_of-members (sort_texts t.proxy_tags) t (
      All-has_self (sort_texts t.proxy_tags) t.proxy_tags
        (λ j h. sym (has-sort_texts j t.proxy_tags) ∙ h))
