-- ===== src/Translator/Groups/Kept.antt =====
-- What the translation of each proxy group leaves alone, and the tag of what it builds.
use cff_core.Base.{String, List, [], ◌∷◌, Option, none, some, ◌≡◌, refl, ◌∙◌, arith, ◌==◌}
use cff_core.Base.StringSet.{StringSet, has, has-insert, has-append}
use mathlib.Core.List.{map-append}
use cff_core.Outside.{Outside}
use cff_core.Value.{Object, get_text}
use cff_core.Translator.State.{Translation, warn}
use cff_core.Translator.Groups.Build.{
  filter_group_proxies, filter_health_check_proxies, translate_select_group,
  translate_load_balance_group, translate_url_test_group, translate_fallback_group,
}
use cff_core.Translator.Groups.{
  health_checked, translate_typed_group, translate_filtered_group, translate_group, append_some,
  mark, translate_each,
}
use cff_core.Translator.Groups.Cleanup.Laws.{IsCovered}
use cff_core.Translator.Groups.Cleanup.Pass.{tags_of}

pub has_single : (j k : String) → has j (k ∷ []) ≡ (k == j)
unfolding has
has_single j k = ground arith

-- What a step on one group leaves alone, and the tag of what it builds.
abbrev pub IsNamed : String → Option Object → Type 0
IsNamed name none = Unit
IsNamed name (some ob) = get_text "tag" ob ≡ name

pub record Keeps (t t' : Translation) : Type 0 where
  pub proxy_tags : t'.proxy_tags ≡ t.proxy_tags
  pub group_tag_order : t'.group_tag_order ≡ t.group_tag_order
  pub config : t'.config ≡ t.config
  pub terminal : t'.dns_terminal_rules ≡ t.dns_terminal_rules

pub Keeps-refl : (t : Translation) → Keeps t t
Keeps-refl t = record { proxy_tags = refl; group_tag_order = refl; config = refl; terminal = refl }

pub warn-Keeps : (msg : String) (t : Translation) → Keeps t (warn msg t)
unfolding warn
warn-Keeps msg t = record {
  proxy_tags = refl;
  group_tag_order = refl;
  config = refl;
  terminal = refl;
}

select-tag :
    (name : String) (ps : List String) → get_text "tag" (translate_select_group name ps) ≡ name
unfolding translate_select_group get_text
select-tag name ps = refl

module _ (o : Outside) where
  pub url_test-tag :
      (name : String) (ps : List String) (g : Object) (t : Translation)
      → (get_text "tag" (translate_url_test_group o name ps g t).0 ≡ name)
        × Keeps t (translate_url_test_group o name ps g t).1
  unfolding translate_url_test_group warn get_text
  url_test-tag name ps g t = ground arith

  fallback-tag :
      (name : String) (ps : List String) (g : Object) (t : Translation)
      → (get_text "tag" (translate_fallback_group o name ps g t).0 ≡ name)
        × Keeps t (translate_fallback_group o name ps g t).1
  unfolding translate_fallback_group warn get_text
  fallback-tag name ps g t = ground arith

health_checked-Keeps :
    (build : List String → Translation → Object × Translation) (name : String) (ps : List String)
    (t : Translation)
    → ((qs : List String) → (get_text "tag" (build qs t).0 ≡ name) × Keeps t (build qs t).1)
    → IsNamed name (health_checked build name ps t).0 × Keeps t (health_checked build name ps t).1
unfolding health_checked
health_checked-Keeps build name [] t h = (tt, warn-Keeps _ t)
health_checked-Keeps build name (p ∷ ps) t h = h (p ∷ ps)

module _ (o : Outside) where
  typed-Keeps :
      (type name : String) (ps : List String) (g : Object) (t : Translation)
      → IsNamed name (translate_typed_group o type name ps g t).0
        × Keeps t (translate_typed_group o type name ps g t).1
  unfolding translate_typed_group translate_load_balance_group
  typed-Keeps type name ps g t = ground (
    arith,
    Keeps-refl t,
    select-tag name ps,
    health_checked-Keeps (λ (qs : List String). translate_url_test_group o name qs g) name
        (filter_health_check_proxies ps t) t (λ qs. url_test-tag o name qs g t),
    health_checked-Keeps (λ (qs : List String). translate_fallback_group o name qs g) name
        (filter_health_check_proxies ps t) t (λ qs. fallback-tag o name qs g t),
  )

  filtered-Keeps :
      (name : String) (ps : List String) (g : Object) (t : Translation)
      → IsNamed name (translate_filtered_group o name ps g t).0
        × Keeps t (translate_filtered_group o name ps g t).1
  unfolding translate_filtered_group
  filtered-Keeps name [] g t = (tt, warn-Keeps _ t)
  filtered-Keeps name (p ∷ ps) g t = typed-Keeps (get_text "type" g) name (p ∷ ps) g t

  pub group-Keeps :
      (g : Object) (t : Translation)
      → IsNamed (get_text "name" g) (translate_group o g t).0 × Keeps t (translate_group o g t).1
  unfolding translate_group
  group-Keeps g t = ground (
    arith,
    warn-Keeps "proxy-group missing name, skipping" t,
    filtered-Keeps (get_text "name" g) (filter_group_proxies g t) g t,
  )

-- A group that was built makes its name translated, and the name is then the tag of a group.
IsCovered-next :
    (groups : List Object) (g : Object) (ob : Option Object) (tr : StringSet)
    → IsNamed (get_text "name" g) ob
    → IsCovered tr groups
    → IsCovered (mark g ob tr) (append_some groups ob)
IsCovered-next groups g none tr n h = λ j k. h j k
IsCovered-next groups g (some ob) tr n h = λ j k.
    rw (map-append (get_text "tag") groups (ob ∷ [])) (
      ground (
        arith,
        has-append j (tags_of groups) (get_text "tag" ob ∷ []),
        has-insert j (get_text "name" g) tr,
        h j,
        has_single j (get_text "tag" ob),
        n,
      ))

Keeps-trans : {t t' t'' : Translation} → Keeps t t' → Keeps t' t'' → Keeps t t''
Keeps-trans a b = record {
  proxy_tags = b.proxy_tags ∙ a.proxy_tags;
  group_tag_order = b.group_tag_order ∙ a.group_tag_order;
  config = b.config ∙ a.config;
  terminal = b.terminal ∙ a.terminal;
}

module _ (o : Outside) where
  pub each-Keeps :
      (gs groups : List Object) (tr : StringSet) (t : Translation)
      → IsCovered tr groups
      → let r = translate_each o gs groups tr t in IsCovered r.1 r.0 × Keeps t r.2
  unfolding translate_each
  each-Keeps [] groups tr t h = (h, Keeps-refl t)
  each-Keeps (g ∷ gs) groups tr t h =
      let (named, kept) = group-Keeps o g t in
      let (covered, kept') =
        each-Keeps gs (append_some groups (translate_group o g t).0)
          (mark g (translate_group o g t).0 tr) (translate_group o g t).1
          (IsCovered-next groups g (translate_group o g t).0 tr named h) in
      (covered, Keeps-trans kept kept')
