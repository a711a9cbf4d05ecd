-- ===== src/Translator/Pipeline/Defaults.antt =====
-- The groups that `translateFromConfig` goes on with: those of the input, or the default ones.
use cff_core.Base.{
  String, Bool, true, ◌||◌, List, [], ◌∷◌, is_empty, length, leb, ◌≡◌, refl, subst, ◌∙◌, arith,
  Bool-cases, inl, inr,
}
use cff_core.Base.Sort.{sort_texts}
use cff_core.Base.StringSet.{has, insert}
use cff_core.Outside.{Outside}
use cff_core.Value.{Object, empty, get, get_text, object_of}
use cff_core.Translator.State.{Translation}
use cff_core.Translator.Groups.Build.{
  translate_select_group, translate_url_test_group, filter_health_check_proxies,
}
use cff_core.Translator.Groups.Cleanup.Pass.{tags_of}
use cff_core.Translator.Groups.Closed.{GroupsLaws}
use cff_core.Translator.Groups.Kept.{url_test-tag}
use cff_core.Translator.Groups.Default.{
  with_selector, default_groups_of, groups_of, generate_default_groups,
}
use cff_core.Translator.Groups.Default.Members.{generate_default_groups-HasMembers}
use cff_core.Translator.Dns.Tags.{has-tags_of-append}
use cff_core.Translator.Pipeline.{groups_or_default}

record DefaultLaws (t : Translation) (r : List Object × Translation) : Type 0 where
  proxies : r.1.proxy_tags ≡ t.proxy_tags
  config : r.1.config ≡ t.config
  terminal : r.1.dns_terminal_rules ≡ t.dns_terminal_rules
  ordered :
      (j : String)
      → has j r.1.group_tag_order ≡ true
      → (has j t.group_tag_order || has j (tags_of r.0)) ≡ true

with_selector-DefaultLaws :
    (groups : List Object) (members : List String) (t : Translation)
    → DefaultLaws t (with_selector groups members t)
unfolding with_selector has translate_select_group get_text get object_of
with_selector-DefaultLaws groups members t = record {
  proxies = refl;
  config = refl;
  terminal = refl;
  ordered = λ j h.
      ground (arith, has-tags_of-append j groups (translate_select_group "PROXY" members ∷ []), h);
}

no_order :
    (order : List String)
    → is_empty order ≡ true
    → (j : String) (b c : Bool) → (has j order || b) ≡ true
    → (c || b) ≡ true
unfolding has
no_order [] e j b c h = ground arith
no_order (x ∷ xs) e j b c h = cc

module _ (o : Outside) where
  default_groups_of-DefaultLaws :
      (all : List String) (t : Translation) → DefaultLaws t (default_groups_of o all t)
  unfolding default_groups_of
  default_groups_of-DefaultLaws all t =
      let checked = filter_health_check_proxies all t in
      let r = translate_url_test_group o "Auto" checked empty t in
      let kept = (url_test-tag o "Auto" checked empty t).1 in
      elim (Bool-cases (leb 2 (length checked))) [
        | inl e ↦
            let t' = record r.1 { group_tags = insert "Auto" r.1.group_tags } in
            let l = with_selector-DefaultLaws (r.0 ∷ []) ("Auto" ∷ all) t' in
            rw e (record {
              proxies = l.proxies ∙ kept.proxy_tags;
              config = l.config ∙ kept.config;
              terminal = l.terminal ∙ kept.terminal;
              ordered = λ j h.
                  subst
                    (λ q.
                      (has j q || has j (tags_of (with_selector (r.0 ∷ []) ("Auto" ∷ all) t').0))
                      ≡ true)
                    kept.group_tag_order (l.ordered j h);
            })
        | inr e ↦ rw e (with_selector-DefaultLaws [] all t)
      ]

  generate_default_groups-DefaultLaws :
      (t : Translation) → DefaultLaws t (generate_default_groups o t)
  unfolding generate_default_groups
  generate_default_groups-DefaultLaws t = go (sort_texts t.proxy_tags)
    where
      go : (all : List String) → DefaultLaws t (groups_of o all t)
      go [] = record {
        proxies = refl;
        config = refl;
        terminal = refl;
        ordered = λ j h. ground (arith, h);
      }
      go (x ∷ xs) = default_groups_of-DefaultLaws (x ∷ xs) t

  -- The groups, translated or by default, of which the laws of `translate_groups` hold.
  default-GroupsLaws :
      (t t' : Translation) (groups : List Object)
      → is_empty t'.group_tag_order ≡ true
      → GroupsLaws t groups t'
      → GroupsLaws t (generate_default_groups o t').0 (generate_default_groups o t').1
  default-GroupsLaws t t' groups e l =
      let d = generate_default_groups-DefaultLaws t' in
      record {
        members = rw (d.proxies) (generate_default_groups-HasMembers o t');
        ordered =
            λ j h. no_order t'.group_tag_order e j _ (has j t.group_tag_order) (d.ordered j h);
        same_proxies = d.proxies ∙ l.same_proxies;
        same_config = d.config ∙ l.same_config;
        same_terminal = d.terminal ∙ l.same_terminal;
      }

  pub groups_or_default-GroupsLaws :
      (t t' : Translation) (groups : List Object)
      → GroupsLaws t groups t'
      → GroupsLaws t (groups_or_default o (groups, t')).0 (groups_or_default o (groups, t')).1
  unfolding groups_or_default
  groups_or_default-GroupsLaws t t' groups l = elim (Bool-cases (is_empty t'.group_tag_order)) [
    | inl e ↦ rw e (default-GroupsLaws t t' groups e l)
    | inr e ↦ rw e l
  ]

-- The tags that the validation collects are those that are not empty.
