-- ===== src/Translator/Pipeline/Outbounds.antt =====
-- The outbounds of `translateFromConfig` (translator/translator.go): the proxies and the groups behind them.
use cff_core.Base.{
  String, true, false, not, ◌||◌, ◌&&◌, List, [], ◌∷◌, ◌++◌, Option, some, none, ◌==◌, is_empty,
  length, leb, ◌≡◌, ◌≢◌, refl, ap, sym, subst, ◌∙◌, All, All-append, All-mono, arith, Bool-cases,
  inl, inr, eq_iff,
}
use cff_core.Base.Sort.{sort_texts}
use cff_core.Base.StringSet.{StringSet, has}
use cff_core.Outside.{Outside}
use cff_core.Value.{Value, Object, empty, get, get_text, get_texts, as_strs, strs, object_of}
use cff_core.Translator.State.{Translation, SingboxConfig, first_group_tag, first_or_empty}
use cff_core.Translator.RawConfig.{RawConfig}
use cff_core.Translator.Groups.{translate_groups}
use cff_core.Translator.Groups.Build.{translate_select_group, filter_health_check_proxies}
use cff_core.Translator.Groups.Cleanup.Pass.{tags_of}
use cff_core.Translator.Groups.Closed.{Resolves, HasMembers, translate_groups-GroupsLaws}
use cff_core.Translator.Groups.Kept.{url_test-tag}
use cff_core.Translator.Groups.Named.{HasNoEmpty, translate_groups-HasNoEmpty}
use cff_core.Translator.Groups.Default.{
  with_selector, default_groups_of, groups_of, generate_default_groups,
}
use cff_core.Translator.Dns.Sound.{first_or_empty-holds}
use cff_core.Translator.Dns.Tags.{has-tags_of-append}
use cff_core.Translator.Proxies.{translate_proxies}
use cff_core.Translator.Proxies.Visible.{HasNoMembers, VisibleLaws, translate_proxies-VisibleLaws}
use cff_core.Translator.Proxies.Given.{names_of}
use cff_core.Translator.Ech.{collect_ech_query_servers}
use cff_core.Translator.Validation.{outbound_members}
use cff_core.Translator.Validation.Sound.{named_tags, IsOutbound, IsReference, HasKnownMembers}
use cff_core.Translator.Assemble.{direct_outbound}
use cff_core.Translator.Pipeline.{groups_or_default, translate_outbounds}
use cff_core.Translator.Pipeline.Defaults.{groups_or_default-GroupsLaws}

-- What the default groups keep, and the order that they give.
has-named_tags :
    (k : String) (obs : List Object)
    → has k (named_tags obs) ≡ (not (k == "") && has k (tags_of obs))
unfolding has
has-named_tags k [] = ground arith
has-named_tags k (ob ∷ obs) =
    let tag = get_text "tag" ob in
    ground (arith, has-named_tags k obs, eq_iff tag k, eq_iff tag "", eq_iff k "")

module _ (o : Outside) where
  default-HasNoEmpty : (t : Translation) → HasNoEmpty (generate_default_groups o t).0
  unfolding generate_default_groups default_groups_of with_selector has translate_select_group
      get_text get object_of
  default-HasNoEmpty t = go (sort_texts t.proxy_tags)
    where
      go : (all : List String) → HasNoEmpty (groups_of o all t).0
      go [] = refl
      go (x ∷ xs) =
          let checked = filter_health_check_proxies (x ∷ xs) t in
          elim (Bool-cases (leb 2 (length checked))) [
            | inl e ↦ rw (e, (url_test-tag o "Auto" checked empty t).0) refl
            | inr e ↦ rw e refl
          ]

  groups_or_default-HasNoEmpty :
      (groups : List Object) (t : Translation)
      → HasNoEmpty groups
      → HasNoEmpty (groups_or_default o (groups, t)).0
  unfolding groups_or_default
  groups_or_default-HasNoEmpty groups t h = elim (Bool-cases (is_empty t.group_tag_order)) [
    | inl e ↦ rw e (default-HasNoEmpty t)
    | inr e ↦ rw e h
  ]

names_of-no_empty : (ps : List Object) → has "" (names_of ps) ≡ false
unfolding has
names_of-no_empty [] = refl
names_of-no_empty (p ∷ ps) = ground (arith, names_of-no_empty ps)

-- What follows of the outbounds, for a configuration with none before.
pub record OutboundsLaws (t t' : Translation) : Type 0 where
  pub members :
      All
        (λ ob. HasKnownMembers (direct_outbound ∷ t'.config.outbounds) (get "outbounds" ob))
        t'.config.outbounds
  pub first : IsReference (IsOutbound (direct_outbound ∷ t'.config.outbounds)) (first_group_tag t')
  pub route : t'.config.route ≡ t.config.route
  pub terminal : t'.dns_terminal_rules ≡ t.dns_terminal_rules

-- A text that names a proxy or a group names an outbound.
module _ (proxies groups : List Object) (known : StringSet)
    (a : (k : String) → has k known ≡ true → has k (tags_of proxies) ≡ true)
    (n : has "" (tags_of proxies) ≡ false) (m : HasNoEmpty groups) where
  Resolves-IsOutbound :
      (k : String) → Resolves known groups k → IsOutbound (direct_outbound ∷ proxies ++ groups) k
  unfolding IsOutbound has get_text get object_of
  Resolves-IsOutbound k h = elim (Bool-cases (k == "DIRECT")) [
    | inl e ↦ ground (arith, e)
    | inr e ↦ ground (
      arith,
      has-named_tags k (proxies ++ groups),
      has-tags_of-append k proxies groups,
      a k,
      eq_iff k "",
      n,
      m,
      h,
      e,
    )
  ]

module _ (P : String → Type 0) (obs : List Object)
    (to : (k : String) → P k → IsOutbound obs k) where
  texts-HasKnownMembers :
      (v : Option Value) → All P (as_strs v) → as_strs v ≢ [] → HasKnownMembers obs v
  unfolding outbound_members
  texts-HasKnownMembers none h n = tt
  texts-HasKnownMembers (some (strs xs)) h n = (xs, refl, All-mono P (IsOutbound obs) to xs h)
  texts-HasKnownMembers (some v) h n = absurd (n refl)

  group-HasKnownMembers : (ob : Object) → HasMembers P ob → HasKnownMembers obs (get "outbounds" ob)
  unfolding get_texts
  group-HasKnownMembers ob (h, n) = texts-HasKnownMembers (get "outbounds" ob) h n

proxy-HasKnownMembers :
    (obs : List Object) (ob : Object) → HasNoMembers ob → HasKnownMembers obs (get "outbounds" ob)
proxy-HasKnownMembers obs ob h = subst (HasKnownMembers obs) (sym h) tt

abbrev HasKnown : List Object → Object → Type 0
HasKnown obs ob = HasKnownMembers (direct_outbound ∷ obs) (get "outbounds" ob)

module _ (before proxies groups : List Object) (e : before ≡ []) where
  joined : before ++ proxies ++ groups ≡ proxies ++ groups
  joined = rw e refl

-- A group in the order is one of the groups.
ordered_Resolves :
    (known : StringSet) (groups : List Object) (before order : List String)
    → before ≡ []
    → ((j : String) → has j order ≡ true → (has j before || has j (tags_of groups)) ≡ true)
    → (j : String) → has j order ≡ true
    → Resolves known groups j
unfolding has
ordered_Resolves known groups before order e f j h = ground (arith, f j h, e)

-- A known proxy is the tag of a translated one.
known_name :
    (ps : List Object) (t : Translation) (r : List Object × Translation) (t' : Translation)
    → VisibleLaws ps t r
    → t.proxy_tags ≡ []
    → t'.proxy_tags ≡ r.1.proxy_tags
    → (k : String) → has k t'.proxy_tags ≡ true
    → has k (tags_of r.0) ≡ true
unfolding has
known_name ps t r t' v none_yet same k h =
    ground (arith, v.known k, v.same_names, none_yet, same, h)

module _ (o : Outside) (cfg : RawConfig) where
  -- On a state without outbounds, groups and proxies, every member of an outbound that `translate_outbounds` gives is
  -- an outbound of it or `DIRECT`, and so is the first group, if there is one; the route and the rules kept for the
  -- end stay.
  pub translate_outbounds-OutboundsLaws :
      (t : Translation)
      → t.config.outbounds ≡ []
      → t.group_tag_order ≡ []
      → t.proxy_tags ≡ []
      → OutboundsLaws t (translate_outbounds o cfg t)
  unfolding translate_outbounds collect_ech_query_servers first_group_tag
  translate_outbounds-OutboundsLaws t no_outbounds no_groups no_proxies =
      let r = translate_proxies o cfg.proxy cfg.global_fingerprint t in
      let v = translate_proxies-VisibleLaws o cfg.global_fingerprint cfg.proxy t in
      let t₂ = collect_ech_query_servers r.0 r.1 in
      let q = translate_groups o cfg.proxy_group t₂ in
      let g =
        groups_or_default-GroupsLaws o t₂ q.1 q.0
          (translate_groups-GroupsLaws o cfg.proxy_group t₂) in
      let named =
        groups_or_default-HasNoEmpty o q.0 q.1 (translate_groups-HasNoEmpty o cfg.proxy_group t₂) in
      let groups = (groups_or_default o q).0 in
      let t₃ = (groups_or_default o q).1 in
      let obs = r.0 ++ groups in
      let same =
        joined t₃.config.outbounds r.0 groups (
          ap (λ (c : SingboxConfig). c.outbounds) (g.same_config ∙ v.frame.config)
          ∙ no_outbounds) in
      let known = λ (k : String) (h : has k t₃.proxy_tags ≡ true).
        known_name cfg.proxy t r t₃ v no_proxies g.same_proxies k h in
      let to =
        Resolves-IsOutbound r.0 groups t₃.proxy_tags known
          (subst (λ tags. has "" tags ≡ false) (sym v.same_names) (names_of-no_empty cfg.proxy))
          named in
      let P = Resolves t₃.proxy_tags groups in
      let order =
        first_or_empty-holds (IsReference (IsOutbound (direct_outbound ∷ obs))) t₃.group_tag_order
          (λ j h. inr (
            to j (
              ordered_Resolves t₃.proxy_tags groups t₂.group_tag_order t₃.group_tag_order
                (v.frame.order ∙ no_groups) g.ordered j h)))
          (inl refl) in
      record {
        members =
            subst (λ x. All (HasKnown x) x) (sym same)
              (All-append (HasKnown obs) r.0 groups
                (All-mono HasNoMembers (HasKnown obs)
                  (proxy-HasKnownMembers (direct_outbound ∷ obs)) r.0 v.no_groups)
                (All-mono (HasMembers P) (HasKnown obs)
                  (group-HasKnownMembers P (direct_outbound ∷ obs) to) groups g.members));
        first =
            subst
              (λ x.
                IsReference (IsOutbound (direct_outbound ∷ x)) (first_or_empty t₃.group_tag_order))
              (sym same) order;
        route = ap (λ (c : SingboxConfig). c.route) (g.same_config ∙ v.frame.config);
        terminal = g.same_terminal ∙ v.frame.terminal;
      }
