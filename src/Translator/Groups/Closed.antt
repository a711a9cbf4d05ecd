-- ===== src/Translator/Groups/Closed.antt =====
-- The members of the groups that `translateGroups` of translator/group.go returns, and their order.
use cff_core.Base.{
  String, true, ◌||◌, List, [], ◌∷◌, ◌≡◌, ◌≢◌, refl, ◌∙◌, sym, subst, All, All-mono, arith, ◌==◌,
  eq_iff,
}
use cff_core.Base.StringSet.{StringSet, has, union, has-insert, has-union, has-append}
use cff_core.Outside.{Outside}
use cff_core.Value.{Object, get_text, get_texts}
use cff_core.Translator.State.{Translation}
use cff_core.Translator.Groups.{
  translate_each, populate_group_tags, order_group, order_groups, warn_no_groups, translate_groups,
}
use cff_core.Translator.Groups.Cleanup.{Cleaned, valid_tags, cleanup_group_outbounds}
use cff_core.Translator.Groups.Cleanup.Laws.{IsCovered, LoopLaws, cleanup_group_outbounds-LoopLaws}
use cff_core.Translator.Groups.Cleanup.Pass.{IsClosed, tags_of}
use cff_core.Translator.Groups.Kept.{has_single, Keeps, Keeps-refl, warn-Keeps, each-Keeps}

order_group-has :
    (name : String) (tr : StringSet) (t : Translation) (j : String)
    → has j (order_group name tr t).group_tag_order ≡ true
    → (has j t.group_tag_order || has j tr) ≡ true
unfolding order_group
order_group-has name tr t j h =
    ground (arith, has-append j t.group_tag_order (name ∷ []), has_single j name, eq_iff name j)

order_group-proxy_tags :
    (name : String) (tr : StringSet) (t : Translation)
    → (order_group name tr t).proxy_tags ≡ t.proxy_tags
unfolding order_group
order_group-proxy_tags name tr t = ground arith

-- The order of the groups grows by translated names only.
order_groups-has :
    (gs : List Object) (tr : StringSet) (t : Translation) (j : String)
    → has j (order_groups gs tr t).group_tag_order ≡ true
    → (has j t.group_tag_order || has j tr) ≡ true
unfolding order_groups
order_groups-has [] tr t j h = ground arith
order_groups-has (g ∷ gs) tr t j h = ground (
  arith,
  order_group-has (get_text "name" g) tr t j,
  order_groups-has gs tr (order_group (get_text "name" g) tr t) j h,
)

order_groups-proxy_tags :
    (gs : List Object) (tr : StringSet) (t : Translation)
    → (order_groups gs tr t).proxy_tags ≡ t.proxy_tags
unfolding order_groups
order_groups-proxy_tags [] tr t = refl
order_groups-proxy_tags (g ∷ gs) tr t =
    order_groups-proxy_tags gs tr (order_group (get_text "name" g) tr t)
    ∙ order_group-proxy_tags (get_text "name" g) tr t

order_groups-frame :
    (gs : List Object) (tr : StringSet) (t : Translation)
    → ((order_groups gs tr t).config ≡ t.config)
      × ((order_groups gs tr t).dns_terminal_rules ≡ t.dns_terminal_rules)
unfolding order_groups order_group
order_groups-frame [] tr t = (refl, refl)
order_groups-frame (g ∷ gs) tr t =
    let (a, b) = order_groups-frame gs tr (order_group (get_text "name" g) tr t) in
    (a ∙ ground arith, b ∙ ground arith)

-- A name that an outbound may refer to: a proxy, a group that is there, or DIRECT.
abbrev pub Resolves : StringSet → List Object → String → Type 0
Resolves proxies groups m = (m == "DIRECT" || has m proxies || has m (tags_of groups)) ≡ true

abbrev pub HasMembers : (String → Type 0) → Object → Type 0
HasMembers P ob = All P (get_texts "outbounds" ob) × (get_texts "outbounds" ob ≢ [])

Resolves-valid :
    (proxies tr : StringSet) (groups : List Object)
    → IsCovered tr groups
    → (m : String) → has m (valid_tags proxies tr) ≡ true
    → Resolves proxies groups m
unfolding valid_tags has
Resolves-valid proxies tr groups c m h = ground (
  arith,
  has-insert m "DIRECT" (union tr (union proxies [])),
  has-union m tr (union proxies []),
  has-union m proxies [],
  c m,
  eq_iff "DIRECT" m,
  eq_iff m "DIRECT",
)

HasMembers-IsClosed :
    (proxies tr : StringSet) (groups obs : List Object)
    → IsCovered tr groups
    → All (IsClosed (valid_tags proxies tr)) obs
    → All (HasMembers (Resolves proxies groups)) obs
HasMembers-IsClosed proxies tr groups obs c h =
    All-mono (IsClosed (valid_tags proxies tr)) (HasMembers (Resolves proxies groups))
      (λ ob k. (
        All-mono (λ m. has m (valid_tags proxies tr) ≡ true) (Resolves proxies groups)
            (Resolves-valid proxies tr groups c) (get_texts "outbounds" ob) k.resolved,
        k.inhabited,
      ))
      obs h

warn_no_groups-Keeps : (gs : List Object) (t : Translation) → Keeps t (warn_no_groups gs t)
unfolding warn_no_groups
warn_no_groups-Keeps gs t = ground (
  arith,
  Keeps-refl t,
  warn-Keeps "no proxy groups were translated successfully; route.final will fall back to DIRECT" t,
)

-- What the translation of the groups gives.
pub record GroupsLaws (t : Translation) (groups : List Object) (t' : Translation) : Type 0 where
  pub members : All (HasMembers (Resolves t'.proxy_tags groups)) groups
  pub ordered :
      (j : String)
      → has j t'.group_tag_order ≡ true
      → (has j t.group_tag_order || has j (tags_of groups)) ≡ true
  pub same_proxies : t'.proxy_tags ≡ t.proxy_tags
  pub same_config : t'.config ≡ t.config
  pub same_terminal : t'.dns_terminal_rules ≡ t.dns_terminal_rules

-- The end of `translateGroups`, behind the cleanup.
finish-GroupsLaws :
    (gs : List Object) (t t₂ : Translation) (r : Cleaned)
    → Keeps t t₂
    → LoopLaws t₂ r
    → r.state.group_tag_order ≡ t.group_tag_order
    → GroupsLaws t r.kept (warn_no_groups gs (order_groups gs r.translated r.state))
finish-GroupsLaws gs t t₂ r kept laws same =
    let t₃ = order_groups gs r.translated r.state in
    let last = warn_no_groups-Keeps gs t₃ in
    let proxies : (warn_no_groups gs t₃).proxy_tags ≡ t₂.proxy_tags =
      last.proxy_tags ∙ order_groups-proxy_tags gs r.translated r.state ∙ laws.same_proxies in
    record {
      members =
          subst (λ p. All (HasMembers (Resolves p r.kept)) r.kept) (sym proxies)
            (HasMembers-IsClosed t₂.proxy_tags r.translated r.kept r.kept laws.covered laws.closed);
      ordered = λ j h. ground (
        arith,
        order_groups-has gs r.translated r.state j (rw last.group_tag_order at h),
        laws.covered j,
        same,
      );
      same_proxies = proxies ∙ kept.proxy_tags;
      same_config =
          last.config
          ∙ (order_groups-frame gs r.translated r.state).0
          ∙ laws.same_config
          ∙ kept.config;
      same_terminal =
          last.terminal
          ∙ (order_groups-frame gs r.translated r.state).1
          ∙ laws.same_terminal
          ∙ kept.terminal;
    }

module _ (o : Outside) where
  -- Whatever the groups are, every group that `translate_groups` returns has members, and each of them is a
  -- proxy tag, `DIRECT` or a group that it returns; the order of the groups gains only tags of returned groups, and
  -- the proxy tags, the configuration so far and the DNS rules kept for the end stay.
  pub translate_groups-GroupsLaws :
      (gs : List Object) (t : Translation)
      → GroupsLaws t (translate_groups o gs t).0 (translate_groups o gs t).1
  unfolding translate_groups
  translate_groups-GroupsLaws gs t =
      let t₁ = record t { group_tags = populate_group_tags gs t.group_tags } in
      let e = translate_each o gs [] [] t₁ in
      let (covered, kept) = each-Keeps o gs [] [] t₁ (λ j k. k) in
      let laws = cleanup_group_outbounds-LoopLaws e.0 e.1 e.2 covered in
      let kept' : Keeps t e.2 = record {
        proxy_tags = kept.proxy_tags;
        group_tag_order = kept.group_tag_order;
        config = kept.config;
        terminal = kept.terminal;
      } in
      finish-GroupsLaws gs t e.2 (cleanup_group_outbounds e.0 e.1 e.2) kept' laws
        (laws.same_order ∙ kept.group_tag_order)
