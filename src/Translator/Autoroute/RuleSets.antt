-- ===== src/Translator/Autoroute/RuleSets.antt =====
-- The rule sets and outbounds that the route rules of translator/autoroute.go name.
use cff_core.Base.{
  String, true, List, [], ◌∷◌, ◌==◌, is_some, if◌then◌else◌, ◌≡◌, refl, All, All-append, All-mono,
  arith, Bool-cases, inl, inr, ◌⊎◌, eq_refl,
}
use cff_core.Base.Text.{◌+++◌}
use cff_core.Base.StringSet.{has}
use cff_core.Outside.{Outside}
use cff_core.Value.{Object, strs, bool, get, get_text, get_texts, object_of}
use cff_core.Translator.State.{Translation, warn, first_group_tag}
use cff_core.Translator.RawConfig.{RawConfig}
use cff_core.Translator.Rule.{ensure_rule_set_def, register_rule_set, find_def}
use cff_core.Translator.Autoroute.{
  warn_count, warn_unsupported_routing, add_route_rule, route_rule, rule_set_rule, cn_services,
  overseas_ai_url, generic_cc_tlds, ensure_and_rule, add_services, generate_cn_routes,
  generate_country_routes, translate_rules,
}

-- A rule whose rule sets have definitions, and whose outbound is `DIRECT` or this one.
pub record IsRouted (defs : List (String × Object)) (proxy : String) (rule : Object) : Type 0 where
  pub defined : All (λ tag. is_some (find_def tag defs) ≡ true) (get_texts "rule_set" rule)
  pub outbound : (get_text "outbound" rule ≡ "DIRECT") ⊎ (get_text "outbound" rule ≡ proxy)

pub record AreRouted (proxy : String) (t : Translation) : Type 0 where
  pub routed : All (IsRouted t.rule_set_defs proxy) t.config.route.rules

-- A definition stays when another is put in front.
more-IsRouted :
    (defs : List (String × Object)) (k : String) (def : Object) (proxy : String) (rule : Object)
    → IsRouted defs proxy rule
    → IsRouted ((k, def) ∷ defs) proxy rule
unfolding find_def
more-IsRouted defs k def proxy rule l = record {
  defined = All-mono _ _ (λ tag h. ground (arith, h)) (get_texts "rule_set" rule) l.defined;
  outbound = l.outbound;
}

register_rule_set-AreRouted :
    (proxy tag url : String) (t : Translation)
    → AreRouted proxy t
    → AreRouted proxy (register_rule_set tag url t)
      × (is_some (find_def tag (register_rule_set tag url t).rule_set_defs) ≡ true)
unfolding register_rule_set find_def
register_rule_set-AreRouted proxy tag url t h =
    elim (Bool-cases (is_some (find_def tag t.rule_set_defs))) [
      | inl e ↦ rw e (h, e)
      | inr e ↦ rw e (
        record {
          routed =
              All-mono _ _ (λ rule. more-IsRouted t.rule_set_defs tag _ proxy rule)
                t.config.route.rules h.routed;
        },
        ground (arith, eq_refl tag),
      )
    ]

module _ (proxy : String) where
  -- `DIRECT`, or the tag of the proxies.
  abbrev IsTarget : String → Type 0
  IsTarget outbound = (outbound ≡ "DIRECT") ⊎ (outbound ≡ proxy)

  add_route_rule-AreRouted :
      (rule : Object) (t : Translation)
      → AreRouted proxy t
      → IsRouted t.rule_set_defs proxy rule
      → AreRouted proxy (add_route_rule rule t)
  unfolding add_route_rule
  add_route_rule-AreRouted rule t h r = record {
    routed =
        All-append (IsRouted t.rule_set_defs proxy) t.config.route.rules (rule ∷ []) h.routed
          (r, tt);
  }

  suffix-IsRouted :
      (defs : List (String × Object)) (suffix outbound : String)
      → IsTarget outbound
      → IsRouted defs proxy (route_rule "domain_suffix" (strs (suffix ∷ [])) outbound)
  unfolding route_rule object_of get_text get_texts get
  suffix-IsRouted defs suffix outbound o = record { defined = tt; outbound = o }

  private-IsRouted :
      (defs : List (String × Object))
      → IsRouted defs proxy (route_rule "ip_is_private" (bool true) "DIRECT")
  unfolding route_rule object_of get_text get_texts get
  private-IsRouted defs = record { defined = tt; outbound = inl refl }

  rule_set_rule-AreRouted :
      (tag outbound : String) (t : Translation)
      → IsTarget outbound
      → AreRouted proxy t × (is_some (find_def tag t.rule_set_defs) ≡ true)
      → AreRouted proxy (rule_set_rule tag outbound t)
  unfolding rule_set_rule route_rule object_of get_text get_texts get
  rule_set_rule-AreRouted tag outbound t o (h, d) =
      add_route_rule-AreRouted _ t h (record { defined = (d, tt); outbound = o })

  warn_count-AreRouted {ℓ} :
      {A : Type ℓ} (xs : List A) (msg : String) (t : Translation)
      → AreRouted proxy t
      → AreRouted proxy (warn_count xs msg t)
  unfolding warn_count warn
  warn_count-AreRouted [] msg t h = h
  warn_count-AreRouted (x ∷ xs) msg t h = record { routed = h.routed }

module _ (o : Outside) (proxy : String) where
  ensure_and_rule-AreRouted :
      (tag type name outbound : String) (t : Translation)
      → IsTarget proxy outbound
      → AreRouted proxy t
      → AreRouted proxy (ensure_and_rule o tag type name outbound t)
  unfolding ensure_and_rule ensure_rule_set_def
  ensure_and_rule-AreRouted tag type name outbound t target h =
      rule_set_rule-AreRouted proxy tag outbound _ target
        (register_rule_set-AreRouted proxy tag _ t h)

  add_services-AreRouted :
      (names : List String) (t : Translation)
      → AreRouted proxy t
      → AreRouted proxy (add_services o names t)
  unfolding add_services
  add_services-AreRouted [] t h = h
  add_services-AreRouted (name ∷ names) t h =
      add_services-AreRouted names _
        (ensure_and_rule-AreRouted ("geosite-" +++ name) "geosite" name "DIRECT" t (inl refl) h)

  generate_cn_routes-AreRouted :
      (t : Translation) → AreRouted proxy t → AreRouted proxy (generate_cn_routes o proxy t)
  unfolding generate_cn_routes
  generate_cn_routes-AreRouted t h =
      let overseas =
        rule_set_rule-AreRouted proxy "overseas-ai" proxy _ (inr refl)
          (register_rule_set-AreRouted proxy "overseas-ai" overseas_ai_url t h) in
      let foreign =
        ensure_and_rule-AreRouted "geosite-geolocation-!cn" "geosite" "geolocation-!cn" proxy _
          (inr refl) (add_services-AreRouted cn_services _ overseas) in
      let sites =
        ensure_and_rule-AreRouted "geosite-cn" "geosite" "cn" "DIRECT" _ (inl refl) foreign in
      add_route_rule-AreRouted proxy _ _
        (ensure_and_rule-AreRouted "geoip-cn" "geoip" "cn" "DIRECT" _ (inl refl) sites)
        (suffix-IsRouted proxy _ ".cn" "DIRECT" (inl refl))

  generate_country_routes-AreRouted :
      (cc : String) (t : Translation)
      → AreRouted proxy t
      → AreRouted proxy (generate_country_routes o cc t)
  unfolding generate_country_routes
  generate_country_routes-AreRouted cc t h =
      let addresses =
        ensure_and_rule-AreRouted ("geoip-" +++ cc) "geoip" cc "DIRECT" t (inl refl) h in
      elim (Bool-cases (has cc generic_cc_tlds)) [
        | inl e ↦ rw e addresses
        | inr e ↦ rw e (
            add_route_rule-AreRouted proxy _ _ addresses
              (suffix-IsRouted proxy _ ("." +++ cc) "DIRECT" (inl refl)))
      ]

-- `firstGroupTag`, or `DIRECT` where there is no group.
abbrev pub proxy_of : Translation → String
proxy_of t = if first_group_tag t == "" then "DIRECT" else first_group_tag t

module _ (o : Outside) where
  -- For every country, each route rule that `translate_rules` adds names rule sets that it defines, and leads to
  -- `DIRECT` or to the first group; rules of which that held keep it.
  pub translate_rules-AreRouted :
      (cfg : RawConfig) (t : Translation)
      → AreRouted (proxy_of t) t
      → AreRouted (proxy_of t) (translate_rules o cfg t)
  unfolding translate_rules warn_unsupported_routing
  translate_rules-AreRouted cfg t h =
      let proxy = proxy_of t in
      let warned = warn_count-AreRouted proxy cfg.rule_provider _ _ (
        warn_count-AreRouted proxy cfg.proxy_provider _ _
          (warn_count-AreRouted proxy cfg.rule _ t h)) in
      let private =
        ensure_and_rule-AreRouted o proxy "geosite-private" "geosite" "private" "DIRECT" _
          (inl refl) (add_route_rule-AreRouted proxy _ _ warned (private-IsRouted proxy _)) in
      elim (Bool-cases (t.country == "cn")) [
        | inl e ↦ rw e (generate_cn_routes-AreRouted o proxy _ private)
        | inr e ↦ rw e (generate_country_routes-AreRouted o proxy t.country _ private)
      ]
