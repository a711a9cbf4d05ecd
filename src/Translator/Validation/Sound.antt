-- ===== src/Translator/Validation/Sound.antt =====
-- What `validate` of translator/validation.go accepts.
use cff_core.Base.{
  String, Bool, true, false, not, ◌&&◌, ◌||◌, List, [], ◌∷◌, Option, none, some, ◌==◌,
  if◌then◌else◌, ◌≡◌, refl, arith, All, All-mono, Bool-cases, Option-cases, inl, inr, eq_iff,
  eq_refl, ◌⊎◌,
}
use cff_core.Base.StringSet.{StringSet, has, has-insert}
use cff_core.Value.{Value, Object, get, get_text}
use cff_core.Translator.State.{Translation, Dns}
use cff_core.Translator.Validation.{
  Invalid, Checked, valid, invalid, first_error, collect_tag, collect_from, collect_outbound_tags,
  outbound_members, check_known, check_reference, check_raw, check_group, validate_group_members,
  server_tags, check_detour, check_server, or_else, validate_dns_references, validate_with,
  validate,
}

-- The tags of the objects that have one, in order.
abbrev pub named_tags : List Object → List String
named_tags [] = []
named_tags (ob ∷ obs) =
    let rest = named_tags obs in
    let tag = get_text "tag" ob in if tag == "" then rest else tag ∷ rest

unfoldable pub IsDistinct : List String → Type 0
IsDistinct [] = Unit
IsDistinct (x ∷ xs) = (has x xs ≡ false) × IsDistinct xs

first_error-All {ℓ} :
    {A : Type ℓ} (check : A → Option Invalid) (xs : List A)
    → first_error check xs ≡ none
    → All (λ x. check x ≡ none) xs
unfolding first_error
first_error-All check [] h = tt
first_error-All check (x ∷ xs) h = elim (Option-cases (check x)) [
  | inl e ↦ (e, first_error-All check xs (rw (e, first_error) at h))
  | inr (b, e) ↦ cc (rw (e, first_error) at h)
]

-- What is known of a tag that is to come: it is not one of those before.
unfoldable pub was_seen : Bool × StringSet → String → Bool
unfolding has
was_seen (direct_seen, tags) k = if k == "DIRECT" then direct_seen else has k tags

pub record CollectLaws (obs : List Object) (s : Bool × StringSet) (tags : StringSet) : Type 0 where
  pub distinct : IsDistinct (named_tags obs)
  pub fresh : (k : String) → has k (named_tags obs) ≡ true → was_seen s k ≡ false
  pub known :
      (k : String) → has k tags ≡ (has k s.1 || (not (k == "DIRECT") && has k (named_tags obs)))

pub record StepLaws (tag : String) (s s' : Bool × StringSet) : Type 0 where
  pub unseen : (tag == "") ≡ false → was_seen s tag ≡ false
  pub seen : (k : String) → was_seen s' k ≡ (was_seen s k || (not (tag == "") && tag == k))
  pub known :
      (k : String)
      → has k s'.1 ≡ (has k s.1 || (not (k == "DIRECT") && (not (tag == "") && tag == k)))

pub collect_tag-StepLaws :
    (tag : String) (s s' : Bool × StringSet) → collect_tag tag s ≡ valid s' → StepLaws tag s s'
unfolding collect_tag was_seen
collect_tag-StepLaws tag (d, tags) (d', tags') h = record {
  unseen = ground arith;
  seen = λ k.
      ground (arith, eq_iff tag k, eq_iff k "DIRECT", eq_iff tag "DIRECT", has-insert k tag tags);
  known = λ k.
      ground (arith, eq_iff tag k, eq_iff k "DIRECT", eq_iff tag "DIRECT", has-insert k tag tags);
}

pub Checked-cases {ℓ} :
    {A : Type ℓ} (c : Checked A) → ((a : A) × (c ≡ valid a)) ⊎ ((e : Invalid) × (c ≡ invalid e))
Checked-cases (valid a) = inl (a, refl)
Checked-cases (invalid e) = inr (e, refl)

cons-CollectLaws :
    (ob : Object) (obs : List Object) (s s' : Bool × StringSet) (tags : StringSet)
    → StepLaws (get_text "tag" ob) s s'
    → CollectLaws obs s' tags
    → CollectLaws (ob ∷ obs) s tags
unfolding has IsDistinct
cons-CollectLaws ob obs s s' tags l c =
    let tag = get_text "tag" ob in
    elim (Bool-cases (tag == "")) [
      | inl e ↦ record {
        distinct = rw e c.distinct;
        fresh = λ k h. ground (arith, c.fresh k, l.seen k);
        known = λ k. ground (arith, c.known k, l.known k);
      }
      | inr e ↦ record {
        distinct = rw e (ground (arith, c.fresh tag, l.seen tag, eq_refl tag), c.distinct);
        fresh = λ k h. ground (arith, eq_iff tag k, c.fresh k, l.seen k, l.unseen e);
        known = λ k. ground (arith, c.known k, l.known k);
      }
    ]

pub collect_from-CollectLaws :
    (obs : List Object) (s : Bool × StringSet) (tags : StringSet)
    → collect_from obs s ≡ valid tags
    → CollectLaws obs s tags
unfolding collect_from has IsDistinct
collect_from-CollectLaws [] (d, ts) tags h = record {
  distinct = tt;
  fresh = λ k e. ground arith;
  known = λ k. ground arith;
}
collect_from-CollectLaws (ob ∷ obs) s tags h =
    elim (Checked-cases (collect_tag (get_text "tag" ob) s)) [
      | inl (s', e) ↦
          cons-CollectLaws ob obs s s' tags (collect_tag-StepLaws _ s s' e)
            (collect_from-CollectLaws obs s' tags (rw (e, collect_from) at h))
      | inr (b, e) ↦ cc (rw (e, collect_from) at h)
    ]

-- `DIRECT`, which is built in, or the tag of one of the outbounds.
unfoldable pub IsOutbound : List Object → String → Type 0
unfolding has
IsOutbound obs k = (k == "DIRECT" || has k (named_tags obs)) ≡ true

abbrev pub IsServer : List Object → String → Type 0
IsServer servers k = has k (server_tags servers) ≡ true

-- A reference that is absent or resolves.
abbrev pub IsReference : (String → Type 0) → String → Type 0
IsReference P k = ((k == "") ≡ true) ⊎ P k

abbrev pub HasKnownMembers : List Object → Option Value → Type 0
HasKnownMembers obs none = Unit
HasKnownMembers obs (some raw) =
    (members : List String) × (outbound_members raw ≡ some members) × All (IsOutbound obs) members

abbrev pub HasDnsReferences : List Object → Option Dns → Type 0
HasDnsReferences obs none = Unit
HasDnsReferences obs (some dns) =
    All (λ srv. IsReference (IsOutbound obs) (get_text "detour" srv)) dns.servers
    × All (λ rule. IsReference (IsServer dns.servers) (get_text "server" rule)) dns.rules
    × IsReference (IsServer dns.servers) dns.final

-- What sing-box needs of the configuration to start.
pub record StartLaws (t : Translation) : Type 0 where
  pub distinct : IsDistinct (named_tags t.config.outbounds)
  pub members :
      All (λ ob. HasKnownMembers t.config.outbounds (get "outbounds" ob)) t.config.outbounds
  pub final : IsReference (IsOutbound t.config.outbounds) t.config.route.final
  pub dns : HasDnsReferences t.config.outbounds t.config.dns

module _ (obs : List Object) (tags : StringSet)
    (c : CollectLaws obs (false, "DIRECT" ∷ []) tags) where
  known-IsOutbound : (k : String) → has k tags ≡ true → IsOutbound obs k
  unfolding IsOutbound has
  known-IsOutbound k h = ground (arith, c.known k, eq_iff k "DIRECT", eq_iff "DIRECT" k)

  check_known-IsOutbound :
      (e : Invalid) (k : String) → check_known tags e k ≡ none → IsOutbound obs k
  unfolding check_known
  check_known-IsOutbound e k h = known-IsOutbound k (ground arith)

  raw-HasKnownMembers :
      (tag : String) (raw : Option Value) → check_raw tags tag raw ≡ none → HasKnownMembers obs raw
  raw-HasKnownMembers tag none h = tt
  raw-HasKnownMembers tag (some raw) h = elim (Option-cases (outbound_members raw)) [
    | inl e ↦ cc (rw e at h)
    | inr (ms, e) ↦ (
      ms,
      e,
      All-mono _ (IsOutbound obs) (λ m k. check_known-IsOutbound _ m k) ms
          (first_error-All _ ms (rw e at h)),
    )
  ]

check_reference-IsReference :
    (P : String → Type 0) (tags : StringSet) (e : Invalid) (k : String)
    → ((j : String) → has j tags ≡ true → P j)
    → check_reference tags e k ≡ none
    → IsReference P k
unfolding check_reference
check_reference-IsReference P tags e k f h = elim (Bool-cases (k == "")) [
  | inl n ↦ inl n
  | inr n ↦ inr (f k (ground arith))
]

or_else-none : (a b : Option Invalid) → or_else a b ≡ none → (a ≡ none) × (b ≡ none)
or_else-none none b h = (refl, h)
or_else-none (some e) b h = cc

module _ (obs : List Object) (tags : StringSet)
    (c : CollectLaws obs (false, "DIRECT" ∷ []) tags) where
  validate_dns-HasDnsReferences :
      (dns : Option Dns) → validate_dns_references tags dns ≡ none → HasDnsReferences obs dns
  unfolding validate_dns_references check_detour check_server
  validate_dns-HasDnsReferences none h = tt
  validate_dns-HasDnsReferences (some dns) h =
      let servers = server_tags dns.servers in
      let (detours, h') = or_else-none _ _ h in
      let (rules, final) = or_else-none _ _ h' in
      (
        All-mono _ _
            (λ srv.
              check_reference-IsReference (IsOutbound obs) tags _ _ (known-IsOutbound obs tags c))
            dns.servers (first_error-All _ dns.servers detours),
        All-mono _ _
            (λ rule. check_reference-IsReference (IsServer dns.servers) servers _ _ (λ j k. k))
            dns.rules (first_error-All _ dns.rules rules),
        check_reference-IsReference (IsServer dns.servers) servers _ _ (λ j k. k) final,
      )

validate_with-StartLaws :
    (tags : StringSet) (t : Translation)
    → CollectLaws t.config.outbounds (false, "DIRECT" ∷ []) tags
    → (validate_with tags t).0 ≡ none
    → StartLaws t
unfolding validate_with validate_group_members check_group
validate_with-StartLaws tags t c h =
    let obs = t.config.outbounds in
    elim (Option-cases (validate_group_members tags obs)) [
      | inl e ↦
          let (final, dns) = or_else-none _ _ (rw e at h) in
          record {
            distinct = c.distinct;
            members =
                All-mono _ _
                  (λ ob. raw-HasKnownMembers obs tags c (get_text "tag" ob) (get "outbounds" ob))
                  obs (first_error-All _ obs e);
            final =
                check_reference-IsReference (IsOutbound obs) tags _ _ (known-IsOutbound obs tags c)
                  final;
            dns = validate_dns-HasDnsReferences obs tags c t.config.dns dns;
          }
      | inr (b, e) ↦ cc (rw e at h)
    ]

-- Where `validate` reports no error, the named outbounds have distinct tags, every group's members are texts
-- that name an outbound or the built-in `DIRECT`, and so does `route.final`, unless it is empty; every DNS
-- server's detour is empty or names an outbound, and every DNS rule's server and `dns.final` is empty or names a DNS server.
pub validate-StartLaws : (t : Translation) → (validate t).0 ≡ none → StartLaws t
unfolding validate collect_outbound_tags
validate-StartLaws t h = elim (Checked-cases (collect_outbound_tags t.config.outbounds)) [
  | inl (tags, e) ↦
      validate_with-StartLaws tags t (collect_from-CollectLaws _ _ tags e) (rw (e, validate) at h)
  | inr (b, e) ↦ cc (rw (e, validate) at h)
]
