-- ===== src/Translator/Validation/Complete.antt =====
-- What `validate` of translator/validation.go has to accept.
use cff_core.Base.{
  String, Bool, true, false, List, [], ◌∷◌, Option, none, some, ◌==◌, ◌≡◌, refl, arith, All,
  All-mono, Bool-cases, inl, inr, eq_iff, eq_refl,
}
use cff_core.Base.StringSet.{StringSet, has}
use cff_core.Value.{Value, Object, get, get_text}
use cff_core.Translator.State.{Translation, Dns}
use cff_core.Translator.Validation.{
  Invalid, valid, invalid, first_error, collect_tag, collect_from, collect_outbound_tags,
  check_known, check_reference, check_raw, check_group, validate_group_members, server_tags,
  check_detour, check_server, validate_dns_references, validate_with, validate, missing_member,
}
use cff_core.Translator.Validation.Sound.{
  named_tags, IsDistinct, was_seen, CollectLaws, StepLaws, collect_tag-StepLaws, Checked-cases,
  collect_from-CollectLaws, IsOutbound, IsServer, IsReference, HasKnownMembers, HasDnsReferences,
  StartLaws,
}

-- An error of the loop's body is about a tag that was there already.
collect_tag-was_seen :
    (tag : String) (s : Bool × StringSet) (e : Invalid)
    → collect_tag tag s ≡ invalid e
    → ((tag == "") ≡ false) × (was_seen s tag ≡ true)
unfolding collect_tag was_seen
collect_tag-was_seen tag (d, tags) e h = (ground arith, ground arith)

AreUnseen : List Object → Bool × StringSet → Type 0
AreUnseen obs s = (k : String) → has k (named_tags obs) ≡ true → was_seen s k ≡ false

head_unseen :
    (ob : Object) (obs : List Object) (s : Bool × StringSet)
    → AreUnseen (ob ∷ obs) s
    → (get_text "tag" ob == "") ≡ false
    → was_seen s (get_text "tag" ob) ≡ false
unfolding AreUnseen has
head_unseen ob obs s f n = f (get_text "tag" ob) (ground (arith, eq_refl (get_text "tag" ob)))

tail-IsDistinct :
    (ob : Object) (obs : List Object)
    → IsDistinct (named_tags (ob ∷ obs))
    → IsDistinct (named_tags obs)
unfolding IsDistinct
tail-IsDistinct ob obs d = elim (Bool-cases (get_text "tag" ob == "")) [
  | inl e ↦ (rw e at d)
  | inr e ↦ (rw e at d).1
]

tail_unseen :
    (ob : Object) (obs : List Object) (s s' : Bool × StringSet)
    → IsDistinct (named_tags (ob ∷ obs))
    → AreUnseen (ob ∷ obs) s
    → StepLaws (get_text "tag" ob) s s'
    → AreUnseen obs s'
unfolding AreUnseen has IsDistinct
tail_unseen ob obs s s' d f l k h =
    let tag = get_text "tag" ob in
    elim (Bool-cases (tag == "")) [
      | inl e ↦ ground (arith, l.seen k, f k, h)
      | inr e ↦ ground (arith, l.seen k, f k, h, (rw e at d).0, eq_iff tag k)
    ]

collect_from-valid :
    (obs : List Object) (s : Bool × StringSet)
    → IsDistinct (named_tags obs)
    → AreUnseen obs s
    → (tags : StringSet) × (collect_from obs s ≡ valid tags)
unfolding collect_from
collect_from-valid [] (d, tags) _ f = (tags, refl)
collect_from-valid (ob ∷ obs) s d f = elim (Checked-cases (collect_tag (get_text "tag" ob) s)) [
  | inl (s', e) ↦
      let l = collect_tag-StepLaws (get_text "tag" ob) s s' e in
      let (tags, r) =
        collect_from-valid obs s' (tail-IsDistinct ob obs d) (tail_unseen ob obs s s' d f l) in
      (tags, rw (e, collect_from) r)
  | inr (b, e) ↦
      let (n, seen) = collect_tag-was_seen (get_text "tag" ob) s b e in
      absurd (ground (arith, head_unseen ob obs s f n, seen))
]

first_error-none {ℓ} :
    {A : Type ℓ} (check : A → Option Invalid) (xs : List A)
    → All (λ x. check x ≡ none) xs
    → first_error check xs ≡ none
unfolding first_error
first_error-none check [] h = refl
first_error-none check (x ∷ xs) (e, h) = rw (e, first_error) (first_error-none check xs h)

check_reference-none :
    (P : String → Type 0) (tags : StringSet) (e : Invalid) (k : String)
    → ((j : String) → P j → has j tags ≡ true)
    → IsReference P k
    → check_reference tags e k ≡ none
unfolding check_reference
check_reference-none P tags e k f (inl n) = rw n refl
check_reference-none P tags e k f (inr p) = ground (arith, f k p)

module _ (obs : List Object) (tags : StringSet)
    (c : CollectLaws obs (false, "DIRECT" ∷ []) tags) where
  outbound_known : (k : String) → IsOutbound obs k → has k tags ≡ true
  unfolding IsOutbound has
  outbound_known k h = ground (arith, c.known k, eq_iff k "DIRECT", eq_iff "DIRECT" k)

  check_known-none : (e : Invalid) (k : String) → IsOutbound obs k → check_known tags e k ≡ none
  unfolding check_known
  check_known-none e k h = rw (outbound_known k h) refl

  check_raw-none :
      (tag : String) (raw : Option Value) → HasKnownMembers obs raw → check_raw tags tag raw ≡ none
  check_raw-none tag none h = refl
  check_raw-none tag (some raw) (ms, e, h) = rw e (
      first_error-none (λ m. check_known tags (missing_member tag m) m) ms
        (All-mono (IsOutbound obs) _ (λ m k. check_known-none (missing_member tag m) m k) ms h))

  validate_dns-none :
      (dns : Option Dns) → HasDnsReferences obs dns → validate_dns_references tags dns ≡ none
  unfolding validate_dns_references check_detour check_server
  validate_dns-none none h = refl
  validate_dns-none (some dns) (detours, rules, final) =
      let servers = server_tags dns.servers in
      let S = IsServer dns.servers in
      rw
        (
          first_error-none (check_detour tags) dns.servers (
              All-mono _ _ (λ srv. check_reference-none (IsOutbound obs) tags _ _ outbound_known)
                dns.servers detours),
          first_error-none (check_server servers) dns.rules (
              All-mono _ _ (λ rule. check_reference-none S servers _ _ (λ j k. k)) dns.rules rules),
        )
        (check_reference-none S servers _ _ (λ j k. k) final)

validate_with-none :
    (tags : StringSet) (t : Translation)
    → CollectLaws t.config.outbounds (false, "DIRECT" ∷ []) tags
    → StartLaws t
    → (validate_with tags t).0 ≡ none
unfolding validate_with validate_group_members check_group
validate_with-none tags t c l =
    let obs = t.config.outbounds in
    rw
      (
        first_error-none (check_group tags) obs (
            All-mono _ _ (λ ob. check_raw-none obs tags c (get_text "tag" ob) (get "outbounds" ob))
              obs l.members),
        check_reference-none (IsOutbound obs) tags _ _ (outbound_known obs tags c) l.final,
      )
      (validate_dns-none obs tags c t.config.dns l.dns)

start_unseen : (obs : List Object) → AreUnseen obs (false, "DIRECT" ∷ [])
unfolding AreUnseen was_seen has
start_unseen obs k h = ground (arith, eq_iff k "DIRECT", eq_iff "DIRECT" k)

-- `validate` reports no error on a configuration that meets the laws: distinct tags, and references that resolve.
pub StartLaws-validate : (t : Translation) → StartLaws t → (validate t).0 ≡ none
unfolding validate collect_outbound_tags
StartLaws-validate t l =
    let obs = t.config.outbounds in
    let s : Bool × StringSet = (false, "DIRECT" ∷ []) in
    let (tags, e) = collect_from-valid obs s l.distinct (start_unseen obs) in
    rw (e, validate) (validate_with-none tags t (collect_from-CollectLaws obs s tags e) l)
