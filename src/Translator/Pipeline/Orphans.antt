-- ===== src/Translator/Pipeline/Orphans.antt =====
-- The DNS settings after the rules of undefined rule sets are removed.
use cff_core.Base.{
  String, false, List, [], ◌∷◌, Option, some, none, ◌==◌, is_empty, filter, ◌≡◌, refl, All,
  Bool-cases, inl, inr,
}
use cff_core.Base.StringSet.{StringSet, has}
use cff_core.Value.{Value, Object, strs, get, put, get_text, get_texts}
use cff_core.Value.Laws.{get-put}
use cff_core.Translator.State.{Translation, Dns}
use cff_core.Translator.Assemble.{
  filter_rule_sets, filter_sub_rules, filter_orphan_rules, append_rule, filter_dns_rules, has_some,
  as_objs, final_or,
}
use cff_core.Translator.Validation.Sound.{IsServer, IsReference, HasDnsReferences}
use cff_core.Translator.Dns.FakeIp.Laws.{HasServer}

-- The removal of rules of undefined rule sets keeps a property of the servers of the rules that are left.
module _ (P : String → Type 0) (defined : StringSet) where
  put-HasServer :
      (key : String) (v : Value) (rule : Object)
      → (key == "server") ≡ false
      → HasServer P rule
      → HasServer P (put key v rule)
  unfolding get_text
  put-HasServer key v rule h p = rw (get-put "server" key v rule, h) p

  sub_rules-HasServer :
      (rule : Object) (t : Translation)
      → HasServer P rule
      → HasServer P (filter_sub_rules defined rule t).0
  unfolding filter_sub_rules
  sub_rules-HasServer rule t h = elim (Bool-cases (has_some (as_objs (get "rules" rule)))) [
    | inl e ↦ rw e (put-HasServer "rules" _ rule refl h)
    | inr e ↦ rw e h
  ]

  appended-HasServer :
      (rule : Object) (rest : List Object)
      → HasServer P rule
      → All (HasServer P) rest
      → All (HasServer P) (append_rule (filter_rule_sets defined rule) rest)
  unfolding filter_rule_sets
  appended-HasServer rule rest h hs =
      let known = filter (λ tag. has tag defined) (get_texts "rule_set" rule) in
      elim (Bool-cases (is_empty (get_texts "rule_set" rule))) [
        | inl e ↦ rw e (h, hs)
        | inr e ↦ elim (Bool-cases (is_empty known)) [
          | inl k ↦ rw (e, k) hs
          | inr k ↦ rw (e, k) (put-HasServer "rule_set" (strs known) rule refl h, hs)
        ]
      ]

  orphans-HasServer :
      (rules : List Object) (t : Translation)
      → All (HasServer P) rules
      → All (HasServer P) (filter_orphan_rules defined rules t).0
  unfolding filter_orphan_rules
  orphans-HasServer [] t h = tt
  orphans-HasServer (rule ∷ rules) t (h, hs) =
      appended-HasServer _ _ (sub_rules-HasServer rule t h) (orphans-HasServer rules _ hs)

pub filtered-HasDnsReferences :
    (obs : List Object) (defined : StringSet) (dns : Option Dns) (t : Translation)
    → HasDnsReferences obs dns
    → HasDnsReferences obs (filter_dns_rules defined dns t).0
unfolding filter_dns_rules
filtered-HasDnsReferences obs defined none t h = tt
filtered-HasDnsReferences obs defined (some dns) t (detours, rules, final) = (
  detours,
  orphans-HasServer (IsReference (IsServer dns.servers)) defined dns.rules t rules,
  final,
)

pub final_or-IsReference :
    (P : String → Type 0) (final tag : String)
    → P "DIRECT"
    → IsReference P final
    → IsReference P tag
    → IsReference P (final_or final tag)
unfolding final_or
final_or-IsReference P final tag d f g = elim (Bool-cases (final == "")) [
  | inl e ↦ elim (Bool-cases (tag == "")) [ inl h ↦ rw (e, h) (inr d) | inr h ↦ rw (e, h) g ]
  | inr e ↦ rw e f
]
