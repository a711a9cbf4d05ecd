-- ===== src/Translator/Validation.antt =====
-- translator/validation.go: the references that sing-box refuses to start on when they dangle.
pub mod Sound
pub mod Complete
use cff_core.Base.{
  String, Bool, true, false, not, ◌&&◌, List, [], ◌∷◌, Option, none, some, is_some, ◌==◌,
  if◌then◌else◌,
}
use cff_core.Base.StringSet.{StringSet, has, insert}
use cff_core.Base.Text.{◌+++◌}
use cff_core.Value.{Value, Items, Object, str, strs, list, nil, cons, get, get_text}
use cff_core.Translator.State.{Translation, Dns, warn}

-- The errors of `validate`, one for each message, with what the message names.
pub data Invalid : Type 0 where
  duplicate_direct : Invalid
  duplicate_tag : String → Invalid
  -- A group's `outbounds` of an unexpected type.
  unexpected_members : String → Invalid
  missing_member : String → String → Invalid
  missing_final : String → Invalid
  missing_detour : String → String → Invalid
  missing_server : String → Invalid
  missing_dns_final : String → Invalid

pub data Checked {ℓ} (A : Type ℓ) : Type ℓ where
  valid : A → Checked A
  invalid : Invalid → Checked A

-- A loop that returns the first error.
unfoldable pub first_error {ℓ} : {A : Type ℓ} → (A → Option Invalid) → List A → Option Invalid
first_error check [] = none
first_error check (x ∷ xs) = elim (check x) [ some e ↦ some e | none ↦ first_error check xs ]

-- The body of the loop of `collectOutboundTags`: `directSeen` and `tagSet`.
unfoldable pub collect_tag : String → Bool × StringSet → Checked (Bool × StringSet)
unfolding has insert
collect_tag tag (direct_seen, tags) =
    if tag == ""
    then valid (direct_seen, tags)
    else if tag == "DIRECT"
    then if direct_seen then invalid duplicate_direct else valid (true, tags)
    else if has tag tags
    then invalid (duplicate_tag tag)
    else valid (direct_seen, insert tag tags)

unfoldable pub collect_from : List Object → Bool × StringSet → Checked StringSet
unfolding get_text collect_tag
collect_from [] (direct_seen, tags) = valid tags
collect_from (ob ∷ obs) s = elim (collect_tag (get_text "tag" ob) s) [
  | valid s' ↦ collect_from obs s'
  | invalid e ↦ invalid e
]

-- `collectOutboundTags`
unfoldable pub collect_outbound_tags : List Object → Checked StringSet
unfolding collect_from
collect_outbound_tags obs = collect_from obs (false, "DIRECT" ∷ [])

unfoldable pub all_texts : Items → Option (List String)
all_texts nil = some []
all_texts (cons (str s) xs) = elim (all_texts xs) [ some rest ↦ some (s ∷ rest) | none ↦ none ]
all_texts (cons v xs) = none

-- `outboundMembers`
unfoldable pub outbound_members : Value → Option (List String)
unfolding all_texts
outbound_members (strs xs) = some xs
outbound_members (list xs) = all_texts xs
outbound_members v = none

-- `if !tagSet[k]`
unfoldable pub check_known : StringSet → Invalid → String → Option Invalid
unfolding has
check_known tags e k = if has k tags then none else some e

-- `if k != "" && !tagSet[k]`
unfoldable pub check_reference : StringSet → Invalid → String → Option Invalid
unfolding has
check_reference tags e k = if not (k == "") && not (has k tags) then some e else none

abbrev pub check_members : StringSet → String → Option (List String) → Option Invalid
check_members tags tag none = some (unexpected_members tag)
check_members tags tag (some members) =
    first_error (λ m. check_known tags (missing_member tag m) m) members

abbrev pub check_raw : StringSet → String → Option Value → Option Invalid
check_raw tags tag none = none
check_raw tags tag (some raw) = check_members tags tag (outbound_members raw)

-- The body of the loop of `validateGroupMembers`.
unfoldable pub check_group : StringSet → Object → Option Invalid
check_group tags ob = check_raw tags (get_text "tag" ob) (get "outbounds" ob)

-- `validateGroupMembers`
unfoldable pub validate_group_members : StringSet → List Object → Option Invalid
validate_group_members tags obs = first_error (check_group tags) obs

-- `validateRouteRules`
unfoldable pub validate_route_rules : StringSet → List Object → Translation → Translation
unfolding has get_text warn
validate_route_rules tags [] t = t
validate_route_rules tags (rule ∷ rules) t =
    let outbound = get_text "outbound" rule in
    let t' =
      if not (outbound == "") && not (has outbound tags)
      then warn ("rule references non-existent outbound: " +++ outbound) t
      else t in
    validate_route_rules tags rules t'

-- The tags of the DNS servers that have one.
unfoldable pub server_tags : List Object → StringSet
unfolding get_text insert
server_tags [] = []
server_tags (srv ∷ servers) =
    let rest = server_tags servers in
    let tag = get_text "tag" srv in if tag == "" then rest else insert tag rest

unfoldable pub check_detour : StringSet → Object → Option Invalid
check_detour tags srv =
    let detour = get_text "detour" srv in
    check_reference tags (missing_detour (get_text "tag" srv) detour) detour

unfoldable pub check_server : StringSet → Object → Option Invalid
check_server servers rule =
    let server = get_text "server" rule in check_reference servers (missing_server server) server

-- `if err != nil { return err }` before what is next.
abbrev pub or_else : Option Invalid → Option Invalid → Option Invalid
or_else (some e) next = some e
or_else none next = next

-- `validateDNSReferences`
unfoldable pub validate_dns_references : StringSet → Option Dns → Option Invalid
validate_dns_references tags none = none
validate_dns_references tags (some dns) =
    let servers = server_tags dns.servers in
    or_else (first_error (check_detour tags) dns.servers) (
      or_else (first_error (check_server servers) dns.rules)
        (check_reference servers (missing_dns_final dns.final) dns.final))

-- `validate` after the tags are collected.
unfoldable pub validate_with : StringSet → Translation → Option Invalid × Translation
validate_with tags t =
    let members = validate_group_members tags t.config.outbounds in
    let t' = validate_route_rules tags t.config.route.rules t in
    let final = t.config.route.final in
    if is_some members then (members, t) else (
      or_else (check_reference tags (missing_final final) final)
          (validate_dns_references tags t.config.dns),
      t',
    )

-- `validate`
unfoldable pub validate : Translation → Option Invalid × Translation
validate t = elim (collect_outbound_tags t.config.outbounds) [
  | valid tags ↦ validate_with tags t
  | invalid e ↦ (some e, t)
]
