-- ===== src/Translator/Groups/Cleanup.antt =====
-- `cleanupGroupOutbounds` of translator/group.go: passes over the translated groups until one of
-- them drops no group.
pub mod Pass
pub mod Laws
use cff_core.Base.{
  ℕ, zero, suc, String, Bool, List, [], ◌∷◌, Option, none, some, eqb, if◌then◌else◌, filter, length,
}
use cff_core.Base.StringSet.{StringSet, has, insert, remove, union}
use cff_core.Base.Text.{◌+++◌}
use cff_core.Value.{Value, Object, str, strs, get, put, get_text, get_texts}
use cff_core.Translator.State.{Translation, warn}

-- The groups kept, how many were dropped, and the two states that a pass changes.
pub record Cleaned : Type 0 where
  pub kept : List Object
  pub dropped : ℕ
  pub translated : StringSet
  pub state : Translation

-- `validTags`, which is computed once for a pass.
unfoldable pub valid_tags : StringSet → StringSet → StringSet
unfolding insert union
valid_tags proxy_tags translated = insert "DIRECT" (union translated (union proxy_tags []))

-- `if def, ok := ob["default"].(string); ok && !validTags[def] { ob["default"] = clean[0] }`
unfoldable pub fix_default : StringSet → String → Option Value → Object → Object
unfolding has put
fix_default valid first (some (str def)) ob =
    if has def valid then ob else put "default" (str first) ob
fix_default valid first _ ob = ob

-- The group with its outbounds replaced by the valid ones.
unfoldable pub rebuilt : StringSet → String → List String → Object → Object
unfolding put get fix_default
rebuilt valid first rest ob =
    let ob' = put "outbounds" (strs (first ∷ rest)) ob in
    fix_default valid first (get "default" ob') ob'

-- The state behind a group that is dropped.
unfoldable pub drop_group : String → Translation → Translation
unfolding remove warn
drop_group tag t =
    let msg : String =
      "proxy-group \"" +++ tag +++ "\" has no valid outbounds after cleanup, dropping" in
    let t' = warn msg t in record t' { group_tags = remove tag t.group_tags }

-- One round of the loop, behind the computation of `clean`.
unfoldable pub clean_one :
    StringSet
    → Object
    → List String
    → StringSet
    → Translation
    → Option Object × StringSet × Translation
unfolding get_text remove drop_group rebuilt
clean_one valid ob [] translated t =
    (none, remove (get_text "tag" ob) translated, drop_group (get_text "tag" ob) t)
clean_one valid ob (first ∷ rest) translated t = (some (rebuilt valid first rest ob), translated, t)

-- The result of a round put in front of the rest of the pass.
unfoldable pub collect : Option Object → Cleaned → Cleaned
collect none r = record r { dropped = suc r.dropped }
collect (some ob) r = record r { kept = ob ∷ r.kept }

unfoldable pub clean_from : StringSet → List Object → StringSet → Translation → Cleaned
unfolding clean_one collect get_texts has
clean_from valid [] translated t = record {
  kept = [];
  dropped = 0;
  translated = translated;
  state = t;
}
clean_from valid (ob ∷ obs) translated t =
    let clean = filter (λ name. has name valid) (get_texts "outbounds" ob) in
    let (ob', translated', t') = clean_one valid ob clean translated t in
    collect ob' (clean_from valid obs translated' t')

-- `cleanupGroupOutboundsOnce`
unfoldable pub cleanup_once : List Object → StringSet → Translation → Cleaned
unfolding clean_from valid_tags
cleanup_once groups translated t =
    clean_from (valid_tags t.proxy_tags translated) groups translated t

-- `for { … }`, on fuel; `none` means that the fuel ran out.
unfoldable pub cleanup_loop : ℕ → List Object → StringSet → Translation → Option Cleaned
unfolding cleanup_once
cleanup_loop zero groups translated t = none
cleanup_loop (suc fuel) groups translated t =
    let r = cleanup_once groups translated t in
    let again = cleanup_loop fuel r.kept r.translated r.state in
    if eqb r.dropped 0 then some r else again

-- `cleanupGroupOutbounds`: one pass more than there are groups, since each pass but the last drops one.
unfoldable pub cleanup_group_outbounds : List Object → StringSet → Translation → Cleaned
unfolding cleanup_loop
cleanup_group_outbounds groups translated t =
    elim (cleanup_loop (suc (length groups)) groups translated t) [
      | some r ↦ r
      | none ↦ record { kept = groups; dropped = 0; translated = translated; state = t }
    ]
