-- ===== src/Translator/Groups/Named.antt =====
-- The groups of translator/group.go have names: no group outbound has an empty tag.
use cff_core.Base.{
  ℕ, zero, suc, String, Bool, true, false, ◌||◌, List, [], ◌∷◌, ◌++◌, Option, some, none, ◌==◌, eqb,
  length, filter, ◌≡◌, refl, subst, arith, Bool-cases, Option-cases, inl, inr, some-eq-some,
}
use cff_core.Base.StringSet.{StringSet, has}
use cff_core.Outside.{Outside}
use cff_core.Value.{Object, get_text, get_texts}
use cff_core.Translator.State.{Translation}
use cff_core.Translator.Groups.Cleanup.{
  Cleaned, valid_tags, clean_one, collect, clean_from, cleanup_once, cleanup_loop,
  cleanup_group_outbounds,
}
use cff_core.Translator.Groups.Cleanup.Laws.{cleanup_loop_total}
use cff_core.Translator.Groups.Cleanup.Pass.{tags_of, rebuilt-tag}
use cff_core.Translator.Groups.{
  append_some, translate_group, translate_each, translate_groups, populate_group_tags,
}
use cff_core.Translator.Groups.Kept.{IsNamed, group-Keeps}

abbrev pub HasNoEmpty : List Object → Type 0
HasNoEmpty obs = has "" (tags_of obs) ≡ false

same_head : (a b c : Bool) → (a || b) ≡ false → (b ≡ false → c ≡ false) → (a || c) ≡ false
same_head false b c h f = f h
same_head true b c h f = h

-- A pass keeps tags of groups that were there.
clean_from-HasNoEmpty :
    (valid : StringSet) (obs : List Object) (tr : StringSet) (t : Translation)
    → HasNoEmpty obs
    → HasNoEmpty (clean_from valid obs tr t).kept
unfolding clean_from has
clean_from-HasNoEmpty valid [] tr t h = refl
clean_from-HasNoEmpty valid (ob ∷ obs) tr t h =
    step (filter (λ name. has name valid) (get_texts "outbounds" ob))
      (clean_from-HasNoEmpty valid obs)
  where
    step :
        (clean : List String)
        → ((tr' : StringSet) (t' : Translation)
            → HasNoEmpty obs
            → HasNoEmpty (clean_from valid obs tr' t').kept)
        → HasNoEmpty
            (collect (clean_one valid ob clean tr t).0 (
              clean_from valid obs
                (clean_one valid ob clean tr t).1
                (clean_one valid ob clean tr t).2)).kept
    step [] ih = ih _ _ (ground (arith, h))
    step (first ∷ rest) ih =
        rw (rebuilt-tag valid first rest ob)
          (same_head (get_text "tag" ob == "") (has "" (tags_of obs)) _ h (ih tr t))

cleanup_loop-HasNoEmpty :
    (fuel : ℕ) (groups : List Object) (tr : StringSet) (t : Translation) {r : Cleaned}
    → HasNoEmpty groups
    → cleanup_loop fuel groups tr t ≡ some r
    → HasNoEmpty r.kept
unfolding cleanup_loop cleanup_once
cleanup_loop-HasNoEmpty zero groups tr t h e = cc
cleanup_loop-HasNoEmpty (suc fuel) groups tr t {r} h e =
    let c = clean_from-HasNoEmpty (valid_tags t.proxy_tags tr) groups tr t h in
    elim (Bool-cases (eqb (clean_from (valid_tags t.proxy_tags tr) groups tr t).dropped 0)) [
      | inl z ↦ subst (λ q. HasNoEmpty q.kept) (some-eq-some (rw z at e)) c
      | inr z ↦ cleanup_loop-HasNoEmpty fuel _ _ _ c (rw z at e)
    ]

pub cleanup_group_outbounds-HasNoEmpty :
    (groups : List Object) (tr : StringSet) (t : Translation)
    → HasNoEmpty groups
    → HasNoEmpty (cleanup_group_outbounds groups tr t).kept
unfolding cleanup_group_outbounds
cleanup_group_outbounds-HasNoEmpty groups tr t h =
    let (r, e) = cleanup_loop_total (suc (length groups)) groups tr t (omega arith) in
    rw (e, cleanup_group_outbounds) (cleanup_loop-HasNoEmpty (suc (length groups)) groups tr t h e)

append_some-HasNoEmpty :
    (groups : List Object) (ob : Object)
    → HasNoEmpty groups
    → (get_text "tag" ob == "") ≡ false
    → HasNoEmpty (groups ++ ob ∷ [])
unfolding has
append_some-HasNoEmpty [] ob h n = ground (arith, n)
append_some-HasNoEmpty (g ∷ gs) ob h n =
    ground (arith, h, append_some-HasNoEmpty gs ob (ground (arith, h)) n)

tag_of_named :
    (name : String) (r : Option Object) (ob : Object)
    → r ≡ some ob
    → IsNamed name r
    → get_text "tag" ob ≡ name
tag_of_named name none ob h n = cc
tag_of_named name (some b) ob h n = subst (λ x. get_text "tag" x ≡ name) (some-eq-some h) n

module _ (o : Outside) where
  group_named :
      (g : Object) (t : Translation) (ob : Object)
      → (translate_group o g t).0 ≡ some ob
      → (get_text "tag" ob == "") ≡ false
  unfolding translate_group
  group_named g t ob h = elim (Bool-cases (get_text "name" g == "")) [
    | inl e ↦ cc (rw e at h)
    | inr e ↦ rw (tag_of_named _ _ ob h ((group-Keeps o g t).0)) e
  ]

  pub translate_each-HasNoEmpty :
      (gs groups : List Object) (tr : StringSet) (t : Translation)
      → HasNoEmpty groups
      → HasNoEmpty (translate_each o gs groups tr t).0
  unfolding translate_each
  translate_each-HasNoEmpty [] groups tr t h = h
  translate_each-HasNoEmpty (g ∷ gs) groups tr t h =
      translate_each-HasNoEmpty gs (append_some groups (translate_group o g t).0) _ _
        (elim (Option-cases (translate_group o g t).0) [
          | inl e ↦ rw e h
          | inr (ob, e) ↦ rw e (append_some-HasNoEmpty groups ob h (group_named g t ob e))
        ])

  -- The groups that `translate_groups` returns.
  pub translate_groups-HasNoEmpty :
      (gs : List Object) (t : Translation) → HasNoEmpty (translate_groups o gs t).0
  unfolding translate_groups has
  translate_groups-HasNoEmpty gs t =
      let t₁ = record t { group_tags = populate_group_tags gs t.group_tags } in
      let e = translate_each o gs [] [] t₁ in
      cleanup_group_outbounds-HasNoEmpty e.0 e.1 e.2 (translate_each-HasNoEmpty gs [] [] t₁ refl)
