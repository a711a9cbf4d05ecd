-- ===== src/Translator/Groups/Cleanup/Laws.antt =====
-- The passes of `cleanupGroupOutbounds` (translator/group.go): how many there are, and what they leave.
use cff_core.Base.{
  ℕ, zero, suc, ◌<◌, String, Bool, true, ◌||◌, List, [], ◌∷◌, some, eqb, filter, length, ◌≡◌, ◌∙◌,
  sym, subst, All, arith, some-eq-some, Bool-cases, ◌==◌, inl, inr,
}
use cff_core.Base.StringSet.{StringSet, has, remove, has-remove}
use cff_core.Value.{Object, get_text, get_texts}
use cff_core.Translator.State.{Translation}
use cff_core.Translator.Groups.Cleanup.{
  Cleaned, valid_tags, drop_group, clean_one, collect, clean_from, cleanup_once, cleanup_loop,
  cleanup_group_outbounds,
}
use cff_core.Translator.Groups.Cleanup.Pass.{
  IsClosed, tags_of, rebuilt-tag, PassLaws, clean_from-PassLaws,
}

-- A name that is translated is the tag of a group that was seen, or of one that is left.
abbrev IsSeen : StringSet → List String → List Object → Type 0
IsSeen tr seen obs = (j : String) → has j tr ≡ true → (has j seen || has j (tags_of obs)) ≡ true

module _ (valid : StringSet) (seen : List String) (ob : Object) (obs : List Object) (tr : StringSet)
    (h : IsSeen tr seen (ob ∷ obs)) where
  seen_next : IsSeen tr (get_text "tag" ob ∷ seen) obs
  unfolding has
  seen_next j k = ground (arith, h j k)

  seen_without : IsSeen (remove (get_text "tag" ob) tr) seen obs
  unfolding has
  seen_without j k = ground (arith, h j, has-remove j (get_text "tag" ob) tr)

or_shift : (a b c : Bool) → ((a || b) || c) ≡ true → (b || (a || c)) ≡ true
or_shift a b c e = ground arith

clean_from-IsSeen :
    (valid : StringSet) (seen : List String) (obs : List Object) (tr : StringSet) (t : Translation)
    → IsSeen tr seen obs
    → IsSeen (clean_from valid obs tr t).translated seen (clean_from valid obs tr t).kept
unfolding clean_from
clean_from-IsSeen valid seen [] tr t h = h
clean_from-IsSeen valid seen (ob ∷ obs) tr t h =
    step (filter (λ name. has name valid) (get_texts "outbounds" ob))
      (λ seen'. clean_from-IsSeen valid seen' obs)
  where
    step :
        (clean : List String)
        → ((seen' : List String) (tr' : StringSet) (t' : Translation)
            → IsSeen tr' seen' obs
            → IsSeen
                (clean_from valid obs tr' t').translated
                seen'
                (clean_from valid obs tr' t').kept)
        → let r = collect (clean_one valid ob clean tr t).0 (
            clean_from valid obs
              (clean_one valid ob clean tr t).1
              (clean_one valid ob clean tr t).2) in
          IsSeen r.translated seen r.kept
    step [] ih =
        ih seen (remove (get_text "tag" ob) tr) (drop_group (get_text "tag" ob) t)
          (seen_without valid seen ob obs tr h)
    step (first ∷ rest) ih = λ j k.
        let p = ih (get_text "tag" ob ∷ seen) tr t (seen_next valid seen ob obs tr h) j k in
        rw (rebuilt-tag valid first rest ob) (
          or_shift (get_text "tag" ob == j) (has j seen)
            (has j (tags_of (clean_from valid obs tr t).kept)) p)

-- Every translated name is the tag of a group.
abbrev pub IsCovered : StringSet → List Object → Type 0
IsCovered tr obs = (j : String) → has j tr ≡ true → has j (tags_of obs) ≡ true

-- What the loop leaves: the last pass dropped nothing, so its valid tags are those at the end.
pub record LoopLaws (t : Translation) (r : Cleaned) : Type 0 where
  pub closed : All (IsClosed (valid_tags t.proxy_tags r.translated)) r.kept
  pub covered : IsCovered r.translated r.kept
  pub same_proxies : r.state.proxy_tags ≡ t.proxy_tags
  pub same_order : r.state.group_tag_order ≡ t.group_tag_order
  pub same_config : r.state.config ≡ t.config
  pub same_terminal : r.state.dns_terminal_rules ≡ t.dns_terminal_rules

cleanup_once-IsCovered :
    (groups : List Object) (tr : StringSet) (t : Translation)
    → IsCovered tr groups
    → IsCovered (cleanup_once groups tr t).translated (cleanup_once groups tr t).kept
unfolding cleanup_once has
cleanup_once-IsCovered groups tr t h =
    clean_from-IsSeen (valid_tags t.proxy_tags tr) [] groups tr t h

cleanup_once-PassLaws :
    (groups : List Object) (tr : StringSet) (t : Translation)
    → PassLaws (valid_tags t.proxy_tags tr) groups tr t (cleanup_once groups tr t)
unfolding cleanup_once
cleanup_once-PassLaws groups tr t = clean_from-PassLaws (valid_tags t.proxy_tags tr) groups tr t

last_pass :
    (groups : List Object) (tr : StringSet) (t : Translation) (r : Cleaned)
    → PassLaws (valid_tags t.proxy_tags tr) groups tr t r
    → IsCovered r.translated r.kept
    → r.dropped ≡ 0
    → LoopLaws t r
last_pass groups tr t r p c z = record {
  closed =
      subst (λ s. All (IsClosed (valid_tags t.proxy_tags s)) r.kept) (sym (p.unchanged z).0)
        p.closed;
  covered = c;
  same_proxies = p.same_proxies;
  same_order = p.same_order;
  same_config = p.same_config;
  same_terminal = p.same_terminal;
}

LoopLaws-transfer :
    (t t' : Translation) (r : Cleaned)
    → t'.proxy_tags ≡ t.proxy_tags
    → t'.group_tag_order ≡ t.group_tag_order
    → t'.config ≡ t.config
    → t'.dns_terminal_rules ≡ t.dns_terminal_rules
    → LoopLaws t' r
    → LoopLaws t r
LoopLaws-transfer t t' r e e' f f' l = record {
  closed = subst (λ s. All (IsClosed (valid_tags s r.translated)) r.kept) e l.closed;
  covered = l.covered;
  same_proxies = l.same_proxies ∙ e;
  same_order = l.same_order ∙ e';
  same_config = l.same_config ∙ f;
  same_terminal = l.same_terminal ∙ f';
}

pub cleanup_loop-LoopLaws :
    (fuel : ℕ) (groups : List Object) (tr : StringSet) (t : Translation) {r : Cleaned}
    → IsCovered tr groups
    → cleanup_loop fuel groups tr t ≡ some r
    → LoopLaws t r
unfolding cleanup_loop
cleanup_loop-LoopLaws zero groups tr t h e = cc
cleanup_loop-LoopLaws (suc fuel) groups tr t {r} h e =
    let p = cleanup_once-PassLaws groups tr t in
    let c = cleanup_once-IsCovered groups tr t h in
    elim (Bool-cases (eqb (cleanup_once groups tr t).dropped 0)) [
      | inl z ↦
          subst (LoopLaws t) (some-eq-some (rw z at e)) (last_pass groups tr t _ p c (ground arith))
      | inr z ↦
          LoopLaws-transfer t _ r p.same_proxies p.same_order p.same_config p.same_terminal
            (cleanup_loop-LoopLaws fuel _ _ _ c (rw z at e))
    ]

-- The loop of the cleanup ends: on fuel for more passes than there are groups, it has a result.
pub cleanup_loop_total :
    (fuel : ℕ) (groups : List Object) (tr : StringSet) (t : Translation)
    → length groups < fuel
    → (r : Cleaned) × (cleanup_loop fuel groups tr t ≡ some r)
unfolding cleanup_loop
cleanup_loop_total zero groups tr t h = elim h [ ]
cleanup_loop_total (suc fuel) groups tr t h =
    let p = cleanup_once-PassLaws groups tr t in
    elim (Bool-cases (eqb (cleanup_once groups tr t).dropped 0)) [
      | inl z ↦ (cleanup_once groups tr t, rw z)
      | inr z ↦ let c = p.counted in rw z (cleanup_loop_total fuel _ _ _ (ground arith))
    ]

-- Where every translated name is the tag of a group, the cleanup leaves groups that have members, all of them
-- proxy tags, `DIRECT` or translated names, and every translated name is then the tag of a group that is left;
-- the proxy tags, the order of the groups, the configuration and the DNS rules kept for the end stay.
pub cleanup_group_outbounds-LoopLaws :
    (groups : List Object) (tr : StringSet) (t : Translation)
    → IsCovered tr groups
    → LoopLaws t (cleanup_group_outbounds groups tr t)
unfolding cleanup_group_outbounds
cleanup_group_outbounds-LoopLaws groups tr t h =
    let (r, e) = cleanup_loop_total (suc (length groups)) groups tr t (omega arith) in
    rw (e, cleanup_group_outbounds) (cleanup_loop-LoopLaws (suc (length groups)) groups tr t h e)
