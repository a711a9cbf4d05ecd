-- ===== src/Translator/Groups/Cleanup/Pass.antt =====
-- One pass of the cleanup of translator/group.go over the groups.
use cff_core.Base.{
  ◌+◌, String, true, false, List, [], ◌∷◌, map, Option, none, some, if◌then◌else◌, filter, length,
  ◌≡◌, ◌≢◌, refl, ap, ◌∙◌, All, filter-All, arith, ◌==◌,
}
use cff_core.Base.StringSet.{StringSet, has, remove}
use cff_core.Value.{Value, Object, str, strs, as_str, as_strs, get, get_text, get_texts}
use cff_core.Value.Laws.{get-put}
use cff_core.Translator.State.{Translation}
use cff_core.Translator.Groups.Cleanup.{
  Cleaned, fix_default, rebuilt, drop_group, clean_one, collect, clean_from,
}

-- The members of a group are all in `valid`, and there is at least one.
pub record IsClosed (valid : StringSet) (ob : Object) : Type 0 where
  pub resolved : All (λ m. has m valid ≡ true) (get_texts "outbounds" ob)
  pub inhabited : get_texts "outbounds" ob ≢ []

abbrev pub tags_of : List Object → List String
tags_of obs = map (get_text "tag") obs

get-fix_default :
    (k : String) (valid : StringSet) (first : String) (d : Option Value) (ob : Object)
    → (("default" == k) ≡ false)
    → get k (fix_default valid first d ob) ≡ get k ob
unfolding fix_default
get-fix_default k valid first (some (str s)) ob h =
    ground (arith, get-put k "default" (str first) ob)
get-fix_default k valid first none ob h = refl
get-fix_default k valid first _ ob h = refl

rebuilt-get :
    (k : String) (valid : StringSet) (first : String) (rest : List String) (ob : Object)
    → ("default" == k) ≡ false
    → get k (rebuilt valid first rest ob)
      ≡ (if "outbounds" == k then some (strs (first ∷ rest)) else get k ob)
unfolding rebuilt
rebuilt-get k valid first rest ob h =
    get-fix_default k valid first _ _ h ∙ get-put k "outbounds" (strs (first ∷ rest)) ob

-- A group that is kept has the members that were found valid, and its old tag.
pub rebuilt-tag :
    (valid : StringSet) (first : String) (rest : List String) (ob : Object)
    → get_text "tag" (rebuilt valid first rest ob) ≡ get_text "tag" ob
unfolding get_text
rebuilt-tag valid first rest ob = ap as_str (rebuilt-get "tag" valid first rest ob refl)

rebuilt-outbounds :
    (valid : StringSet) (first : String) (rest : List String) (ob : Object)
    → get_texts "outbounds" (rebuilt valid first rest ob) ≡ first ∷ rest
unfolding get_texts
rebuilt-outbounds valid first rest ob =
    ap as_strs (rebuilt-get "outbounds" valid first rest ob refl)

rebuilt-IsClosed :
    (valid : StringSet) (first : String) (rest : List String) (ob : Object)
    → All (λ m. has m valid ≡ true) (first ∷ rest)
    → IsClosed valid (rebuilt valid first rest ob)
rebuilt-IsClosed valid first rest ob h = record {
  resolved = rw (rebuilt-outbounds valid first rest ob) h;
  inhabited = rw (rebuilt-outbounds valid first rest ob) (λ e. cc);
}

-- What a pass does: every group that it keeps is closed, and it counts the groups that it drops.
pub record PassLaws (valid : StringSet) (obs : List Object) (tr : StringSet) (t : Translation)
    (r : Cleaned) : Type 0 where
  pub closed : All (IsClosed valid) r.kept
  pub counted : length r.kept + r.dropped ≡ length obs
  pub unchanged : r.dropped ≡ 0 → (r.translated ≡ tr) × (r.state ≡ t)
  pub same_proxies : r.state.proxy_tags ≡ t.proxy_tags
  pub same_order : r.state.group_tag_order ≡ t.group_tag_order
  pub same_config : r.state.config ≡ t.config
  pub same_terminal : r.state.dns_terminal_rules ≡ t.dns_terminal_rules

pub clean_from-PassLaws :
    (valid : StringSet) (obs : List Object) (tr : StringSet) (t : Translation)
    → PassLaws valid obs tr t (clean_from valid obs tr t)
unfolding clean_from
clean_from-PassLaws valid [] tr t = record {
  closed = tt;
  counted = refl;
  unchanged = λ _. (refl, refl);
  same_proxies = refl;
  same_order = refl;
  same_config = refl;
  same_terminal = refl;
}
clean_from-PassLaws valid (ob ∷ obs) tr t =
    step (filter (λ name. has name valid) (get_texts "outbounds" ob))
      (filter-All (λ name. has name valid) (get_texts "outbounds" ob))
      (clean_from-PassLaws valid obs)
  where
    step :
        (clean : List String)
        → All (λ m. has m valid ≡ true) clean
        → ((tr' : StringSet) (t' : Translation)
            → PassLaws valid obs tr' t' (clean_from valid obs tr' t'))
        → PassLaws valid (ob ∷ obs) tr t (
            collect (clean_one valid ob clean tr t).0 (
              clean_from valid obs
                (clean_one valid ob clean tr t).1
                (clean_one valid ob clean tr t).2))
    step [] h ih =
        let p = ih (remove (get_text "tag" ob) tr) (drop_group (get_text "tag" ob) t) in
        record {
          closed = p.closed;
          counted = omega arith;
          unchanged = λ z. absurd (omega arith);
          same_proxies = p.same_proxies;
          same_order = p.same_order;
          same_config = p.same_config;
          same_terminal = p.same_terminal;
        }
    step (first ∷ rest) h ih =
        let p = ih tr t in
        record {
          closed = (rebuilt-IsClosed valid first rest ob h, p.closed);
          counted = omega arith;
          unchanged = p.unchanged;
          same_proxies = p.same_proxies;
          same_order = p.same_order;
          same_config = p.same_config;
          same_terminal = p.same_terminal;
        }
