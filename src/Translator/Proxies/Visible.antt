-- ===== src/Translator/Proxies/Visible.antt =====
-- The names of the outbounds that `translateProxies` (translator/proxy.go) gives.
use cff_core.Base.{
  String, Bool, true, false, ◌||◌, List, [], ◌∷◌, Option, none, some, ◌==◌, ◌≡◌, refl, ap, ◌∙◌,
  arith, Bool-cases, inl, inr, All,
}
use cff_core.Base.StringSet.{has, insert, has-insert}
use cff_core.Outside.{Outside}
use cff_core.Value.{Object, get, get_text, as_str}
use cff_core.Proxy.Tagged.{IsTagged}
use cff_core.Proxy.Tagged.Stream.{Gives}
use cff_core.Proxy.Protocols.Start.{Translated}
use cff_core.Translator.State.{Translation, warn, warn_all}
use cff_core.Translator.Groups.Cleanup.Pass.{tags_of}
use cff_core.Translator.Proxies.Endpoint.{is_invalid_health_check_endpoint, has_proxy_endpoint}
use cff_core.Translator.Proxies.{
  make_stub_outbound, mark_invalid_health_check_proxy, add_proxy_tag, mark_stub,
  translate_one_proxy, accept, translated_or_stub, translate_named_proxy, translate_proxy,
  append_outbound, translate_proxies,
}
use cff_core.Translator.Proxies.Given.{names_of, one_proxy-Gives}

-- The configuration and the orders that the loop leaves alone.
pub record HasFrame (t t' : Translation) : Type 0 where
  pub config : t'.config ≡ t.config
  pub terminal : t'.dns_terminal_rules ≡ t.dns_terminal_rules
  pub order : t'.group_tag_order ≡ t.group_tag_order

HasFrame-trans : {t t' t'' : Translation} → HasFrame t t' → HasFrame t' t'' → HasFrame t t''
HasFrame-trans a b = record {
  config = b.config ∙ a.config;
  terminal = b.terminal ∙ a.terminal;
  order = b.order ∙ a.order;
}

abbrev same_frame :
    {t t' : Translation}
    → t'.config ≡ t.config
    → t'.dns_terminal_rules ≡ t.dns_terminal_rules
    → t'.group_tag_order ≡ t.group_tag_order
    → HasFrame t t'
same_frame a b c = record { config = a; terminal = b; order = c }

-- What a round of the loop gives: an outbound with the proxy's name, which becomes a known proxy.
record RoundLaws (name : String) (t : Translation) (r : Option Object × Translation) : Type 0 where
  outbound : Object
  given : r.0 ≡ some outbound
  tagged : IsTagged name outbound
  known : r.1.proxy_tags ≡ insert name t.proxy_tags
  frame : HasFrame t r.1

same_known :
    {name : String} {t t' : Translation} {r : Option Object × Translation}
    → t'.proxy_tags ≡ t.proxy_tags
    → HasFrame t t'
    → RoundLaws name t' r
    → RoundLaws name t r
same_known {name} h f r = record {
  outbound = r.outbound;
  given = r.given;
  tagged = r.tagged;
  known = r.known ∙ ap (insert name) h;
  frame = HasFrame-trans f r.frame;
}

stub-IsTagged : (name type : String) → IsTagged name (make_stub_outbound name type)
unfolding make_stub_outbound get
stub-IsTagged name type = record { tag = refl; no_members = refl }

IsTagged-text : {name : String} {ob : Object} → IsTagged name ob → get_text "tag" ob ≡ name
unfolding get_text
IsTagged-text h = ap as_str h.tag

module _ (o : Outside) (name : String) (named : (name == "") ≡ false) where
  accept-RoundLaws :
      (ob : Object) (t : Translation) → IsTagged name ob → RoundLaws name t (accept o ob t)
  unfolding accept add_proxy_tag
  accept-RoundLaws ob t h = record {
    outbound = ob;
    given = rw (IsTagged-text h, named);
    tagged = h;
    known = rw (IsTagged-text h, named);
    frame = rw (IsTagged-text h, named) (same_frame refl refl refl);
  }

  translated_or_stub-RoundLaws :
      (type : String) (r : Translated) (t : Translation)
      → Gives name r.0
      → RoundLaws name t (translated_or_stub o name type r t)
  unfolding translated_or_stub warn_all mark_stub mark_invalid_health_check_proxy
  translated_or_stub-RoundLaws type (some ob, warnings) t h =
      same_known refl (same_frame refl refl refl) (accept-RoundLaws ob (warn_all warnings t) h)
  translated_or_stub-RoundLaws type (none, warnings) t h =
      same_known refl (same_frame refl refl refl) (
        accept-RoundLaws (make_stub_outbound name type) (mark_stub name type (warn_all warnings t))
          (stub-IsTagged name type))

  stub-RoundLaws :
      (type : String) (t : Translation)
      → RoundLaws name t (some (make_stub_outbound name type), add_proxy_tag name t)
  unfolding add_proxy_tag
  stub-RoundLaws type t = record {
    outbound = make_stub_outbound name type;
    given = refl;
    tagged = stub-IsTagged name type;
    known = refl;
    frame = same_frame refl refl refl;
  }

module _ (o : Outside) (p : Object) (fp : String) (named : (get_text "name" p == "") ≡ false) where
  named_proxy-RoundLaws :
      (t : Translation)
      → RoundLaws (get_text "name" p) t (translate_named_proxy o (get_text "name" p) p fp t)
  unfolding translate_named_proxy mark_stub mark_invalid_health_check_proxy warn
  named_proxy-RoundLaws t =
      let name = get_text "name" p in
      let type = get_text "type" p in
      elim (Bool-cases (is_invalid_health_check_endpoint o p)) [
        | inl e ↦ elim (Bool-cases (has_proxy_endpoint o p)) [
          | inl f ↦
              rw (e, f)
                (same_known refl (same_frame refl refl refl) (
                  translated_or_stub-RoundLaws o name named type (translate_one_proxy o p fp)
                    (mark_invalid_health_check_proxy name t) (one_proxy-Gives o p fp named)))
          | inr f ↦
              rw (e, f)
                (same_known refl (same_frame refl refl refl) (stub-RoundLaws o name named type _))
        ]
        | inr e ↦ elim (Bool-cases (has_proxy_endpoint o p)) [
          | inl f ↦
              rw (e, f)
                (translated_or_stub-RoundLaws o name named type (translate_one_proxy o p fp) t
                  (one_proxy-Gives o p fp named))
          | inr f ↦
              rw (e, f)
                (same_known refl (same_frame refl refl refl) (stub-RoundLaws o name named type _))
        ]
      ]

-- The outbound is not a group.
abbrev pub HasNoMembers : Object → Type 0
HasNoMembers ob = get "outbounds" ob ≡ none

-- What the loop over the proxies gives: the names in order, known afterwards, of no groups.
pub record VisibleLaws (ps : List Object) (t : Translation) (r : List Object × Translation)
    : Type 0 where
  pub same_names : tags_of r.0 ≡ names_of ps
  pub known : (k : String) → has k r.1.proxy_tags ≡ (has k (names_of ps) || has k t.proxy_tags)
  pub no_groups : All HasNoMembers r.0
  pub frame : HasFrame t r.1

or_swap : (a b c : Bool) → (a || (b || c)) ≡ ((b || a) || c)
or_swap a b c = ground arith

module _ (o : Outside) (fp : String) where
  cons-VisibleLaws :
      (p : Object) (ps : List Object) (t : Translation) (r : Option Object × Translation)
      (rest : List Object × Translation)
      → (get_text "name" p == "") ≡ false
      → RoundLaws (get_text "name" p) t r
      → VisibleLaws ps r.1 rest
      → VisibleLaws (p ∷ ps) t (append_outbound r.0 rest.0, rest.1)
  unfolding has get_text
  cons-VisibleLaws p ps t r rest named l h = record {
    same_names = rw (l.given, named, IsTagged-text l.tagged, h.same_names) refl;
    known = λ k.
        rw (named, h.known k, l.known, has-insert k (get_text "name" p) t.proxy_tags)
          (or_swap (has k (names_of ps)) (get_text "name" p == k) (has k t.proxy_tags));
    no_groups = rw l.given (l.tagged.no_members, h.no_groups);
    frame = HasFrame-trans l.frame h.frame;
  }

  skipped-VisibleLaws :
      (p : Object) (ps : List Object) (t : Translation) (rest : List Object × Translation)
      → (get_text "name" p == "") ≡ true
      → VisibleLaws ps t rest
      → VisibleLaws (p ∷ ps) t rest
  skipped-VisibleLaws p ps t rest unnamed h = record {
    same_names = rw unnamed h.same_names;
    known = rw unnamed h.known;
    no_groups = h.no_groups;
    frame = h.frame;
  }

  -- The outbounds of `translate_proxies` carry the names of the named proxies, in order, none of them is a
  -- group, and its known proxy tags are those of before and these names; the configuration, the DNS rules kept for
  -- the end and the order of the groups stay.
  pub translate_proxies-VisibleLaws :
      (ps : List Object) (t : Translation) → VisibleLaws ps t (translate_proxies o ps fp t)
  unfolding translate_proxies translate_proxy has
  translate_proxies-VisibleLaws [] t = record {
    same_names = refl;
    known = λ k. refl;
    no_groups = tt;
    frame = same_frame refl refl refl;
  }
  translate_proxies-VisibleLaws (p ∷ ps) t = elim (Bool-cases (get_text "name" p == "")) [
    | inl e ↦ rw e (skipped-VisibleLaws p ps t _ e (translate_proxies-VisibleLaws ps t))
    | inr e ↦ rw e (
        cons-VisibleLaws p ps t _ _ e (named_proxy-RoundLaws o p fp e t)
          (translate_proxies-VisibleLaws ps _))
  ]
