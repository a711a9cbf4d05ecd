-- ===== src/Translator/Dns/Tags.antt =====
-- What the sections of nameservers in `translateDNS` (translator/dns.go) give: their tags and detours.
use cff_core.Base.{
  String, Bool, true, false, ◌||◌, ◌&&◌, not, List, [], ◌∷◌, ◌++◌, ◌==◌, is_empty, if◌then◌else◌,
  ◌≡◌, refl, sym, subst, ◌∙◌, All, All-append, All-mono, arith, inl, inr, eq_iff,
}
use text.Mathlib.TextLemmas.{cons-append}
use cff_core.Base.Text.{◌+++◌, head}
use cff_core.Base.StringSet.{has, has-insert}
use cff_core.Outside.{Outside}
use cff_core.Value.{Object, get_text}
use cff_core.Translator.RawConfig.{RawDns}
use cff_core.Translator.Groups.Cleanup.Pass.{tags_of}
use cff_core.Translator.Validation.{server_tags}
use cff_core.Translator.Dns.Entries.{
  Entries, no_entries, build_dns_server_entries, auto_bootstrap, bootstrap_tag,
}
use cff_core.Translator.Dns.Entries.Laws.{
  IsFresh, head-IsFresh, HasDetour, EntriesLaws, no_entries-EntriesLaws,
  build_dns_server_entries-EntriesLaws, auto_bootstrap-EntriesLaws,
}
use cff_core.Translator.Dns.{Sections, build_sections}

pub has-tags_of-append :
    (k : String) (xs ys : List Object)
    → has k (tags_of (xs ++ ys)) ≡ (has k (tags_of xs) || has k (tags_of ys))
unfolding has
has-tags_of-append k [] ys = refl
has-tags_of-append k (x ∷ xs) ys = ground (arith, has-tags_of-append k xs ys)

-- The tags that the validation collects are those that are not empty.
pub has-server_tags :
    (k : String) (servers : List Object)
    → has k (server_tags servers) ≡ (not (k == "") && has k (tags_of servers))
unfolding server_tags has
has-server_tags k [] = ground arith
has-server_tags k (srv ∷ servers) =
    let tag = get_text "tag" srv in
    ground (
      arith,
      has-server_tags k servers,
      has-insert k tag (server_tags servers),
      eq_iff tag k,
      eq_iff tag "",
      eq_iff k "",
    )

-- None of the tags is empty or that of the bootstrap server.
pub record AreFresh (tags : List String) : Type 0 where
  pub no_empty : has "" tags ≡ false
  pub no_bootstrap : has bootstrap_tag tags ≡ false

pub All_fresh-AreFresh : (tags : List String) → All IsFresh tags → AreFresh tags
unfolding has
All_fresh-AreFresh [] h = record { no_empty = refl; no_bootstrap = refl }
All_fresh-AreFresh (tag ∷ tags) ((a, b), h) =
    let rest = All_fresh-AreFresh tags h in
    record { no_empty = rw (a) rest.no_empty; no_bootstrap = rw (b) rest.no_bootstrap }

pub append-AreFresh :
    (xs ys : List Object)
    → AreFresh (tags_of xs)
    → AreFresh (tags_of ys)
    → AreFresh (tags_of (xs ++ ys))
append-AreFresh xs ys h k = record {
  no_empty = ground (arith, has-tags_of-append "" xs ys, h.no_empty, k.no_empty);
  no_bootstrap =
      ground (arith, has-tags_of-append bootstrap_tag xs ys, h.no_bootstrap, k.no_bootstrap);
}

EntriesLaws-AreFresh :
    (detour : String) (e : Entries) → EntriesLaws detour e → AreFresh (tags_of e.servers)
EntriesLaws-AreFresh detour e l = rw (l.tagged) (All_fresh-AreFresh e.tags l.fresh)

pub record SectionsLaws (P : String → Type 0) (s : Sections) : Type 0 where
  pub fresh : AreFresh (tags_of s.servers)
  pub defaults : (k : String) → has k s.default_tags ≡ true → has k (tags_of s.servers) ≡ true
  pub nameservers : (k : String) → has k s.nameserver_tags ≡ true → has k (tags_of s.servers) ≡ true
  pub fallbacks : (k : String) → has k s.fallback_tags ≡ true → has k (tags_of s.servers) ≡ true
  pub detoured : All (λ srv. P (get_text "detour" srv)) s.servers

has-tags_of_five :
    (k : String) (a b c d e : List Object)
    → has k (tags_of (a ++ b ++ c ++ d ++ e)) ≡ (
        has k (tags_of a)
        || (has k (tags_of b) || (has k (tags_of c) || (has k (tags_of d) || has k (tags_of e)))))
has-tags_of_five k a b c d e = ground (
  arith,
  has-tags_of-append k (a ++ b ++ c ++ d) e,
  has-tags_of-append k (a ++ b ++ c) d,
  has-tags_of-append k (a ++ b) c,
  has-tags_of-append k a b,
)

module _ (P : String → Type 0) (absent : (k : String) → (k == "") ≡ true → P k) where
  detour_to :
      (detour : String)
      → P detour
      → (srv : Object) → HasDetour detour srv
      → P (get_text "detour" srv)
  detour_to detour p srv (inl e) = absent (get_text "detour" srv) e
  detour_to detour p srv (inr e) = subst P (sym e) p

  detours_to :
      (detour : String) (e : Entries)
      → P detour
      → EntriesLaws detour e
      → All (λ srv. P (get_text "detour" srv)) e.servers
  detours_to detour e p l = All-mono _ _ (detour_to detour p) e.servers l.detoured

  -- Five sections, of which the first and the last have no detour.
  sections_of :
      (d n f q a : Entries) (tags : List String) (warnings : List String) (detour : String)
      → P detour
      → EntriesLaws "" d
      → EntriesLaws detour n
      → EntriesLaws detour f
      → EntriesLaws "" q
      → EntriesLaws "" a
      → ((k : String) → has k tags ≡ true → (has k d.tags || has k a.tags) ≡ true)
      → SectionsLaws P (record {
        default_tags = tags;
        nameserver_tags = n.tags;
        fallback_tags = f.tags;
        servers = d.servers ++ n.servers ++ f.servers ++ q.servers ++ a.servers;
        warnings = warnings;
      })
  sections_of d n f q a tags warnings detour p dl nl fl ql al choose =
      let five =
        λ (k : String). has-tags_of_five k d.servers n.servers f.servers q.servers a.servers in
      let fresh = λ (detour : String) (e : Entries) (l : EntriesLaws detour e).
        EntriesLaws-AreFresh detour e l in
      record {
        fresh =
            append-AreFresh _ _
              (append-AreFresh _ _
                (append-AreFresh _ _ (append-AreFresh _ _ (fresh "" d dl) (fresh detour n nl))
                  (fresh detour f fl))
                (fresh "" q ql))
              (fresh "" a al);
        defaults = λ k h. five k ∙ rw (dl.tagged, al.tagged) (ground (arith, choose k h));
        nameservers = λ k h. five k ∙ rw (nl.tagged) (ground (arith, h));
        fallbacks = λ k h. five k ∙ rw (fl.tagged) (ground (arith, h));
        detoured =
            let P' = λ (srv : Object). P (get_text "detour" srv) in
            let none_p = absent "" refl in
            All-append P' _ _
              (All-append P' _ _
                (All-append P' _ _
                  (All-append P' _ _ (detours_to "" d none_p dl) (detours_to detour n p nl))
                  (detours_to detour f p fl))
                (detours_to "" q none_p ql))
              (detours_to "" a none_p al);
      }

chosen_tags :
    (k : String) (d a : List String)
    → has k (if is_empty d then a else d) ≡ true
    → (has k d || has k a) ≡ true
unfolding has
chosen_tags k [] a h = h
chosen_tags k (x ∷ d) a h = ground (arith, h)

module _ (o : Outside) (dns : RawDns) where
  built :
      (servers : List String) (prefix detour : String)
      → ((s : String) → IsFresh (prefix +++ s))
      → EntriesLaws detour (build_dns_server_entries o servers prefix detour)
  built servers prefix detour f = build_dns_server_entries-EntriesLaws o servers prefix detour f

  auto_laws :
      (b : Bool) → EntriesLaws "" (if b then auto_bootstrap o 0 dns.name_server else no_entries)
  auto_laws true = auto_bootstrap-EntriesLaws o 0 dns.name_server
  auto_laws false = no_entries-EntriesLaws ""

  pub build_sections-SectionsLaws :
      (P : String → Type 0) (detour : String)
      → ((k : String) → (k == "") ≡ true → P k)
      → P detour
      → SectionsLaws P (build_sections o dns detour)
  unfolding build_sections head
  build_sections-SectionsLaws P detour absent p =
      let d = built dns.default_nameserver "def-" "" (λ s.
        head-IsFresh ("def-" +++ s) (rw cons-append (omega arith))
          (rw cons-append (omega arith))) in
      let n = built dns.name_server "ns-" detour (λ s.
        head-IsFresh ("ns-" +++ s) (rw cons-append (omega arith)) (rw cons-append (omega arith))) in
      let f = built dns.fallback "fb-" detour (λ s.
        head-IsFresh ("fb-" +++ s) (rw cons-append (omega arith)) (rw cons-append (omega arith))) in
      let q = built dns.proxy_server_nameserver "psn-" "" (λ s.
        head-IsFresh ("psn-" +++ s) (rw cons-append (omega arith))
          (rw cons-append (omega arith))) in
      let def = build_dns_server_entries o dns.default_nameserver "def-" "" in
      let a = auto_laws (is_empty def.tags) in
      sections_of P absent _ _ _ _ _ _ _ detour p d n f q a (λ k. chosen_tags k def.tags _)
