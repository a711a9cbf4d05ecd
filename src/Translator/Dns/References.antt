-- ===== src/Translator/Dns/References.antt =====
-- The references inside the DNS settings that `translateDNS` (translator/dns.go) writes.
use cff_core.Base.{
  String, Bool, true, false, ◌||◌, List, [], ◌∷◌, ◌++◌, map, ◌==◌, ◌≡◌, refl, ap, ap₂, sym, subst,
  ◌∙◌, All, All-append, All-mono, arith, Bool-cases, inl, inr, eq_refl,
}
use cff_core.Base.StringSet.{has}
use cff_core.Outside.{Outside}
use cff_core.Value.{Object, str, get, get_text, object_of, as_str}
use cff_core.Value.Laws.{get-put}
use cff_core.Translator.Groups.Cleanup.Pass.{tags_of}
use cff_core.Translator.Validation.Sound.{IsServer, IsReference}
use cff_core.Translator.Dns.Entries.{
  prefer_udp_from, prefer_udp_server, has_udp, bootstrap_tag, bootstrap_server, add_bootstrap_dns,
  is_local_dns_server, is_text,
}
use cff_core.Translator.Dns.Resolvers.{set_domain_resolvers}
use cff_core.Translator.Dns.Resolvers.Laws.{
  tags_of-set_domain_resolvers, set_domain_resolvers-All_detour,
}
use cff_core.Translator.Dns.FakeIp.{fakeip_tag, hosts_tag}
use cff_core.Translator.Dns.FakeIp.Laws.{IsPlain}
use cff_core.Translator.Dns.Entries.Laws.{IsFresh}
use cff_core.Translator.Dns.Tags.{AreFresh, append-AreFresh, has-tags_of-append, has-server_tags}
use cff_core.Translator.Dns.{upgrade_h3, prefer_h3_servers, choose_resolver, ensure_resolver}

-- The tag of a server in the list, and not the empty text.
pub record Names (servers : List Object) (k : String) : Type 0 where
  pub known : has k (tags_of servers) ≡ true
  pub some_text : (k == "") ≡ false

pub Names-IsServer : (servers : List Object) (k : String) → Names servers k → IsServer servers k
Names-IsServer servers k n = ground (arith, has-server_tags k servers, n.known, n.some_text)

module _ (P : String → Type 0) (servers : List Object) where
  prefer_udp_from-candidate :
      (tags : List String) (first : String)
      → ((k : String) → has k tags ≡ true → P k)
      → P first
      → P (prefer_udp_from tags servers first)
  unfolding prefer_udp_from has
  prefer_udp_from-candidate [] first f p = p
  prefer_udp_from-candidate (tag ∷ tags) first f p = elim (Bool-cases (has_udp tag servers)) [
    | inl e ↦ rw e (f tag (ground (arith, eq_refl tag)))
    | inr e ↦ rw e (prefer_udp_from-candidate tags first (λ k h. f k (ground (arith, h))) p)
  ]

  -- What holds of every candidate holds of the choice, and where there is none, of what is set already.
  pub choose_resolver-candidate :
      (tags : List String) (current : String)
      → ((k : String) → has k tags ≡ true → P k)
      → P current
      → P (choose_resolver tags servers current)
  unfolding choose_resolver prefer_udp_server has
  choose_resolver-candidate [] current f p = p
  choose_resolver-candidate (tag ∷ tags) current f p =
      prefer_udp_from-candidate (tag ∷ tags) tag f (f tag (ground (arith, eq_refl tag)))

get-upgrade_h3 :
    (j : String) (srv : Object) → ("type" == j) ≡ false → get j (upgrade_h3 srv) ≡ get j srv
unfolding upgrade_h3
get-upgrade_h3 j srv h = elim (Bool-cases (is_text "type" "https" srv)) [
  | inl e ↦ rw (e, get-put j "type" (str "h3") srv, h) refl
  | inr e ↦ rw e refl
]

tags_of-upgrade : (servers : List Object) → tags_of (map upgrade_h3 servers) ≡ tags_of servers
unfolding get_text
tags_of-upgrade [] = refl
tags_of-upgrade (srv ∷ servers) =
    ap₂ ◌∷◌ (ap as_str (get-upgrade_h3 "tag" srv refl)) (tags_of-upgrade servers)

tags_of-prefer_h3_servers :
    (b : Bool) (servers : List Object) → tags_of (prefer_h3_servers b servers) ≡ tags_of servers
unfolding prefer_h3_servers
tags_of-prefer_h3_servers true servers = tags_of-upgrade servers
tags_of-prefer_h3_servers false servers = refl

module _ (P : String → Type 0) where
  abbrev pub HasDetourTo : Object → Type 0
  HasDetourTo srv = P (get_text "detour" srv)

  upgrade-detours :
      (servers : List Object) → All HasDetourTo servers → All HasDetourTo (map upgrade_h3 servers)
  unfolding get_text
  upgrade-detours [] h = tt
  upgrade-detours (srv ∷ servers) (p, h) =
      (rw (get-upgrade_h3 "detour" srv refl) p, upgrade-detours servers h)

  prefer_h3_servers-detours :
      (b : Bool) (servers : List Object)
      → All HasDetourTo servers
      → All HasDetourTo (prefer_h3_servers b servers)
  unfolding prefer_h3_servers
  prefer_h3_servers-detours true servers h = upgrade-detours servers h
  prefer_h3_servers-detours false servers h = h

-- The servers before the last step hold those of the sections, of the fake addresses and of the hosts.
pub record ServersLaws (P : String → Type 0) (s fake hosts servers : List Object) : Type 0 where
  pub fresh : AreFresh (tags_of servers)
  pub detoured : All (HasDetourTo P) servers
  pub holds :
      (k : String)
      → has k (tags_of servers)
        ≡ ((has k (tags_of s) || has k (tags_of fake)) || has k (tags_of hosts))

-- The last step keeps the servers, and the resolver is one of them that is not of type local.
pub record ResolverLaws (P : String → Type 0) (before : List Object) (r : String × List Object)
    : Type 0 where
  pub kept : (k : String) → has k (tags_of before) ≡ true → has k (tags_of r.1) ≡ true
  pub detoured : All (HasDetourTo P) r.1
  pub named : Names r.1 r.0
  pub not_local : is_local_dns_server r.0 r.1 ≡ false

is_local-append :
    (tag : String) (xs ys : List Object)
    → has tag (tags_of xs) ≡ false
    → is_local_dns_server tag (xs ++ ys) ≡ is_local_dns_server tag ys
unfolding is_local_dns_server has
is_local-append tag [] ys h = refl
is_local-append tag (x ∷ xs) ys h = ground (arith, is_local-append tag xs ys)

module _ (P : String → Type 0) (absent : P "") where
  pub ensure_resolver-ResolverLaws :
      (resolver : String) (servers : List Object)
      → AreFresh (tags_of servers)
      → All (HasDetourTo P) servers
      → IsReference (λ k. has k (tags_of servers) ≡ true) resolver
      → ResolverLaws P servers (ensure_resolver resolver servers)
  unfolding ensure_resolver add_bootstrap_dns bootstrap_server get_text get object_of has
      is_local_dns_server is_text
  ensure_resolver-ResolverLaws resolver servers f d known =
      elim (Bool-cases (resolver == "" || is_local_dns_server resolver servers)) [
        | inl e ↦ rw e (record {
          kept = λ k h. ground (arith, has-tags_of-append k servers (bootstrap_server ∷ []));
          detoured = All-append (HasDetourTo P) servers _ d (absent, tt);
          named = record {
            known =
                ground (arith, has-tags_of-append bootstrap_tag servers (bootstrap_server ∷ []));
            some_text = refl;
          };
          not_local = is_local-append bootstrap_tag servers _ f.no_bootstrap ∙ refl;
        })
        | inr e ↦ rw e (record {
          kept = λ k h. h;
          detoured = d;
          named = record {
            known = elim known [ inl n ↦ absurd (ground (arith, n)) | inr k ↦ k ];
            some_text = ground arith;
          };
          not_local = ground arith;
        })
      ]

plain-AreFresh :
    (tag : String) (xs : List Object) → IsFresh tag → All (IsPlain tag) xs → AreFresh (tags_of xs)
unfolding has
plain-AreFresh tag [] f h = record { no_empty = refl; no_bootstrap = refl }
plain-AreFresh tag (x ∷ xs) f (p, h) =
    let rest = plain-AreFresh tag xs f h in
    record {
      no_empty = rw (p.tagged, f.0) rest.no_empty;
      no_bootstrap = rw (p.tagged, f.1) rest.no_bootstrap;
    }

-- The servers that the steps of `translateDNS` add, before the last one.
pub collected-ServersLaws :
    (o : Outside) (P : String → Type 0) (b : Bool) (tags : List String) (s fake hosts : List Object)
    → P ""
    → AreFresh (tags_of s)
    → All (HasDetourTo P) s
    → All (IsPlain fakeip_tag) fake
    → All (IsPlain hosts_tag) hosts
    → ServersLaws P s fake hosts
        (prefer_h3_servers b ((set_domain_resolvers o tags tags s).0 ++ fake ++ hosts))
unfolding get_text
collected-ServersLaws o P b tags s fake hosts absent fresh detoured f h =
    let resolved = (set_domain_resolvers o tags tags s).0 in
    let same = tags_of-prefer_h3_servers b (resolved ++ fake ++ hosts) in
    let same_tags = tags_of-set_domain_resolvers o tags tags s in
    let plain =
      λ (tag : String) (srv : Object) (p : IsPlain tag srv). subst P (sym p.no_detour) absent in
    record {
      fresh = rw same (
          append-AreFresh (resolved ++ fake) hosts
            (append-AreFresh resolved fake (rw same_tags fresh)
              (plain-AreFresh fakeip_tag fake (refl, refl) f))
            (plain-AreFresh hosts_tag hosts (refl, refl) h));
      detoured = prefer_h3_servers-detours P b (resolved ++ fake ++ hosts) (
          All-append (HasDetourTo P) (resolved ++ fake) hosts
            (All-append (HasDetourTo P) resolved fake
              (set_domain_resolvers-All_detour o (λ v. P (as_str v)) tags tags s detoured)
              (All-mono (IsPlain fakeip_tag) (HasDetourTo P) (plain fakeip_tag) fake f))
            (All-mono (IsPlain hosts_tag) (HasDetourTo P) (plain hosts_tag) hosts h));
      holds = λ k. rw same (
          has-tags_of-append k (resolved ++ fake) hosts
          ∙ rw (has-tags_of-append k resolved fake, same_tags) refl);
    }
