-- ===== src/Translator/Dns/Resolvers/Laws.antt =====
-- What the loop over the servers of `translateDNS` (translator/dns.go) sets, and what it keeps.
use cff_core.Base.{
  String, Bool, true, false, ◌||◌, List, [], ◌∷◌, ◌++◌, Option, none, some, ◌==◌, if◌then◌else◌,
  ◌≡◌, refl, ap, ap₂, ◌∙◌, All, All-mono, arith, Bool-cases, Option-cases, inl, inr, ◌⊎◌, eq_refl,
  some-eq-some,
}
use cff_core.Base.StringSet.{has, has-append}
use cff_core.Outside.{Outside}
use cff_core.Value.{Object, Value, str, get, put, has_key, get_text, as_str}
use cff_core.Value.Laws.{get-put}
use cff_core.Translator.Groups.Cleanup.Pass.{tags_of}
use cff_core.Translator.Dns.Address.{is_ip_address}
use cff_core.Translator.Dns.Resolvers.{
  first_other, put_other, put_resolver, set_resolver, set_domain_resolvers, resolver_warning,
}

get-put_other :
    (j : String) (tag : Option String) (srv : Object)
    → ("domain_resolver" == j) ≡ false
    → get j (put_other tag srv) ≡ get j srv
unfolding put_other
get-put_other j none srv h = refl
get-put_other j (some tag) srv h = rw (get-put j "domain_resolver" (str tag) srv, h) refl

if-get :
    (j : String) (b : Bool) (x y srv : Object)
    → get j x ≡ get j srv
    → get j y ≡ get j srv
    → get j (if b then x else y) ≡ get j srv
if-get j true x y srv h k = h
if-get j false x y srv h k = k

get-put_resolver :
    (j : String) (rs ds : List String) (srv : Object)
    → ("domain_resolver" == j) ≡ false
    → get j (put_resolver rs ds srv).0 ≡ get j srv
unfolding put_resolver
get-put_resolver j rs ds srv h =
    let own = get_text "tag" srv in
    let first = put_other (first_other own rs) srv in
    let e = get-put_other j (first_other own rs) srv h in
    if-get j (has_key "domain_resolver" first) first (put_other (first_other own ds) first) srv e
      (get-put_other j (first_other own ds) first h ∙ e)

first_other-is_other :
    (own tag : String) (tags : List String)
    → first_other own tags ≡ some tag
    → (has tag tags ≡ true) × ((tag == own) ≡ false)
unfolding first_other has
first_other-is_other own tag [] h = cc
first_other-is_other own tag (t ∷ tags) h = elim (Bool-cases (t == own)) [
  | inl e ↦ let (k, n) = first_other-is_other own tag tags (rw e at h) in (ground arith, n)
  | inr e ↦ ground (arith, eq_refl tag, some-eq-some (rw e at h))
]

-- A server whose address needs no other server, or with a resolver among the tags that is another server.
pub data IsResolved (o : Outside) (tags : List String) (srv : Object) : Type 0 where
  has_address :
      (get_text "server" srv == "" || is_ip_address o (get_text "server" srv)) ≡ true
      → IsResolved o tags srv
  has_resolver :
      has (get_text "domain_resolver" srv) tags ≡ true
      → (get_text "domain_resolver" srv == get_text "tag" srv) ≡ false
      → IsResolved o tags srv

-- A server as the loop leaves it, with the loop's warnings.
abbrev pub IsSettled : Outside → List String → List String → Object → Type 0
IsSettled o tags warnings srv =
    IsResolved o tags srv ⊎ (has (resolver_warning (get_text "server" srv)) warnings ≡ true)

module _ (o : Outside) (tags : List String) where
  with_other-IsSettled :
      (srv : Object) (tag : String)
      → (has tag tags ≡ true) × ((tag == get_text "tag" srv) ≡ false)
      → IsResolved o tags (put "domain_resolver" (str tag) srv)
  unfolding get_text
  with_other-IsSettled srv tag (known, other) =
      has_resolver (rw (get-put "domain_resolver" "domain_resolver" (str tag) srv) known) (
        rw
          (
            get-put "domain_resolver" "domain_resolver" (str tag) srv,
            get-put "tag" "domain_resolver" (str tag) srv,
          )
          other)

  put_resolver-IsSettled :
      (srv : Object) (rest : List String)
      → get "domain_resolver" srv ≡ none
      → let (srv', ws) = put_resolver tags tags srv in IsSettled o tags (ws ++ rest) srv'
  unfolding put_resolver put_other has_key has
  put_resolver-IsSettled srv rest h = elim (Option-cases (first_other (get_text "tag" srv) tags)) [
    | inl e ↦ rw (e, h) (inr (ground (arith, eq_refl (resolver_warning (get_text "server" srv)))))
    | inr (tag, e) ↦
        rw (e, get-put "domain_resolver" "domain_resolver" (str tag) srv)
          (inl (with_other-IsSettled srv tag (first_other-is_other _ tag tags e)))
  ]

  set_resolver-IsSettled :
      (srv : Object) (rest : List String)
      → get "domain_resolver" srv ≡ none
      → let (srv', ws) = set_resolver o tags tags srv in IsSettled o tags (ws ++ rest) srv'
  unfolding set_resolver
  set_resolver-IsSettled srv rest h =
      elim (Bool-cases (get_text "server" srv == "" || is_ip_address o (get_text "server" srv))) [
        | inl e ↦ rw e (inl (has_address e))
        | inr e ↦ rw e (put_resolver-IsSettled srv rest h)
      ]

  IsSettled-append :
      (ws rest : List String) (srv : Object)
      → IsSettled o tags rest srv
      → IsSettled o tags (ws ++ rest) srv
  IsSettled-append ws rest srv (inl r) = inl r
  IsSettled-append ws rest srv (inr w) =
      inr (ground (arith, has-append (resolver_warning (get_text "server" srv)) ws rest))

  -- After the loop, a server with a domain for its address has another server, one of the tags, as its
  -- resolver, or a warning names it. The loop starts on servers with no resolver.
  pub set_domain_resolvers-IsSettled :
      (servers : List Object)
      → All (λ srv. get "domain_resolver" srv ≡ none) servers
      → let (servers', warnings) = set_domain_resolvers o tags tags servers in
        All (IsSettled o tags warnings) servers'
  unfolding set_domain_resolvers
  set_domain_resolvers-IsSettled [] h = tt
  set_domain_resolvers-IsSettled (srv ∷ servers) (n, h) =
      let rest = set_domain_resolvers o tags tags servers in
      let ws = (set_resolver o tags tags srv).1 in
      (
        set_resolver-IsSettled srv rest.1 n,
        All-mono (IsSettled o tags rest.1) (IsSettled o tags (ws ++ rest.1))
            (IsSettled-append ws rest.1) rest.0 (set_domain_resolvers-IsSettled servers h),
      )

module _ (o : Outside) where
  -- The loop keeps every other key.
  get-set_resolver :
      (j : String) (rs ds : List String) (srv : Object)
      → ("domain_resolver" == j) ≡ false
      → get j (set_resolver o rs ds srv).0 ≡ get j srv
  unfolding set_resolver
  get-set_resolver j rs ds srv h =
      elim (Bool-cases (get_text "server" srv == "" || is_ip_address o (get_text "server" srv))) [
        | inl e ↦ rw e refl
        | inr e ↦ rw e (get-put_resolver j rs ds srv h)
      ]

  pub tags_of-set_domain_resolvers :
      (rs ds : List String) (servers : List Object)
      → tags_of (set_domain_resolvers o rs ds servers).0 ≡ tags_of servers
  unfolding set_domain_resolvers get_text
  tags_of-set_domain_resolvers rs ds [] = refl
  tags_of-set_domain_resolvers rs ds (srv ∷ servers) =
      ap₂ ◌∷◌ (ap as_str (get-set_resolver "tag" rs ds srv refl))
        (tags_of-set_domain_resolvers rs ds servers)

  pub set_domain_resolvers-All_detour {ℓ} :
      (P : Option Value → Type ℓ) (rs ds : List String) (servers : List Object)
      → All (λ srv. P (get "detour" srv)) servers
      → All (λ srv. P (get "detour" srv)) (set_domain_resolvers o rs ds servers).0
  unfolding set_domain_resolvers
  set_domain_resolvers-All_detour P rs ds [] h = tt
  set_domain_resolvers-All_detour P rs ds (srv ∷ servers) (p, h) = (
    rw (get-set_resolver "detour" rs ds srv refl) p,
    set_domain_resolvers-All_detour P rs ds servers h,
  )
