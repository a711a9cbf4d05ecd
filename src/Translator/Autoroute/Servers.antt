-- ===== src/Translator/Autoroute/Servers.antt =====
-- The servers that the DNS rules of translator/autoroute.go name.
use cff_core.Base.{
  String, Bool, true, false, not, ◌&&◌, List, [], ◌∷◌, ◌++◌, Option, some, ◌==◌, if◌then◌else◌, ◌≡◌,
  refl, All, All-append, arith, Bool-cases, inl, inr, eq_refl,
}
use cff_core.Base.StringSet.{has}
use cff_core.Value.{Value, Object, str, strs, get, get_text, object_of}
use cff_core.Value.Laws.{get-object_of_pair}
use cff_core.Translator.State.{Translation, Dns}
use cff_core.Translator.Groups.Cleanup.Pass.{tags_of}
use cff_core.Translator.Validation.Sound.{IsServer, IsReference}
use cff_core.Translator.DnsServers.{
  is_direct, find_from, find_server, is_encrypted, find_fake_ip_from,
  find_first_ech_capable_dns_tag, find_fake_ip_tag,
}
use cff_core.Translator.Dns.References.{Names-IsServer}
use cff_core.Translator.Dns.FakeIp.Laws.{HasServer}
use cff_core.Translator.Autoroute.{server_rule, ech_rules, fake_ip_rules, ordered_rules}

module _ (P : String → Type 0) where
  either : (b : Bool) (x y : String) → P x → P y → P (if b then x else y)
  either true x y p q = p
  either false x y p q = q

  find_from-holds :
      (preferred : String → Bool) (servers : List Object) (fallback : String)
      → ((k : String) → has k (tags_of servers) ≡ true → P k)
      → P fallback
      → P (find_from preferred servers fallback)
  unfolding find_from has
  find_from-holds preferred [] fallback f p = p
  find_from-holds preferred (srv ∷ servers) fallback f p =
      let tag = get_text "tag" srv in
      let own = f tag (ground (arith, eq_refl tag)) in
      let rest = λ (next : String) (q : P next).
        find_from-holds preferred servers next (λ k h. f k (ground (arith, h))) q in
      either (is_direct srv && preferred (get_text "type" srv)) tag _ own
        (rest _ (either (is_direct srv && fallback == "") tag fallback own p))

  find_fake_ip_from-holds :
      (servers : List Object)
      → ((k : String) → has k (tags_of servers) ≡ true → P k)
      → P ""
      → P (find_fake_ip_from servers)
  unfolding find_fake_ip_from has
  find_fake_ip_from-holds [] f p = p
  find_fake_ip_from-holds (srv ∷ servers) f p =
      let tag = get_text "tag" srv in
      either (get_text "type" srv == "fakeip" && not (tag == "")) tag _
        (f tag (ground (arith, eq_refl tag)))
        (find_fake_ip_from-holds servers (λ k h. f k (ground (arith, h))) p)

  server_rule-HasServer :
      (key : String) (v : Value) (server : String)
      → (key == "server") ≡ false
      → P server
      → HasServer P (server_rule key v server)
  unfolding server_rule get_text
  server_rule-HasServer key v server h p = rw (get-object_of_pair "server" key v (str server) h) p

  or_direct :
      (tag direct : String)
      → P direct
      → ((tag == "") ≡ false → P tag)
      → P (if tag == "" then direct else tag)
  or_direct tag direct p q = elim (Bool-cases (tag == "")) [ inl e ↦ rw e p | inr e ↦ rw e (q e) ]

  ech_rules-All :
      (names : List String) (dns : Option Dns) (direct : String)
      → P direct
      → ((find_first_ech_capable_dns_tag dns == "") ≡ false
          → P (find_first_ech_capable_dns_tag dns))
      → All (HasServer P) (ech_rules names dns direct)
  unfolding ech_rules
  ech_rules-All [] dns direct p q = tt
  ech_rules-All (n ∷ ns) dns direct p q =
      let tag = find_first_ech_capable_dns_tag dns in
      (server_rule-HasServer "domain" (strs (n ∷ ns)) _ refl (or_direct tag direct p q), tt)

  fake_ip_rules-All :
      (tag : String) → ((tag == "") ≡ false → P tag) → All (HasServer P) (fake_ip_rules tag)
  unfolding fake_ip_rules
  fake_ip_rules-All tag p = elim (Bool-cases (tag == "")) [
    | inl e ↦ rw e tt
    | inr e ↦
        rw e (server_rule-HasServer "query_type" (strs ("A" ∷ "AAAA" ∷ [])) tag refl (p e), tt)
  ]

-- A tag of one of the servers, or none.
tag-IsReference :
    (servers : List Object) (k : String)
    → has k (tags_of servers) ≡ true
    → IsReference (IsServer servers) k
tag-IsReference servers k h = elim (Bool-cases (k == "")) [
  | inl e ↦ inl e
  | inr e ↦ inr (Names-IsServer servers k (record { known = h; some_text = e }))
]

-- A reference that is not empty resolves.
pub given-IsServer :
    (servers : List Object) (k : String)
    → IsReference (IsServer servers) k
    → (k == "") ≡ false
    → IsServer servers k
given-IsServer servers k (inl e) n = absurd (ground (arith, e, n))
given-IsServer servers k (inr h) n = h

module _ (dns : Dns) where
  abbrev Q : String → Type 0
  Q = IsReference (IsServer dns.servers)

  pub found-IsReference : (preferred : String → Bool) → Q (find_server preferred (some dns))
  unfolding find_server
  found-IsReference preferred =
      find_from-holds Q preferred dns.servers "" (tag-IsReference dns.servers) (inl refl)

  pub ordered_rules-All :
      (t : Translation) (direct : String)
      → IsServer dns.servers direct
      → All (HasServer (IsServer dns.servers)) dns.rules
      → All (HasServer (IsServer dns.servers)) t.dns_terminal_rules
      → All (HasServer (IsServer dns.servers)) (ordered_rules dns t direct)
  unfolding ordered_rules find_fake_ip_tag find_first_ech_capable_dns_tag server_rule get_text get
      object_of
  ordered_rules-All t direct p rules terminal =
      let H = HasServer (IsServer dns.servers) in
      let ech =
        ech_rules-All (IsServer dns.servers) t.ech_query_servers (some dns) direct p
          (given-IsServer dns.servers _ (found-IsReference is_encrypted)) in
      let fake = fake_ip_rules-All (IsServer dns.servers) (find_fake_ip_from dns.servers) (
        given-IsServer dns.servers _
          (find_fake_ip_from-holds Q dns.servers (tag-IsReference dns.servers) (inl refl))) in
      (
        p,
        All-append H (dns.rules ++ _) t.dns_terminal_rules
            (All-append H dns.rules _ rules
              (All-append H (ech_rules t.ech_query_servers (some dns) direct) _ ech (p, fake)))
            terminal,
      )
