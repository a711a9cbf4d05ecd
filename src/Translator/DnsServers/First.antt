-- ===== src/Translator/DnsServers/First.antt =====
-- Which server the searches of translator/dns.go give.
use cff_core.Base.{
  String, Bool, true, false, ◌&&◌, List, [], ◌∷◌, some, ◌==◌, if◌then◌else◌, ◌≡◌, refl, arith,
  Bool-cases, inl, inr,
}
use cff_core.Value.{Object, get_text}
use cff_core.Translator.State.{Dns}
use cff_core.Translator.DnsServers.{
  is_direct, find_from, find_server, is_udp, is_encrypted, find_first_direct_dns_tag,
  find_first_ech_capable_dns_tag,
}

-- The tags of the direct servers whose type passes a test, in order.
abbrev pub direct_tags : (String → Bool) → List Object → List String
direct_tags preferred [] = []
direct_tags preferred (srv ∷ servers) =
    let rest = direct_tags preferred servers in
    if is_direct srv && preferred (get_text "type" srv) then get_text "tag" srv ∷ rest else rest

abbrev pub any_type : String → Bool
any_type type = true

-- The first of some texts, and another text where there is none.
abbrev pub first_or : String → List String → String
first_or other [] = other
first_or other (x ∷ xs) = x

is_direct-tag : (srv : Object) → is_direct srv ≡ true → (get_text "tag" srv == "") ≡ false
unfolding is_direct
is_direct-tag srv h = ground (arith, h)

-- One round, at any results of its tests.
round-first_or :
    (direct preferred : Bool) (tag fallback rest : String) (others chosen : List String)
    → (direct ≡ true → (tag == "") ≡ false)
    → (let next = if direct && fallback == "" then tag else fallback in
        rest ≡ first_or (if next == "" then first_or next others else next) chosen)
    → (if direct && preferred then tag else rest)
      ≡ first_or
          (if fallback == ""
            then first_or fallback (if direct && true then tag ∷ others else others)
            else fallback)
          (if direct && preferred then tag ∷ chosen else chosen)
round-first_or false preferred tag fallback rest others chosen h e = e
round-first_or true true tag fallback rest others chosen h e = refl
round-first_or true false tag fallback rest others chosen h e = elim (Bool-cases (fallback == "")) [
  | inl z ↦ rw z (rw (z, h refl) at e)
  | inr z ↦ rw z (rw (z, z) at e)
]

find_from-first_or :
    (preferred : String → Bool) (servers : List Object) (fallback : String)
    → find_from preferred servers fallback
      ≡ first_or
          (if fallback == "" then first_or fallback (direct_tags any_type servers) else fallback)
          (direct_tags preferred servers)
unfolding find_from
find_from-first_or preferred [] fallback = ground arith
find_from-first_or preferred (srv ∷ servers) fallback =
    round-first_or (is_direct srv) (preferred (get_text "type" srv)) (get_text "tag" srv) fallback _
      _ _ (is_direct-tag srv) (find_from-first_or preferred servers _)

-- The direct DNS server is the first direct one of type udp, and the one for ECH the first direct one of an
-- encrypted type; each is the first direct server where there is none of its types, and empty where no server is direct.
pub find_first_direct_dns_tag-first_or :
    (dns : Dns)
    → let others = first_or "" (direct_tags any_type dns.servers) in
      (find_first_direct_dns_tag (some dns) ≡ first_or others (direct_tags is_udp dns.servers))
      × (find_first_ech_capable_dns_tag (some dns)
          ≡ first_or others (direct_tags is_encrypted dns.servers))
unfolding find_first_direct_dns_tag find_first_ech_capable_dns_tag find_server
find_first_direct_dns_tag-first_or dns =
    (find_from-first_or is_udp dns.servers "", find_from-first_or is_encrypted dns.servers "")
