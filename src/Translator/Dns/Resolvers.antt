-- ===== src/Translator/Dns/Resolvers.antt =====
-- The loop of `translateDNS` of translator/dns.go that gives each server with a domain for its
-- address a `domain_resolver`.
pub mod Laws
use cff_core.Base.{
  String, List, [], ◌∷◌, ◌++◌, Option, none, some, is_some, ◌||◌, ◌==◌, if◌then◌else◌, is_empty,
}
use cff_core.Base.Text.{◌+++◌}
use cff_core.Outside.{Outside}
use cff_core.Value.{Object, str, put, has_key, get_text}
use cff_core.Translator.Dns.Address.{is_ip_address}

-- The first of the tags that is not the server's own.
unfoldable pub first_other : String → List String → Option String
first_other own [] = none
first_other own (tag ∷ tags) =
    let rest = first_other own tags in if tag == own then rest else some tag

-- `for _, tag := range tags { if tag != srvTag { srv["domain_resolver"] = tag; break } }`
unfoldable pub put_other : Option String → Object → Object
unfolding put
put_other none srv = srv
put_other (some tag) srv = put "domain_resolver" (str tag) srv

abbrev pub resolver_warning : String → String
resolver_warning server =
    "DNS server \"" +++ server
    +++ "\" has a domain address but no non-circular domain_resolver is available"

-- The body of the loop for a server with a domain, and its warnings.
unfoldable pub put_resolver : List String → List String → Object → Object × List String
unfolding first_other put_other has_key get_text
put_resolver resolvers defaults srv =
    let own = get_text "tag" srv in
    let first = put_other (first_other own resolvers) srv in
    let second =
      if has_key "domain_resolver" first
      then first
      else put_other (first_other own defaults) first in
    (
      second,
      if has_key "domain_resolver" second
          then []
          else resolver_warning (get_text "server" srv) ∷ [],
    )

module _ (o : Outside) where
  -- The body of the loop.
  unfoldable pub set_resolver : List String → List String → Object → Object × List String
  unfolding put_resolver is_ip_address get_text
  set_resolver resolvers defaults srv =
      let server = get_text "server" srv in
      if server == "" || is_ip_address o server
      then (srv, [])
      else put_resolver resolvers defaults srv

  unfoldable pub set_domain_resolvers :
      List String → List String → List Object → List Object × List String
  unfolding set_resolver
  set_domain_resolvers resolvers defaults [] = ([], [])
  set_domain_resolvers resolvers defaults (srv ∷ servers) =
      let (srv', ws) = set_resolver resolvers defaults srv in
      let (servers', ws') = set_domain_resolvers resolvers defaults servers in
      (srv' ∷ servers', ws ++ ws')
