-- ===== src/Translator/Ech.antt =====
-- `collectECHQueryServers` and `addDNSRouteAction` of translator/dns.go.
use cff_core.Base.{
  String, List, [], ◌∷◌, ◌++◌, Option, none, some, ◌&&◌, not, map, ◌==◌, ◌||◌, if◌then◌else◌,
}
use cff_core.Base.StringSet.{has}
use cff_core.Value.{Value, Object, str, obj, get, put, has_key, get_text, empty}
use cff_core.Translator.State.{Translation, Dns}

-- `m, ok := v.(map[string]any)`: the empty map stands for a value of another type, and gives no key.
abbrev pub as_object : Option Value → Object
as_object (some (obj m)) = m
as_object _ = empty

-- `tls.ech.query_server_name` of an outbound, empty where a level is absent.
unfoldable pub query_server : Object → String
unfolding get get_text
query_server ob = get_text "query_server_name" (as_object (get "ech" (as_object (get "tls" ob))))

unfoldable pub collect_servers : List Object → List String → List String
unfolding query_server has
collect_servers [] servers = servers
collect_servers (ob ∷ obs) servers =
    let server = query_server ob in
    collect_servers obs
      (if server == "" || has server servers then servers else servers ++ server ∷ [])

-- `collectECHQueryServers`
unfoldable pub collect_ech_query_servers : List Object → Translation → Translation
unfolding collect_servers
collect_ech_query_servers obs t = record t {
  ech_query_servers = collect_servers obs t.ech_query_servers;
}

-- The body of the loop of `addDNSRouteAction`.
unfoldable pub route_action : Object → Object
unfolding has_key put
route_action rule =
    if not (has_key "action" rule) && has_key "server" rule
    then put "action" (str "route") rule
    else rule

abbrev pub with_actions : Option Dns → Option Dns
with_actions none = none
with_actions (some dns) = some (record dns { rules = map route_action dns.rules })

-- `addDNSRouteAction`
unfoldable pub add_dns_route_action : Translation → Translation
unfolding route_action
add_dns_route_action t = record t { config = record t.config { dns = with_actions t.config.dns } }
