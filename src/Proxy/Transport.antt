-- ===== src/Proxy/Transport.antt =====
-- translator/proxy/transport.go: the `network` of a proxy as a sing-box transport object.
use cff_core.Base.{
  ℤ, pos, ◌^◌, ◌-◌, min, is_positive, nat_part, String, Bool, false, ◌||◌, ◌&&◌, List, [], ◌∷◌,
  Option, none, some, ◌==◌, if◌then◌else◌,
}
use cff_core.Outside.{Outside}
use cff_core.Value.{Value, Object, empty, field, str, int, strs, obj, str_map, get, put}
use cff_core.Proxy.Fields.{get_str, get_int, get_bool, get_map, get_str_slice, put_text, put_map}

-- `range h { result[k] = val }` over a `map[string]string`.
unfoldable pub text_object : List (String × String) → Object
unfolding put
text_object [] = empty
text_object ((k, v) ∷ rest) = put k (str v) (text_object rest)

abbrev pub headers_of : Option Value → Option Object
headers_of (some (obj (field k v m))) = some (field k v m)
headers_of (some (str_map (kv ∷ rest))) = some (text_object (kv ∷ rest))
headers_of _ = none

-- `getHeadersMap`: an empty map counts as none.
unfoldable pub get_headers_map : Object → String → Option Object
unfolding get text_object
get_headers_map opts key = headers_of (get key opts)

abbrev pub typed : String → Object
typed t = field "type" (str t) empty

abbrev pub first_path : Option (List String) → Object → Object
first_path none m = m
first_path (some []) m = m
first_path (some (p ∷ ps)) m = put "path" (str p) m

module _ (o : Outside) where
  -- `SkipUnsupportedNetwork`
  unfoldable pub is_unsupported_network : Object → Bool
  unfolding get_str
  is_unsupported_network m = get_str o m "network" == "xhttp"

  -- `min(maxEarlyData, math.MaxUint32)`, where it is positive
  unfoldable pub put_early_data : ℤ → Object → Object
  unfolding put
  put_early_data n m =
      if is_positive n
      then put "max_early_data" (int (pos (min (nat_part n) (2 ^ 32 - 1)))) m
      else m

  -- `translateWS`
  unfoldable pub translate_ws : Option Object → Object
  unfolding get_str get_int get_headers_map put_text put_map put_early_data
  translate_ws none = typed "ws"
  translate_ws (some opts) =
      put_text "early_data_header_name" (get_str o opts "early-data-header-name") (
        put_early_data (get_int o opts "max-early-data") (
          put_map "headers" (get_headers_map opts "headers")
            (put_text "path" (get_str o opts "path") (typed "ws"))))

  -- `translateHTTPUpgrade`
  unfoldable pub translate_http_upgrade : Option Object → Object
  unfolding get_str get_headers_map put_text put_map
  translate_http_upgrade none = typed "httpupgrade"
  translate_http_upgrade (some opts) = put_map "headers" (get_headers_map opts "headers") (
      put_text "path" (get_str o opts "path")
        (put_text "host" (get_str o opts "host") (typed "httpupgrade")))

  -- `http-opts.path` is a text or a list of texts.
  unfoldable pub put_path : Object → Object → Object
  unfolding get_str get_str_slice put
  put_path opts m =
      let path = get_str o opts "path" in
      if path == "" then first_path (get_str_slice opts "path") m else put "path" (str path) m

  http_of : Option Object → Object
  unfolding get_str get_headers_map put_text put_map put_path
  http_of none = typed "http"
  http_of (some opts) =
      put_map "headers" (get_headers_map opts "headers")
        (put_path opts (put_text "method" (get_str o opts "method") (typed "http")))

  -- `translateHTTP`
  unfoldable pub translate_http : Object → Object
  unfolding get_map http_of
  translate_http m = http_of (get_map m "http-opts")

  -- The host of `translateH2`: a text or a list of texts.
  unfoldable pub put_host : Object → Object → Object
  unfolding get_str get_str_slice put
  put_host opts m =
      let host = get_str o opts "host" in
      if host == ""
      then elim (get_str_slice opts "host") [ none ↦ m | some hosts ↦ put "host" (strs hosts) m ]
      else put "host" (strs (host ∷ [])) m

  h2_of : Option Object → Object
  unfolding get_str put_text put_host
  h2_of none = typed "http"
  h2_of (some opts) = put_text "path" (get_str o opts "path") (put_host opts (typed "http"))

  -- `translateH2`
  unfoldable pub translate_h2 : Object → Object
  unfolding get_map h2_of
  translate_h2 m = h2_of (get_map m "h2-opts")

  grpc_of : Option Object → Object
  unfolding get_str put_text
  grpc_of none = typed "grpc"
  grpc_of (some opts) = put_text "service_name" (get_str o opts "grpc-service-name") (typed "grpc")

  -- `translateGRPC`
  unfoldable pub translate_grpc : Object → Object
  unfolding get_map grpc_of
  translate_grpc m = grpc_of (get_map m "grpc-opts")

  abbrev upgrades : Option Object → Bool
  upgrades none = false
  upgrades (some opts) = get_bool opts "v2ray-http-upgrade"

  -- `TranslateTransport`; `none` where plain TCP needs no object.
  unfoldable pub translate_transport : Object → Option Object
  unfolding get_str get_map get_bool translate_ws translate_http_upgrade translate_http translate_h2
      translate_grpc
  translate_transport m =
      let network = get_str o m "network" in
      let ws_opts = get_map m "ws-opts" in
      if network == "" || network == "tcp"
      then none
      else if network == "ws" && upgrades ws_opts
      then some (translate_http_upgrade ws_opts)
      else if network == "ws"
      then some (translate_ws ws_opts)
      else if network == "http"
      then some (translate_http m)
      else if network == "h2"
      then some (translate_h2 m)
      else if network == "grpc"
      then some (translate_grpc m)
      else none
