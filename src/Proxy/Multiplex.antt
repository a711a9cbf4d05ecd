-- ===== src/Proxy/Multiplex.antt =====
-- `applyMultiplex` of translator/proxy/common.go.
use cff_core.Base.{String, true, Option, none, some, ◌==◌, if◌then◌else◌}
use cff_core.Outside.{Outside}
use cff_core.Value.{Object, empty, field, bool, obj, put}
use cff_core.Proxy.Fields.{get_str, get_int, get_bool, get_map, put_text, put_flag, put_positive}
use cff_core.Proxy.Bandwidth.{parse_bandwidth}

-- `if s := …; s != "" { if mbps := ParseBandwidth(s); mbps > 0 { m[key] = mbps } }`
unfoldable pub put_bandwidth : String → String → Object → Object
put_bandwidth key s m = if s == "" then m else put_positive key (parse_bandwidth s) m

-- `if len(brutal) > 0 { multiplex["brutal"] = brutal }`
unfoldable pub put_nonempty : String → Object → Object → Object
unfolding put
put_nonempty key empty m = m
put_nonempty key (field k v sub) m = put key (obj (field k v sub)) m

module _ (o : Outside) where
  unfoldable pub brutal_object : Object → Object
  unfolding get_str get_bool put_bandwidth put_flag
  brutal_object opts = put_bandwidth "down_mbps" (get_str o opts "down") (
      put_bandwidth "up_mbps" (get_str o opts "up")
        (put_flag "enabled" (get_bool opts "enabled") empty))

  unfoldable pub put_brutal : Option Object → Object → Object
  put_brutal none m = m
  put_brutal (some opts) m = put_nonempty "brutal" (brutal_object opts) m

  unfoldable pub multiplex_object : Object → Object
  unfolding get_str get_int get_bool get_map put_text put_positive put_flag put_brutal
  multiplex_object smux = put_brutal (get_map smux "brutal-opts") (
      put_flag "padding" (get_bool smux "padding") (
        put_positive "max_streams" (get_int o smux "max-streams") (
          put_positive "min_streams" (get_int o smux "min-streams") (
            put_positive "max_connections" (get_int o smux "max-connections") (
              put_text "protocol" (get_str o smux "protocol")
                (field "enabled" (bool true) empty))))))

  unfoldable pub multiplex_of : Option Object → Object → Object
  multiplex_of none outbound = outbound
  multiplex_of (some smux) outbound =
      if get_bool smux "enabled"
      then put "multiplex" (obj (multiplex_object smux)) outbound
      else outbound

  -- `applyMultiplex`
  unfoldable pub apply_multiplex : Object → Object → Object
  apply_multiplex m outbound = multiplex_of (get_map m "smux") outbound
