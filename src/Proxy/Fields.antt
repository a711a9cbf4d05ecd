-- ===== src/Proxy/Fields.antt =====
-- The accessors of translator/proxy/common.go, and the conditional writes that the translators of all
-- protocols share.
use cff_core.Base.{
  ℤ, pos, zero, is_zero, is_positive, String, Bool, true, false, List, Option, none, some, ◌==◌,
  if◌then◌else◌,
}
use cff_core.Base.Text.Decimal.{itoa, atoi}
use cff_core.Outside.{Outside}
use cff_core.Value.{
  Value, Object, str, int, int64, float, bool, strs, list, obj, get, put, item_texts,
}

abbrev pub or_zero : Option ℤ → ℤ
or_zero none = pos zero
or_zero (some n) = n

abbrev pub bool_text : Bool → String
bool_text true = "true"
bool_text false = "false"

module _ (o : Outside) where
  -- The switch of `GetStr`: a scalar as text, and nothing for a list, a map or nil.
  unfoldable pub scalar_text : Option Value → String
  unfolding itoa
  scalar_text (some (str s)) = s
  scalar_text (some (int n)) = itoa n
  scalar_text (some (int64 n)) = itoa n
  scalar_text (some (float f)) = o.float_text f
  scalar_text (some (bool b)) = bool_text b
  scalar_text _ = ""

  -- `GetStr`
  unfoldable pub get_str : Object → String → String
  unfolding get scalar_text
  get_str m key = scalar_text (get key m)

  -- The switch of `GetInt`.
  unfoldable pub scalar_int : Option Value → ℤ
  unfolding atoi
  scalar_int (some (int n)) = n
  scalar_int (some (int64 n)) = n
  scalar_int (some (float f)) = o.float_int f
  scalar_int (some (str s)) = or_zero (atoi s)
  scalar_int _ = pos zero

  -- `GetInt`
  unfoldable pub get_int : Object → String → ℤ
  unfolding get scalar_int
  get_int m key = scalar_int (get key m)

abbrev pub as_bool : Option Value → Bool
as_bool (some (bool b)) = b
as_bool _ = false

-- `GetBool`
unfoldable pub get_bool : Object → String → Bool
unfolding get
get_bool m key = as_bool (get key m)

abbrev pub as_map : Option Value → Option Object
as_map (some (obj m)) = some m
as_map _ = none

-- `GetMap`; `none` is nil.
unfoldable pub get_map : Object → String → Option Object
unfolding get
get_map m key = as_map (get key m)

abbrev pub as_slice : Option Value → Option (List String)
as_slice (some (strs xs)) = some xs
as_slice (some (list xs)) = some (item_texts xs)
as_slice _ = none

-- `GetStrSlice`; `none` is nil, which an empty list is not.
unfoldable pub get_str_slice : Object → String → Option (List String)
unfolding get item_texts
get_str_slice m key = as_slice (get key m)

-- `if s != "" { m[key] = s }`
unfoldable pub put_text : String → String → Object → Object
unfolding put
put_text key s m = if s == "" then m else put key (str s) m

-- `if b { m[key] = true }`
unfoldable pub put_flag : String → Bool → Object → Object
unfolding put
put_flag key b m = if b then put key (bool true) m else m

-- `if n > 0 { m[key] = n }`
unfoldable pub put_positive : String → ℤ → Object → Object
unfolding put
put_positive key n m = if is_positive n then put key (int n) m else m

-- `if xs != nil { m[key] = xs }`
unfoldable pub put_slice : String → Option (List String) → Object → Object
unfolding put
put_slice key none m = m
put_slice key (some xs) m = put key (strs xs) m

-- `if sub != nil { m[key] = sub }`
unfoldable pub put_map : String → Option Object → Object → Object
unfolding put
put_map key none m = m
put_map key (some sub) m = put key (obj sub) m

-- `if n != 0 { m[key] = n }`
unfoldable pub put_nonzero : String → ℤ → Object → Object
unfolding put
put_nonzero key n m = if is_zero n then m else put key (int n) m

-- `ApplyCommonFields`
unfoldable pub apply_common_fields : Outside → Object → Object → Object
apply_common_fields o src dst = put_text "detour" (get_str o src "dialer-proxy") (
    put_flag "tcp_multi_path" (get_bool src "mptcp") (
      put_flag "tcp_fast_open" (get_bool src "tfo") (
        put_positive "routing_mark" (get_int o src "routing-mark") (
          put_text "bind_interface" (get_str o src "interface-name") (
            put_nonzero "server_port" (get_int o src "port") (
              put "server" (str (get_str o src "server"))
                (put "tag" (str (get_str o src "name")) dst)))))))
