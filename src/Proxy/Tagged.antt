-- ===== src/Proxy/Tagged.antt =====
-- The tag and the members of the outbounds that the translators of translator/proxy give.
pub mod Stream
pub mod Quic
pub mod Plain
use cff_core.Base.{
  ℕ, ℤ, String, Bool, true, false, List, [], ◌∷◌, Option, none, some, ◌==◌, ◌≡◌, refl, ◌∙◌, ap,
  arith, Bool-cases, inl, inr,
}
use cff_core.Outside.{Outside}
use cff_core.Value.{
  Value, Object, empty, field, str, strs, bool, int, obj, get, put, get_text, as_str,
}
use cff_core.Value.Laws.{get-put}
use cff_core.Proxy.Fields.{
  get_str, put_text, put_flag, put_positive, put_nonzero, put_slice, put_map, get_map,
  apply_common_fields,
}
use cff_core.Proxy.Transport.{translate_transport}
use cff_core.Proxy.Bandwidth.{parse_bandwidth}
use cff_core.Proxy.Multiplex.{put_bandwidth, multiplex_object, multiplex_of, apply_multiplex}
use cff_core.Proxy.Tls.{translate_tls}
use cff_core.Proxy.Protocols.Start.{start, put_tls, finish}

pub record IsTagged (name : String) (ob : Object) : Type 0 where
  pub tag : get "tag" ob ≡ some (str name)
  pub no_members : get "outbounds" ob ≡ none

-- A key that is neither of the two.
abbrev pub IsOther : String → Type 0
IsOther key = ((key == "tag") ≡ false) × ((key == "outbounds") ≡ false)

module _ {name : String} (key : String) (other : IsOther key) where
  pub put-IsTagged : (v : Value) {m : Object} → IsTagged name m → IsTagged name (put key v m)
  put-IsTagged v {m} h = record {
    tag = get-put "tag" key v m ∙ (rw other.0 h.tag);
    no_members = get-put "outbounds" key v m ∙ (rw other.1 h.no_members);
  }

  pub put_text-IsTagged :
      (s : String) {m : Object} → IsTagged name m → IsTagged name (put_text key s m)
  unfolding put_text
  put_text-IsTagged s h = ground (arith, put-IsTagged (str s) h)

  pub put_flag-IsTagged :
      (b : Bool) {m : Object} → IsTagged name m → IsTagged name (put_flag key b m)
  unfolding put_flag
  put_flag-IsTagged b h = ground (arith, put-IsTagged (bool true) h)

  pub put_positive-IsTagged :
      (n : ℤ) {m : Object} → IsTagged name m → IsTagged name (put_positive key n m)
  unfolding put_positive
  put_positive-IsTagged n h = ground (arith, put-IsTagged (int n) h)

  pub put_slice-IsTagged :
      (xs : Option (List String)) {m : Object}
      → IsTagged name m
      → IsTagged name (put_slice key xs m)
  unfolding put_slice
  put_slice-IsTagged none h = h
  put_slice-IsTagged (some xs) h = put-IsTagged (strs xs) h

  pub put_map-IsTagged :
      (sub : Option Object) {m : Object} → IsTagged name m → IsTagged name (put_map key sub m)
  unfolding put_map
  put_map-IsTagged none h = h
  put_map-IsTagged (some sub) h = put-IsTagged (obj sub) h

  pub put_bandwidth-IsTagged :
      (s : String) {m : Object} → IsTagged name m → IsTagged name (put_bandwidth key s m)
  unfolding put_bandwidth
  put_bandwidth-IsTagged s h = ground (arith, put_positive-IsTagged (parse_bandwidth s) h)

  pub put_nonzero-IsTagged :
      (n : ℤ) {m : Object} → IsTagged name m → IsTagged name (put_nonzero key n m)
  unfolding put_nonzero
  put_nonzero-IsTagged n h = ground (arith, put-IsTagged (int n) h)

-- The tag that `ApplyCommonFields` writes, over an object with no members.
named-IsTagged :
    (name : String) (m : Object) → get "outbounds" m ≡ none → IsTagged name (put "tag" (str name) m)
named-IsTagged name m h = record {
  tag = get-put "tag" "tag" (str name) m;
  no_members = get-put "outbounds" "tag" (str name) m ∙ h;
}

module _ (o : Outside) where
  pub common-IsTagged :
      (src m : Object)
      → get "outbounds" m ≡ none
      → IsTagged (get_str o src "name") (apply_common_fields o src m)
  unfolding apply_common_fields
  common-IsTagged src m h =
      put_text-IsTagged "detour" (refl, refl) _
        (put_flag-IsTagged "tcp_multi_path" (refl, refl) _
          (put_flag-IsTagged "tcp_fast_open" (refl, refl) _
            (put_positive-IsTagged "routing_mark" (refl, refl) _
              (put_text-IsTagged "bind_interface" (refl, refl) _
                (put_nonzero-IsTagged "server_port" (refl, refl) _
                  (put-IsTagged "server" (refl, refl) _
                    (named-IsTagged (get_str o src "name") m h)))))))

  pub start-IsTagged : (type : String) (m : Object) → IsTagged (get_str o m "name") (start o type m)
  unfolding start
  start-IsTagged type m = common-IsTagged m _ (unfold get in refl)

  pub put_tls-IsTagged :
      {name : String} (m : Object) {ob : Object}
      → IsTagged name ob
      → IsTagged name (put_tls o m ob).0
  unfolding put_tls
  put_tls-IsTagged m h = put_map-IsTagged "tls" (refl, refl) _ h

  multiplex_of-IsTagged :
      {name : String} (smux : Option Object) {ob : Object}
      → IsTagged name ob
      → IsTagged name (multiplex_of o smux ob)
  unfolding multiplex_of
  multiplex_of-IsTagged none h = h
  multiplex_of-IsTagged (some smux) h =
      ground (arith, put-IsTagged "multiplex" (refl, refl) (obj (multiplex_object o smux)) h)

  pub apply_multiplex-IsTagged :
      {name : String} (m : Object) {ob : Object}
      → IsTagged name ob
      → IsTagged name (apply_multiplex o m ob)
  unfolding apply_multiplex
  apply_multiplex-IsTagged m h = multiplex_of-IsTagged (get_map m "smux") h

  pub finish-IsTagged :
      {name : String} (m : Object) {ob : Object} → IsTagged name ob → IsTagged name (finish o m ob)
  unfolding finish
  finish-IsTagged m h = apply_multiplex-IsTagged m (put_map-IsTagged "transport" (refl, refl) _ h)
