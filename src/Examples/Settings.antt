-- ===== src/Examples/Settings.antt =====
-- Concrete settings of the log and of the mirror for rule sets, and the theorems at them.
use cff_core.Base.{ℤ, pos, String, true, [], ◌∷◌, some, ◌≡◌}
use cff_core.Value.{Items, Object, str, list, obj, nil, cons, object_of}
use cff_core.Translator.Rule.Mirror.{Json}
use cff_core.Core.Logging.{
  Log, LogHandler, Record, configured, is_enabled, with_attrs, handle, sync_log_level_from_config,
}
use cff_core.Core.Logging.Laws.{lets_through, sync-is_enabled, handle-with_attrs}

abbrev rule_sets : Items
rule_sets =
    cons
      (obj (
        object_of (
          ("tag", str "geoip-cn")
          ∷ (
            "url",
            str "https://raw.githubusercontent.com/SagerNet/sing-geoip/rule-set/geoip-cn.srs",
          )
          ∷ [])))
      (cons (str "other") nil)

abbrev example_route : Object
example_route = object_of (("final", str "proxy") ∷ ("rule_set", list rule_sets) ∷ [])

abbrev example_root : Object
example_root = object_of (("route", obj example_route) ∷ ("log", obj (object_of [])) ∷ [])

abbrev json : Json
json = record { unmarshal = λ s. some (obj example_root); marshal = λ m. some "{}" }

abbrev show : ℤ → String
show level = "4"

abbrev example_log : Log
example_log = record { level = pos 4; listens = true; lines = []; events = [] }

sync-is_enabled_example :
    is_enabled (pos 0) (sync_log_level_from_config show (pos 1700) (configured "warn") example_log)
    ≡ lets_through "warn" (pos 0) (is_enabled (pos 0) example_log)
sync-is_enabled_example = sync-is_enabled show (pos 1700) "warn" (pos 0) example_log

abbrev warning : Record
warning = record {
  level = pos 4;
  message = "restart";
  time = pos 1700;
  attrs = ("error", "timeout") ∷ [];
}

abbrev plain_handler : LogHandler
plain_handler = record { extra = "" }

handle-with_attrs_example :
    handle (with_attrs (("node", "tokyo") ∷ []) plain_handler) warning example_log
    ≡ handle plain_handler
        (record warning { attrs = ("node", "tokyo") ∷ warning.attrs })
        example_log
handle-with_attrs_example =
    handle-with_attrs plain_handler (("node", "tokyo") ∷ []) warning example_log
