-- ===== src/Translator/State.antt =====
-- The state of one translation (translator/types_singbox.go): the sing-box configuration under
-- construction, and what the steps tell one another.
use cff_core.Base.{ℕ, String, Bool, List, [], ◌∷◌, ◌++◌, Option}
use cff_core.Base.StringSet.{StringSet}
use cff_core.Value.{Object}

-- `singboxRoute`
pub record Route : Type 0 where
  pub rules : List Object
  pub rule_set : List Object
  pub final : String
  pub auto_detect_interface : Bool
  pub find_process : Bool
  pub default_interface : String
  pub default_mark : ℕ
  pub default_domain_resolver : String

-- `singboxDNS`
pub record Dns : Type 0 where
  pub servers : List Object
  pub rules : List Object
  pub final : String
  pub strategy : String

-- `singboxConfig`. Its `Route` is never nil in a translation.
pub record SingboxConfig : Type 0 where
  pub log : Option Object
  pub dns : Option Dns
  pub inbounds : List Object
  pub outbounds : List Object
  pub route : Route
  pub experimental : Option Object

pub record Translation : Type 0 where
  pub config : SingboxConfig
  pub warnings : List String
  pub proxy_tags : StringSet
  -- Tag to original type, the latest entry of a tag first.
  pub stub_tags : List (String × String)
  pub invalid_health_check_proxy_tags : StringSet
  pub group_tag_order : List String
  pub group_tags : StringSet
  pub rule_set_defs : List (String × Object)
  pub ech_query_servers : List String
  pub dns_terminal_rules : List Object
  pub dns_enabled : Bool
  pub country : String

-- `t.warn`
unfoldable pub warn : String → Translation → Translation
warn msg t = record t { warnings = t.warnings ++ msg ∷ [] }

unfoldable pub warn_all : List String → Translation → Translation
warn_all msgs t = record t { warnings = t.warnings ++ msgs }

-- `firstGroupTag`
abbrev pub first_or_empty : List String → String
first_or_empty [] = ""
first_or_empty (tag ∷ tags) = tag

unfoldable pub first_group_tag : Translation → String
first_group_tag t = first_or_empty t.group_tag_order
