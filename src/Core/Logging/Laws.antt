-- ===== src/Core/Logging/Laws.antt =====
-- What the levels and the attributes of the log come to.
use cff_core.Base.{
  ℤ, pos, negsuc, leb_int, String, Bool, true, List, [], ◌∷◌, ◌++◌, ◌==◌, if◌then◌else◌, ◌≡◌, refl,
  sym, Bool-cases, inl, inr, arith,
}
use text.Mathlib.TextLemmas.{append_assoc, nil-append}
use cff_core.Base.Text.{◌+++◌}
use cff_core.Core.Logging.{
  Log, LogHandler, Record, slog_to_core_level, is_enabled, attr_text, with_attrs, handle,
  parse_log_level, configured, sync_level, sync_log_level_from_config,
}

-- The severities that a name lets through, and those that `otherwise` lets through where it is no level's name.
abbrev pub lets_through : String → ℤ → Bool → Bool
lets_through name level otherwise =
    if name == "trace"
    then true
    else if name == "debug"
    then leb_int (negsuc 3) level
    else if name == "info"
    then leb_int (pos 0) level
    else if name == "warn"
    then leb_int (pos 4) level
    else if name == "error"
    then leb_int (pos 8) level
    else otherwise

core_level-error : (level : ℤ) → leb_int (slog_to_core_level level) (pos 2) ≡ leb_int (pos 8) level
unfolding slog_to_core_level
core_level-error (pos n) = ground arith
core_level-error (negsuc n) = ground arith

core_level-warn : (level : ℤ) → leb_int (slog_to_core_level level) (pos 3) ≡ leb_int (pos 4) level
unfolding slog_to_core_level
core_level-warn (pos n) = ground arith
core_level-warn (negsuc n) = ground arith

core_level-info : (level : ℤ) → leb_int (slog_to_core_level level) (pos 4) ≡ leb_int (pos 0) level
unfolding slog_to_core_level
core_level-info (pos n) = ground arith
core_level-info (negsuc n) = ground arith

core_level-debug :
    (level : ℤ) → leb_int (slog_to_core_level level) (pos 5) ≡ leb_int (negsuc 3) level
unfolding slog_to_core_level
core_level-debug (pos n) = ground arith
core_level-debug (negsuc n) = ground arith

core_level-trace : (level : ℤ) → leb_int (slog_to_core_level level) (pos 6) ≡ true
unfolding slog_to_core_level
core_level-trace (pos n) = ground arith
core_level-trace (negsuc n) = ground arith

module _ (show : ℤ → String) (now : ℤ) where
  -- After the log has taken its level from a configuration, it writes what the configured name lets through, and
  -- what it wrote before where that is not one of the five names.
  pub sync-is_enabled :
      (name : String) (level : ℤ) (log : Log)
      → is_enabled level (sync_log_level_from_config show now (configured name) log)
        ≡ lets_through name level (is_enabled level log)
  unfolding sync_log_level_from_config sync_level parse_log_level is_enabled
  sync-is_enabled name level log = elim (Bool-cases (name == "trace")) [
    | inl e ↦ rw (e, parse_log_level) (core_level-trace level)
    | inr a ↦ elim (Bool-cases (name == "debug")) [
      | inl e ↦ rw (a, e, parse_log_level) (core_level-debug level)
      | inr b ↦ elim (Bool-cases (name == "info")) [
        | inl e ↦ rw (a, b, e, parse_log_level) (core_level-info level)
        | inr c ↦ elim (Bool-cases (name == "warn")) [
          | inl e ↦ rw (a, b, c, e, parse_log_level) (core_level-warn level)
          | inr d ↦ elim (Bool-cases (name == "error")) [
            | inl e ↦ rw (a, b, c, d, e, parse_log_level) (core_level-error level)
            | inr e ↦ rw (a, b, c, d, e, parse_log_level) refl
          ]
        ]
      ]
    ]
  ]

attr_text-append :
    (xs ys : List (String × String)) → attr_text (xs ++ ys) ≡ attr_text xs +++ attr_text ys
unfolding attr_text
attr_text-append [] ys = sym (nil-append (attr_text ys))
attr_text-append ((k, v) ∷ xs) ys = simp (attr_text-append xs ys, append_assoc)

-- The attributes of a handler come out as if each record had them in front of its own.
pub handle-with_attrs :
    (h : LogHandler) (xs : List (String × String)) (r : Record) (log : Log)
    → handle (with_attrs xs h) r log ≡ handle h (record r { attrs = xs ++ r.attrs }) log
unfolding handle with_attrs
handle-with_attrs h xs r log =
    rw (attr_text-append xs r.attrs, append_assoc h.extra (attr_text xs) (attr_text r.attrs)) refl
