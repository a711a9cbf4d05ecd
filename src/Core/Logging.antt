-- ===== src/Core/Logging.antt =====
-- core/logging.go: the level of the log, the handler that writes records to stderr and to the callback, and
-- the level that a configuration sets. A log is the state of the package and what was written so far.
pub mod Laws
use cff_core.Base.{
  ℤ, pos, negsuc, leb_int, String, Bool, List, [], ◌∷◌, ◌++◌, Option, some, none, ◌==◌,
  if◌then◌else◌,
}
use cff_core.Base.Text.{◌+++◌}

-- `LogEntry`
pub record LogEntry : Type 0 where
  pub level : ℤ
  pub message : String
  pub timestamp : ℤ

-- The variables of the package, with the lines on stderr and the events that the callback got. Of the callback, it
-- counts whether there is one.
pub record Log : Type 0 where
  pub level : ℤ
  pub listens : Bool
  pub lines : List String
  pub events : List LogEntry

-- `slog.Record` with a key and the formatted value for each attribute.
pub record Record : Type 0 where
  pub level : ℤ
  pub message : String
  pub time : ℤ
  pub attrs : List (String × String)

-- `coreLogHandler`
pub record LogHandler : Type 0 where
  pub extra : String

-- `SetOnLogEvent`
unfoldable pub set_on_log_event : Bool → Log → Log
set_on_log_event listens log = record log { listens = listens }

-- `SetLogLevel`
unfoldable pub set_log_level : ℤ → Log → Log
set_log_level level log = record log { level = level }

-- `slogToCoreLevel`: from `slog.LevelError`, which is 8, down to `slog.LevelDebug`, which is -4.
unfoldable pub slog_to_core_level : ℤ → ℤ
slog_to_core_level level =
    if leb_int (pos 8) level
    then pos 2
    else if leb_int (pos 4) level
    then pos 3
    else if leb_int (pos 0) level
    then pos 4
    else if leb_int (negsuc 3) level
    then pos 5
    else pos 6

-- `Enabled`
unfoldable pub is_enabled : ℤ → Log → Bool
unfolding slog_to_core_level
is_enabled level log = leb_int (slog_to_core_level level) log.level

-- `fmt.Fprintf(&b, " %s=%v", a.Key, a.Value)` for each attribute
unfoldable pub attr_text : List (String × String) → String
attr_text [] = ""
attr_text ((key, value) ∷ attrs) = " " +++ key +++ "=" +++ value +++ attr_text attrs

-- `WithAttrs`
unfoldable pub with_attrs : List (String × String) → LogHandler → LogHandler
unfolding attr_text
with_attrs attrs h = record { extra = h.extra +++ attr_text attrs }

-- `Handle`
unfoldable pub handle : LogHandler → Record → Log → Log
unfolding attr_text slog_to_core_level
handle h r log =
    let line = r.message +++ h.extra +++ attr_text r.attrs in
    let entry : LogEntry = record {
      level = slog_to_core_level r.level;
      message = line;
      timestamp = r.time;
    } in
    record log {
      lines = log.lines ++ (line ∷ []);
      events = if log.listens then log.events ++ (entry ∷ []) else log.events;
    }

-- A record that the program logs: `slog.Info` and the others ask `Enabled` first.
unfoldable pub write : Record → Log → Log
unfolding is_enabled handle
write r log = if is_enabled r.level log then handle (record { extra = "" }) r log else log

-- `parseLogLevel`
unfoldable pub parse_log_level : String → Option ℤ
parse_log_level s =
    if s == "trace"
    then some (pos 6)
    else if s == "debug"
    then some (pos 5)
    else if s == "info"
    then some (pos 4)
    else if s == "warn"
    then some (pos 3)
    else if s == "error"
    then some (pos 2)
    else none

-- The outcome of reading `log.level` of a configuration: the text of the error, or the level as it stands there.
pub data LevelRead : Type 0 where
  unreadable : String → LevelRead
  configured : String → LevelRead

-- `fmt` of numbers and the time of the record are arguments.
module _ (show : ℤ → String) (now : ℤ) where
  unfoldable pub sync_level : String → Option ℤ → Log → Log
  unfolding write set_log_level
  sync_level name none log = log
  sync_level name (some new_level) log =
      let attrs =
        ("configLevel", name) ∷ ("oldLevel", show log.level) ∷ ("newLevel", show new_level) ∷ [] in
      set_log_level new_level (
        write
          (record {
            level = pos 0;
            message = "[syncLogLevel] syncing log level";
            time = now;
            attrs = attrs;
          })
          log)

  -- `syncLogLevelFromConfig`
  unfoldable pub sync_log_level_from_config : LevelRead → Log → Log
  unfolding sync_level write parse_log_level
  sync_log_level_from_config (unreadable error) log =
      write
        (record {
          level = negsuc 3;
          message = "[syncLogLevel] parse config failed";
          time = now;
          attrs = ("error", error) ∷ [];
        })
        log
  sync_log_level_from_config (configured name) log = sync_level name (parse_log_level name) log
