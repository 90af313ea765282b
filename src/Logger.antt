-- ===== src/Logger.antt =====
-- cmd/logger/logger.go: loggers, the default one, and what they write. The handlers of Go's slog
-- package are outside: a written record is its destination, its format and its attributes, the
-- latest record first. The formats of a time and of a duration, and which files open, are
-- parameters.
pub mod Laws
pub mod Tests
use consensus_proxy.Base.{
  ℕ, ◌+◌, String, Bool, List, [], ◌∷◌, ◌++◌, str_eq, leb_ℤ, ℤ, pos, negsuc, if◌then◌else◌, Option,
  none, some, map,
}
use consensus_proxy.Http.{Bytes}

-- The levels of slog.
pub data Level : Type 0 where
  level_debug level_info level_warn level_error : Level

abbrev pub severity : Level → ℤ
severity level_debug = negsuc 3
severity level_info = pos 0
severity level_warn = pos 4
severity level_error = pos 8

pub data Output : Type 0 where
  stdout stderr : Output
  file : String → Output

pub data Format : Type 0 where
  json_handler text_handler : Format

pub data Value : Type 0 where
  text : String → Value
  -- What fmt printed.
  printed : Bytes → Value
  int : ℤ → Value
  flag : Bool → Value
  instant : ℕ → Value

abbrev pub Attr : Type 0
Attr = String × Value

-- `Config`, with the level as a text.
pub record LogConfig : Type 0 where
  pub level : String
  pub format : String
  pub output : String

pub record Logger : Type 0 where
  pub level : Level
  pub format : Format
  pub output : Output
  pub attrs : List Attr

abbrev pub default_config : LogConfig
default_config = record { level = "info"; format = "json"; output = "stdout" }

-- The `switch` on the level.
unfoldable pub level_of : String → Level
level_of s =
    if str_eq s "debug"
    then level_debug
    else if str_eq s "info"
    then level_info
    else if str_eq s "warn"
    then level_warn
    else if str_eq s "error"
    then level_error
    else level_info

-- The `switch` on the output: a file that does not open gives way to the standard output.
unfoldable pub output_of : (String → Bool) → String → Output
output_of opens s =
    if str_eq s "stdout"
    then stdout
    else if str_eq s "stderr"
    then stderr
    else if opens s
    then file s
    else stdout

unfoldable pub format_of : String → Format
format_of s = if str_eq s "text" then text_handler else json_handler

abbrev config_or_default : Option LogConfig → LogConfig
config_or_default none = default_config
config_or_default (some config) = config

-- `New`
unfoldable pub new_logger : (String → Bool) → Option LogConfig → Logger
unfolding level_of output_of format_of
new_logger opens config =
    let c = config_or_default config in
    record {
      level = level_of c.level;
      format = format_of c.format;
      output = output_of opens c.output;
      attrs = [];
    }

-- `NewFromConfigStruct`
abbrev pub new_from_config_struct : (String → Bool) → String → String → String → Logger
new_from_config_struct opens level format output =
    new_logger opens (some (record { level = level; format = format; output = output }))

pub record Written : Type 0 where
  pub output : Output
  pub format : Format
  pub level : Level
  pub attrs : List Attr

-- The global `defaultLogger`, `nil` at first, and what was written.
pub record Logging : Type 0 where
  pub default_logger : Option Logger
  pub written : List Written

-- Whether a logger writes the records of a level.
abbrev pub enabled : Logger → Level → Bool
enabled l level = leb_ℤ (severity l.level) (severity level)

module _ (rfc3339 : ℕ → String) where
  -- `ReplaceAttr`: the time gets another name and another format.
  pub replace_attr : Attr → Attr
  replace_attr (key, instant t) =
      if str_eq key "time" then ("timestamp", text (rfc3339 t)) else (key, instant t)
  replace_attr (key, text s) = (key, text s)
  replace_attr (key, printed s) = (key, printed s)
  replace_attr (key, int n) = (key, int n)
  replace_attr (key, flag b) = (key, flag b)

  -- A record of a logger: the time and the message, then the logger's attributes and the call's.
  pub record_of : ℕ → Logger → Level → String → List Attr → Written
  unfolding replace_attr
  record_of now l level message args = record {
    output = l.output;
    format = l.format;
    level = level;
    attrs = map replace_attr (("time", instant now) ∷ ("msg", text message) ∷ (l.attrs ++ args));
  }

  -- `Debug`, `Info`, `Warn` and `Error` of a logger.
  pub log : Level → ℕ → String → List Attr → Logger → Logging → Logging
  unfolding record_of
  log level now message args l st =
      if enabled l level
      then record st { written = record_of now l level message args ∷ st.written }
      else st

  -- `LogRequest`, with the duration as it is printed.
  pub log_request : String → String → String → String → ℤ → String → ℕ → Logger → Logging → Logging
  unfolding log
  log_request method path user_agent duration status_code node_used now l st =
      log level_info now "request completed"
        (("method", text method)
          ∷ ("path", text path)
          ∷ ("user_agent", text user_agent)
          ∷ ("duration", text duration)
          ∷ ("status_code", int status_code)
          ∷ ("node_used", text node_used)
          ∷ [])
        l st

  -- `LogStartup`
  pub log_startup : ℤ → String → ℕ → ℕ → Logger → Logging → Logging
  unfolding log
  log_startup port config_file node_count now l st =
      log level_info now "beacon proxy starting"
        (("port", int port)
          ∷ ("config_file", text config_file)
          ∷ ("node_count", int (pos node_count))
          ∷ ("version", text "dev")
          ∷ [])
        l st

  -- `LogError`, with the error's text.
  pub log_error : String → String → List Attr → ℕ → Logger → Logging → Logging
  unfolding log
  log_error operation err context now l st =
      log level_error now "operation failed"
        ((("operation", text operation) ∷ ("error", text err) ∷ []) ++ context) l st

  -- `LogConfig`, with the path as it is printed.
  pub log_config : Bytes → Bool → ℕ → ℕ → Logger → Logging → Logging
  unfolding log
  log_config config_path loaded_via_env node_count now l st =
      log level_info now "configuration loaded"
        (("config_path", printed config_path)
          ∷ ("loaded_via_env", flag loaded_via_env)
          ∷ ("node_count", int (pos node_count))
          ∷ [])
        l st

module _ (opens : String → Bool) where
  -- `Init`
  abbrev pub init : Option LogConfig → Logging → Logging
  init config st = record st { default_logger = some (new_logger opens config) }

  abbrev pub or_new : Option Logger → Logger
  or_new none = new_logger opens (some default_config)
  or_new (some l) = l

  -- `Default`
  unfoldable pub default : Logging → Logging × Logger
  default st = let l = or_new st.default_logger in (record st { default_logger = some l }, l)

  -- `With`
  pub with_args : List Attr → Logging → Logging × Logger
  unfolding default
  with_args args st = let (st', l) = default st in (st', record l { attrs = l.attrs ++ args })

  -- The functions `Debug`, `Info`, `Warn` and `Error`, which use the default logger.
  pub log_default : (ℕ → String) → Level → ℕ → String → List Attr → Logging → Logging
  unfolding default
  log_default rfc3339 level now message args st =
      let (st', l) = default st in log rfc3339 level now message args l st'
