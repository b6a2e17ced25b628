-- ===== src/Common/Logger.antt =====
-- logger.h and logger.cpp: lines for operators and for audits, over the loggers of spdlog, and the
-- correlation id of a thread, which all its loggers share. `fmt::format` with the placeholders `{}`
-- puts texts one behind the other.
pub mod Scopes
pub mod Sample
pub mod Lines
pub mod Fields
use microsoft.Base.{
  ℕ, Bool, true, false, Option, none, some, List, [], ◌∷◌, ◌++◌, Bytes, codes, is_empty, map,
  if◌then◌else◌,
}

pub data LogLevel : Type 0 where
  trace debug info warn error critical : LogLevel

pub record LogField : Type 0 where
  pub key : Bytes
  pub value : Bytes

pub record LoggerConfig : Type 0 where
  pub component_name : Bytes
  pub log_directory : Bytes
  pub level : LogLevel
  pub rotation_max_bytes : ℕ
  pub rotation_max_files : ℕ

-- The levels of spdlog, `V`, and its test of the level of a logger and that of a message.
pub record Spdlog (V : Type 0) : Type 0 where
  pub trace_level : V
  pub debug_level : V
  pub info_level : V
  pub warn_level : V
  pub err_level : V
  pub critical_level : V
  pub should_log : V → V → Bool

-- What the constructor asks of the file system: whether directories can be made and a file can be
-- opened, else it throws, and the path of a name in a directory.
pub record LogFiles : Type 0 where
  pub create_directories : Bytes → Bool
  pub open_file : Bytes → Bool
  pub join : Bytes → Bytes → Bytes

pub data Sink : Type 0 where
  stdout_color_sink : Sink
  rotating_file_sink : Bytes → ℕ → ℕ → Sink

-- A logger of spdlog.
pub record SinkLogger (V : Type 0) : Type 0 where
  pub name : Bytes
  pub sinks : List Sink
  pub pattern : Bytes
  pub logger_level : V

-- What spdlog hands to a sink.
pub record Line (V : Type 0) : Type 0 where
  pub sink : Sink
  pub line_pattern : Bytes
  pub line_name : Bytes
  pub line_level : V
  pub text : Bytes

pub record Logger (V : Type 0) : Type 0 where
  pub op_logger : SinkLogger V
  pub audit_logger : Option (SinkLogger V)

-- The correlation id of the thread, and the lines so far.
pub record Thread (V : Type 0) : Type 0 where
  pub correlation_id : Bytes
  pub lines : List (Line V)

module _ {V : Type 0} (spdlog : Spdlog V) where
  unfoldable pub to_spdlog_level : LogLevel → V
  to_spdlog_level trace = spdlog.trace_level
  to_spdlog_level debug = spdlog.debug_level
  to_spdlog_level info = spdlog.info_level
  to_spdlog_level warn = spdlog.warn_level
  to_spdlog_level error = spdlog.err_level
  to_spdlog_level critical = spdlog.critical_level

  -- `spdlog::logger::log`
  unfoldable pub lines_of : SinkLogger V → V → Bytes → List (Line V)
  lines_of logger level text =
      if spdlog.should_log logger.logger_level level
      then map
          (λ sink. record {
            sink = sink;
            line_pattern = logger.pattern;
            line_name = logger.name;
            line_level = level;
            text = text;
          })
          logger.sinks
      else []

abbrev pub op_pattern : Bytes
op_pattern = codes "[%Y-%m-%d %H:%M:%S.%e] [%^%l%$] [%n] %v"

abbrev pub audit_pattern : Bytes
audit_pattern = codes "[%Y-%m-%d %H:%M:%S.%e] %v"

abbrev pub file_sink : LoggerConfig → Bytes → Sink
file_sink config path = rotating_file_sink path config.rotation_max_bytes config.rotation_max_files

module _ (files : LogFiles) (config : LoggerConfig) where
  abbrev pub op_path : Bytes
  op_path = files.join config.log_directory (config.component_name ++ codes ".log")

  abbrev pub audit_path : Bytes
  audit_path = files.join config.log_directory (config.component_name ++ codes "_audit.log")

module _ {V : Type 0} (spdlog : Spdlog V) (files : LogFiles) (config : LoggerConfig) where
  abbrev pub op_logger_with : List Sink → SinkLogger V
  op_logger_with sinks = record {
    name = config.component_name;
    sinks = sinks;
    pattern = op_pattern;
    logger_level = to_spdlog_level spdlog config.level;
  }

  abbrev pub audit_logger_at : Bytes → SinkLogger V
  audit_logger_at path = record {
    name = config.component_name ++ codes "_audit";
    sinks = file_sink config path ∷ [];
    pattern = audit_pattern;
    logger_level = spdlog.info_level;
  }

  -- The constructor; `none` if it throws.
  unfoldable pub construct_logger : Option (Logger V)
  construct_logger =
      if is_empty config.log_directory
      then some
          (record { op_logger = op_logger_with (stdout_color_sink ∷ []); audit_logger = none })
      else if files.create_directories config.log_directory
      then if files.open_file (op_path files config)
        then if files.open_file (audit_path files config)
          then some (record {
            op_logger =
                op_logger_with (stdout_color_sink ∷ file_sink config (op_path files config) ∷ []);
            audit_logger = some (audit_logger_at (audit_path files config));
          })
          else none
        else none
      else none

-- The loop of `FormatFields`.
unfoldable pub append_fields : Bool → Bytes → List LogField → Bytes
append_fields first result [] = result
append_fields first result (field ∷ fields) =
    append_fields false
      ((if first then result else result ++ codes ", ") ++ (field.key ++ codes "=" ++ field.value))
      fields

unfoldable pub format_fields : List LogField → Bytes
format_fields [] = []
format_fields (field ∷ fields) = append_fields true (codes " {") (field ∷ fields) ++ codes "}"

unfoldable pub format_op_message : Bytes → Bytes → List LogField → Bytes
format_op_message correlation_id message fields =
    (if is_empty correlation_id then [] else codes "[" ++ correlation_id ++ codes "] ")
    ++ message
    ++ format_fields fields

unfoldable pub format_audit_message : Bytes → Bytes → Bytes → Bytes → List LogField → Bytes
format_audit_message actor action resource result extra_fields =
    codes "actor="
    ++ actor
    ++ codes " action="
    ++ action
    ++ codes " resource="
    ++ resource
    ++ codes " result="
    ++ result
    ++ format_fields extra_fields

module _ {V : Type 0} (spdlog : Spdlog V) where
  -- `Trace`, `Debug`, `Info`, `Warn`, `Error` and `Critical`, by their level.
  unfoldable pub log : Logger V → LogLevel → Bytes → List LogField → Thread V → Thread V
  log logger level message fields t = record t {
    lines =
        t.lines
        ++ lines_of spdlog logger.op_logger (to_spdlog_level spdlog level)
            (format_op_message t.correlation_id message fields);
  }

  unfoldable pub audit :
      Logger V → Bytes → Bytes → Bytes → Bytes → List LogField → Thread V → Thread V
  audit logger actor action resource result extra_fields t = elim logger.audit_logger [
    | none ↦ t
    | some audit_logger ↦ record t {
      lines =
          t.lines
          ++ lines_of spdlog audit_logger spdlog.info_level
              (format_audit_message actor action resource result extra_fields);
    }
  ]

-- `ScopedCorrelationId`
pub record ScopedCorrelationId : Type 0 where
  pub previous_value : Bytes

module _ {V : Type 0} where
  unfoldable pub with_correlation_id : Bytes → Thread V → ScopedCorrelationId × Thread V
  with_correlation_id correlation_id t =
      (record { previous_value = t.correlation_id }, record t { correlation_id = correlation_id })

  -- The destructor.
  unfoldable pub end_scope : ScopedCorrelationId → Thread V → Thread V
  end_scope scope t = record t { correlation_id = scope.previous_value }
