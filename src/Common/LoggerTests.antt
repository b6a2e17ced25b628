-- ===== src/Common/LoggerTests.antt =====
-- The theorems about the logger over a small spdlog, whose levels are numbers.
use microsoft.Base.{
  ℕ, ◌≡◌, refl, true, some, List, [], ◌∷◌, ◌++◌, Bytes, codes, leb, map, if◌then◌else◌,
}
use microsoft.Common.Logger.{
  LogLevel, trace, debug, info, warn, error, critical, LogField, LoggerConfig, LogFiles, Logger,
  to_spdlog_level, op_logger_with, audit_logger_at, stdout_color_sink, file_sink, op_path,
  audit_path, construct_logger, format_op_message, format_audit_message, log, audit,
}
use microsoft.Common.Logger.Sample.{toy_spdlog, idle}
use microsoft.Common.Logger.Scopes.{
  Block, done, throws, logs, audits, scoped, run, lexical, run-lexical,
}
use microsoft.Common.Logger.Lines.{
  severity, IsOrdered, written, places, audit_places, construct_logger-log,
}
use microsoft.Common.Logger.Fields.{format_op_message_injective}

toy_levels : (a : LogLevel) → to_spdlog_level toy_spdlog a ≡ severity a
unfolding to_spdlog_level severity
toy_levels trace = refl
toy_levels debug = refl
toy_levels info = refl
toy_levels warn = refl
toy_levels error = refl
toy_levels critical = refl

toy_spdlog-IsOrdered : IsOrdered toy_spdlog
toy_spdlog-IsOrdered a b = rw (toy_levels a, toy_levels b) refl

abbrev toy_files : LogFiles
toy_files = record {
  create_directories = λ _. true;
  open_file = λ _. true;
  join = λ directory name. directory ++ codes "/" ++ name;
}

abbrev config : LoggerConfig
config = record {
  component_name = codes "node";
  log_directory = codes "logs";
  level = warn;
  rotation_max_bytes = 1000;
  rotation_max_files = 5;
}

abbrev logger : Logger ℕ
logger = record {
  op_logger =
      op_logger_with toy_spdlog toy_files config
        (stdout_color_sink ∷ file_sink config (op_path toy_files config) ∷ []);
  audit_logger = some (audit_logger_at toy_spdlog toy_files config (audit_path toy_files config));
}

constructed : construct_logger toy_spdlog toy_files config ≡ some logger
unfolding construct_logger
constructed = refl

construct_logger-log_example :
    ((level : LogLevel) (message : Bytes) (fields : List LogField)
      → let t' = log toy_spdlog logger level message fields idle in
        let line = format_op_message [] message fields in
        (written t'
          ≡ written idle
            ++ (if leb (severity warn) (severity level)
                then map (λ place. (place, line)) (places toy_files config)
                else []))
        × (t'.correlation_id ≡ []))
    × ((actor action resource result : Bytes) (fields : List LogField)
        → let t' = audit toy_spdlog logger actor action resource result fields idle in
          let line = format_audit_message actor action resource result fields in
          (written t'
            ≡ written idle ++ map (λ place. (place, line)) (audit_places toy_files config))
          × (t'.correlation_id ≡ []))
construct_logger-log_example =
    construct_logger-log toy_spdlog toy_spdlog-IsOrdered toy_files config logger idle constructed

abbrev key_value : LogField
key_value = record { key = codes "k"; value = codes "v" }

-- A scope in a scope, left by an exception.
abbrev block : Block ℕ
block =
    scoped (codes "A")
      (logs logger warn (codes "one") []
        (scoped (codes "B") (logs logger error (codes "two") [] throws) done))
      (audits logger (codes "a") (codes "b") (codes "c") (codes "d") [] done)

run-lexical_example : run toy_spdlog block idle ≡ (
  (lexical toy_spdlog [] block).0,
  record idle { lines = [] ++ (lexical toy_spdlog [] block).1 },
)
run-lexical_example = run-lexical toy_spdlog block idle

format_op_message_injective_example :
    (codes "A" ≡ codes "A") × (codes "one" ≡ codes "one") × (key_value ∷ [] ≡ key_value ∷ [])
format_op_message_injective_example =
    format_op_message_injective (codes "A") (codes "A") (codes "one") (codes "one") (key_value ∷ [])
      (key_value ∷ []) (refl, tt) (refl, tt) ((refl, (refl, (refl, tt))), refl)
      ((refl, (refl, (refl, tt))), refl) (((refl, tt), (refl, tt)), tt)
      (((refl, tt), (refl, tt)), tt) refl
