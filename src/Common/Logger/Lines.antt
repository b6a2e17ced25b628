-- ===== src/Common/Logger/Lines.antt =====
-- logger.cpp: where the lines of a constructed logger go, and which are dropped.
use mathlib.Core.List.{append-nil, map-append, map-map}
use mathlib.Core.Option.{some-injective}
use microsoft.Base.{
  ℕ, ◌≡◌, refl, ◌⊎◌, sym, ◌∙◌, ap, true, false, none, some, List, [], ◌∷◌, ◌++◌, Bytes, is_empty,
  leb, map, Bool-cases, inl, inr, if◌then◌else◌, arith,
}
use microsoft.Common.Logger.{
  LogLevel, trace, debug, info, warn, error, critical, LogField, LoggerConfig, Spdlog, LogFiles,
  Sink, stdout_color_sink, Line, Logger, SinkLogger, Thread, to_spdlog_level, lines_of, file_sink,
  op_path, audit_path, op_logger_with, audit_logger_at, construct_logger, format_op_message,
  format_audit_message, log, audit,
}

-- The levels in their order.
unfoldable pub severity : LogLevel → ℕ
severity trace = 0
severity debug = 1
severity info = 2
severity warn = 3
severity error = 4
severity critical = 5

-- The order of spdlog's levels: a logger of one level takes the messages of this level and above.
abbrev pub IsOrdered : {V : Type 0} → Spdlog V → Type 0
IsOrdered spdlog =
    (a b : LogLevel)
    → spdlog.should_log (to_spdlog_level spdlog a) (to_spdlog_level spdlog b)
      ≡ leb (severity a) (severity b)

module _ {V : Type 0} where
  abbrev where_what : Line V → Sink × Bytes
  where_what line = (line.sink, line.text)

  -- What was written where.
  abbrev pub written : Thread V → List (Sink × Bytes)
  written t = map where_what t.lines

  lines_of-written :
      (spdlog : Spdlog V) (logger : SinkLogger V) (level : V) (text : Bytes)
      → map where_what (lines_of spdlog logger level text) ≡ (
          if spdlog.should_log logger.logger_level level
          then map (λ place. (place, text)) logger.sinks
          else [])
  unfolding lines_of
  lines_of-written spdlog logger level text =
      elim (Bool-cases (spdlog.should_log logger.logger_level level)) [
        | inl takes ↦ rw takes (map-map _ _ logger.sinks)
        | inr drops ↦ rw drops refl
      ]

module _ (files : LogFiles) (config : LoggerConfig) where
  -- The places for lines of operators, and the one for audits.
  abbrev pub places : List Sink
  places =
      stdout_color_sink
      ∷ (if is_empty config.log_directory then [] else file_sink config (op_path files config) ∷ [])

  abbrev pub audit_places : List Sink
  audit_places =
      if is_empty config.log_directory then [] else file_sink config (audit_path files config) ∷ []

module _ {V : Type 0} (spdlog : Spdlog V) (ordered : IsOrdered spdlog) (files : LogFiles)
    (config : LoggerConfig) where
  -- The loggers that the constructor makes.
  abbrev bare : Logger V
  bare = record {
    op_logger = op_logger_with spdlog files config (stdout_color_sink ∷ []);
    audit_logger = none;
  }

  abbrev full : Logger V
  full = record {
    op_logger =
        op_logger_with spdlog files config
          (stdout_color_sink ∷ file_sink config (op_path files config) ∷ []);
    audit_logger = some (audit_logger_at spdlog files config (audit_path files config));
  }

  construct_logger-cases :
      (logger : Logger V)
      → construct_logger spdlog files config ≡ some logger
      → ((is_empty config.log_directory ≡ true) × (logger ≡ bare))
        ⊎ ((is_empty config.log_directory ≡ false) × (logger ≡ full))
  unfolding construct_logger
  construct_logger-cases logger e = elim (Bool-cases (is_empty config.log_directory)) [
    | inl no_dir ↦ inl (no_dir, sym (some-injective bare logger (rw no_dir at e)))
    | inr dir ↦ elim (Bool-cases (files.create_directories config.log_directory)) [
      | inr fails ↦ absurd (ground (arith, dir, fails, e))
      | inl made ↦ elim (Bool-cases (files.open_file (op_path files config))) [
        | inr fails ↦ absurd (ground (arith, dir, made, fails, e))
        | inl opened ↦ elim (Bool-cases (files.open_file (audit_path files config))) [
          | inr fails ↦ absurd (ground (arith, dir, made, opened, fails, e))
          | inl both ↦
              inr (dir, sym (some-injective full logger (rw (dir, made, opened, both) at e)))
        ]
      ]
    ]
  ]

  log-written :
      (logger : Logger V) (t : Thread V) (level : LogLevel) (message : Bytes)
      (fields : List LogField)
      → written (log spdlog logger level message fields t)
        ≡ written t
          ++ (if spdlog.should_log logger.op_logger.logger_level (to_spdlog_level spdlog level)
              then map
                  (λ place. (place, format_op_message t.correlation_id message fields))
                  logger.op_logger.sinks
              else [])
  unfolding log
  log-written logger t level message fields =
      map-append _ t.lines _
      ∙ ap (λ new. written t ++ new)
          (lines_of-written spdlog logger.op_logger (to_spdlog_level spdlog level) _)

  audit-written :
      (op a : SinkLogger V) (t : Thread V) (actor action resource result : Bytes)
      (fields : List LogField)
      → spdlog.should_log a.logger_level spdlog.info_level ≡ true
      → written (
          audit spdlog
            (record { op_logger = op; audit_logger = some a })
            actor
            action
            resource
            result
            fields
            t)
        ≡ written t
          ++ map
              (λ place. (place, format_audit_message actor action resource result fields))
              a.sinks
  unfolding audit
  audit-written op a t actor action resource result fields takes =
      map-append _ t.lines _
      ∙ ap (λ new. written t ++ new) (lines_of-written spdlog a spdlog.info_level _ ∙ rw takes refl)

  info_logged : spdlog.should_log spdlog.info_level spdlog.info_level ≡ true
  unfolding to_spdlog_level severity
  info_logged = ordered info info

  -- With a logger that the constructor made, and an order of levels in spdlog as documented: a
  -- message below the level of the configuration leaves no line; another goes once to the standard
  -- output, and once to the log file if a directory is configured. An audit goes to the audit file
  -- alone, if a directory is configured, whatever the level of the configuration. Neither changes
  -- the correlation id.
  pub construct_logger-log :
      (logger : Logger V) (t : Thread V)
      → construct_logger spdlog files config ≡ some logger
      → ((level : LogLevel) (message : Bytes) (fields : List LogField)
          → let t' = log spdlog logger level message fields t in
            let line = format_op_message t.correlation_id message fields in
            (written t'
              ≡ written t
                ++ (if leb (severity config.level) (severity level)
                    then map (λ place. (place, line)) (places files config)
                    else []))
            × (t'.correlation_id ≡ t.correlation_id))
        × ((actor action resource result : Bytes) (fields : List LogField)
            → let t' = audit spdlog logger actor action resource result fields t in
              let line = format_audit_message actor action resource result fields in
              (written t' ≡ written t ++ map (λ place. (place, line)) (audit_places files config))
              × (t'.correlation_id ≡ t.correlation_id))
  unfolding log audit
  construct_logger-log logger t e = elim (construct_logger-cases logger e) [
    | inl (no_dir, same) ↦ rw same (
      (λ level message fields. (
        log-written bare t level message fields ∙ rw (ordered config.level level, no_dir) refl,
        refl,
      )),
      (λ actor action resource result fields. (rw (no_dir, append-nil (written t)) refl, refl)),
    )
    | inr (dir, same) ↦ rw same (
      (λ level message fields. (
        log-written full t level message fields ∙ rw (ordered config.level level, dir) refl,
        refl,
      )),
      (λ actor action resource result fields. (
        audit-written full.op_logger _ t actor action resource result fields info_logged
            ∙ rw dir refl,
        refl,
      )),
    )
  ]
