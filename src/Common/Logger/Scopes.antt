-- ===== src/Common/Logger/Scopes.antt =====
-- logger.cpp: correlation ids of nested scopes, against lexical scoping.
use microsoft.Base.{
  ◌≡◌, refl, Bool, true, false, none, some, List, [], ◌++◌, Bytes, Option-cases, inl, inr,
  Bool-cases, if◌then◌else◌,
}
use mathlib.Core.List.{append-nil, append_assoc}
use microsoft.Common.Logger.{
  LogLevel, LogField, Spdlog, Line, Logger, Thread, to_spdlog_level, lines_of, format_op_message,
  format_audit_message, log, audit, with_correlation_id, end_scope,
}

-- What a thread does with its loggers, in order: a scope is an object that lives for the block
-- given first, and an exception leaves all blocks.
pub data Block (V : Type 0) : Type 0 where
  done : Block V
  throws : Block V
  logs : Logger V → LogLevel → Bytes → List LogField → Block V → Block V
  audits : Logger V → Bytes → Bytes → Bytes → Bytes → List LogField → Block V → Block V
  scoped : Bytes → Block V → Block V → Block V

module _ {V : Type 0} (spdlog : Spdlog V) where
  -- The lines of an audit.
  unfoldable pub audit_lines :
      Logger V → Bytes → Bytes → Bytes → Bytes → List LogField → List (Line V)
  audit_lines logger actor action resource result fields = elim logger.audit_logger [
    | none ↦ []
    | some audit_logger ↦
        lines_of spdlog audit_logger spdlog.info_level
          (format_audit_message actor action resource result fields)
  ]

  pub audit-audit_lines :
      (logger : Logger V) (actor action resource result : Bytes) (fields : List LogField)
      (t : Thread V)
      → audit spdlog logger actor action resource result fields t
        ≡ record t { lines = t.lines ++ audit_lines logger actor action resource result fields }
  unfolding audit audit_lines
  audit-audit_lines logger actor action resource result fields t =
      elim (Option-cases logger.audit_logger) [
        | inl no_audits ↦ rw (no_audits, append-nil t.lines) refl
        | inr (audit_logger, e) ↦ rw e refl
      ]

  -- Whether the block came to its end, and the thread then.
  unfoldable pub run : Block V → Thread V → Bool × Thread V
  run done t = (true, t)
  run throws t = (false, t)
  run (logs logger level message fields rest) t =
      run rest (log spdlog logger level message fields t)
  run (audits logger actor action resource result fields rest) t =
      run rest (audit spdlog logger actor action resource result fields t)
  run (scoped id inner rest) t =
      let (scope, t₁) = with_correlation_id id t in
      let (ended, t₂) = run inner t₁ in
      let t₃ = end_scope scope t₂ in let after = run rest t₃ in if ended then after else (false, t₃)

  -- Without a state: the lines of a block, with the id of the scope that it stands in.
  unfoldable pub lexical : Bytes → Block V → Bool × List (Line V)
  lexical id done = (true, [])
  lexical id throws = (false, [])
  lexical id (logs logger level message fields rest) =
      let (ended, lines) = lexical id rest in
      (
        ended,
        lines_of spdlog logger.op_logger (to_spdlog_level spdlog level)
              (format_op_message id message fields)
            ++ lines,
      )
  lexical id (audits logger actor action resource result fields rest) =
      let (ended, lines) = lexical id rest in
      (ended, audit_lines logger actor action resource result fields ++ lines)
  lexical id (scoped inner_id inner rest) =
      let (ended, lines) = lexical inner_id inner in
      let (ended', lines') = lexical id rest in
      if ended then (ended', lines ++ lines') else (false, lines)

  -- Whatever a thread does with its loggers, with scopes nested in any way and exceptions at any
  -- place, the lines that it writes are those of lexical scoping: each message has the id of the
  -- innermost scope around it, whichever logger writes it. Afterwards the id of the thread is that
  -- of before, also when the block is left by an exception.
  pub run-lexical :
      (block : Block V) (t : Thread V)
      → let (ended, lines) = lexical t.correlation_id block in
        run block t ≡ (ended, record t { lines = t.lines ++ lines })
  unfolding run lexical log with_correlation_id end_scope
  run-lexical done t = rw (append-nil t.lines) refl
  run-lexical throws t = rw (append-nil t.lines) refl
  run-lexical (logs logger level message fields rest) t =
      let lines =
        lines_of spdlog logger.op_logger (to_spdlog_level spdlog level)
          (format_op_message t.correlation_id message fields) in
      rw (← append_assoc t.lines lines (lexical t.correlation_id rest).1)
        (run-lexical rest (record t { lines = t.lines ++ lines }))
  run-lexical (audits logger actor action resource result fields rest) t =
      let lines = audit_lines logger actor action resource result fields in
      rw
        (
          audit-audit_lines logger actor action resource result fields t,
          ← append_assoc t.lines lines (lexical t.correlation_id rest).1,
        )
        (run-lexical rest (record t { lines = t.lines ++ lines }))
  run-lexical (scoped id inner rest) t =
      let (ended, lines) = lexical id inner in
      let inner_run = run-lexical inner (record t { correlation_id = id }) in
      let rest_run = run-lexical rest (record t { lines = t.lines ++ lines }) in
      rw (inner_run, rest_run)
        (elim (Bool-cases ended) [
          | inl whole ↦
              rw (whole, append_assoc t.lines lines (lexical t.correlation_id rest).1) refl
          | inr cut ↦ rw cut refl
        ])
