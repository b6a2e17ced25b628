-- ===== src/Common/Logger/Sample.antt =====
-- A small spdlog, whose levels are numbers, for the tests.
use microsoft.Base.{ℕ, [], leb}
use microsoft.Common.Logger.{Spdlog, Thread}

abbrev pub toy_spdlog : Spdlog ℕ
toy_spdlog = record {
  trace_level = 0;
  debug_level = 1;
  info_level = 2;
  warn_level = 3;
  err_level = 4;
  critical_level = 5;
  should_log = leb;
}

-- A thread that has logged nothing.
abbrev pub idle : Thread ℕ
idle = record { correlation_id = []; lines = [] }
