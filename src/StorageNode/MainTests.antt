-- ===== src/StorageNode/MainTests.antt =====
-- The process of a node without settings of its own, on an empty directory.
use microsoft.Base.{
  ℕ, ◌≡◌, refl, true, none, some, List, [], ◌∷◌, ◌++◌, Bytes, codes, ◌==◌, arith, if◌then◌else◌,
}
use microsoft.Base.Int.{ℤ}
use microsoft.Common.Result.{Result, ok, err}
use microsoft.Common.Logger.{info}
use microsoft.StorageNode.LocalDisk.{counted_store, construct_at, construct}
use microsoft.StorageNode.Sample.{healthy}
use microsoft.StorageNode.Main.{
  NodeConfig, ServerSettings, logs, starts, shuts_down, Signal, sigterm, settings_of, listening,
  main, Host, exits,
}
use microsoft.StorageNode.Main.Runs.{waits, main_serves, main-IsOrderly, IsOrderly}

-- Only `node.json` can be loaded; nothing is set.
abbrev toy_load : Bytes → Result ℕ Bytes
toy_load [] = err (codes "no such file")
toy_load (b ∷ path) = if b == b'n' then ok 0 else err (codes "no such file")

abbrev toy_config : NodeConfig ℕ
toy_config = record {
  load = toy_load;
  get_node_string = λ c key. none;
  get_node_int = λ c key. none;
  get_cluster_int = λ c key. none;
}

abbrev to_text : ℤ → Bytes
to_text n = codes "8"

-- The log files can be opened, the data directory is empty, and any server starts.
abbrev healthy_host : Host
healthy_host = record {
  logger_opens = true;
  env = healthy 0;
  files = λ directory. [];
  build_and_start = λ settings. true;
}

constructed : construct (healthy 0) [] ≡ some (counted_store [])
unfolding construct construct_at
constructed = refl

abbrev settings : ServerSettings
settings = settings_of toy_config 0 (counted_store [])

-- SIGTERM before the third poll.
abbrev stopped : ℕ → List Signal
stopped n = if n == 2 then sigterm ∷ [] else []

main_serves_example :
    main toy_config to_text healthy_host stopped 3 (codes "storage_node" ∷ codes "node.json" ∷ [])
    ≡ some (
      exits 0,
      starts settings
          ∷ logs info (listening toy_config to_text healthy_host settings)
          ∷ (waits 2
              ++ logs info (codes "Shutdown requested. Gracefully shutting down gRPC server...")
                ∷ shuts_down
                ∷ logs info (codes "Shutdown complete.")
                ∷ []),
    )
main_serves_example =
    main_serves toy_config to_text healthy_host stopped
      (codes "storage_node" ∷ codes "node.json" ∷ []) 0 (counted_store []) 2 3 refl refl constructed
      refl (refl, (refl, λ e. cc)) (omega arith)

main-IsOrderly_example :
    IsOrderly stopped 3 (
      main toy_config to_text healthy_host stopped 3
        (codes "storage_node" ∷ codes "node.json" ∷ []))
main-IsOrderly_example =
    main-IsOrderly toy_config to_text healthy_host stopped 3
      (codes "storage_node" ∷ codes "node.json" ∷ [])
