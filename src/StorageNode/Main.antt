-- ===== src/StorageNode/Main.antt =====
-- services/storage_node/src/main.cpp, with the constructor of storage_node_service_impl.cpp: the
-- process from its arguments to its exit status. It calls `Config::Load`, `GetNodeString`,
-- `GetNodeInt` and `GetClusterInt`, which the repository does not define; they are a parameter. So
-- are the decimal text of a number and what the system gives: the files below a directory, whether
-- the logger and the store can be constructed over them, and whether gRPC can start a server.
pub mod Runs
use mathlib.Core.Option as Option
use microsoft.Base.{
  ℕ, zero, suc, ◌+◌, ◌-◌, ◌*◌, ◌%◌, ◌^◌, ltb, Bool, true, false, Option, none, some, List, [], ◌∷◌,
  ◌++◌, Bytes, codes, if◌then◌else◌,
}
use microsoft.Base.Int.{ℤ, pos, negsuc}
use microsoft.Common.Result.{Result, ok, err}
use microsoft.Common.Logger.{LogLevel, info, error}
use microsoft.StorageNode.Files.{Disk}
use microsoft.StorageNode.LocalDisk.{Store, Env, construct, u64}

-- The configuration of a node, on loaded documents `C`: `none` is an error.
pub record NodeConfig (C : Type 0) : Type 0 where
  pub load : Bytes → Result C Bytes
  pub get_node_string : C → Bytes → Option Bytes
  pub get_node_int : C → Bytes → Option ℤ
  pub get_cluster_int : C → Bytes → Option ℤ

abbrev pub value_or : {A : Type 0} → Option A → A → A
value_or none default = default
value_or (some a) default = a

-- `static_cast<uint64_t>`
abbrev pub to_u64 : ℤ → ℕ
to_u64 (pos n) = n % u64
to_u64 (negsuc n) = (u64 - (n + 1) % u64) % u64

-- The service with the state of its chunk store.
pub record StorageNodeServiceImpl : Type 0 where
  pub chunk_store : Store
  pub max_chunk_bytes : ℕ

unfoldable pub construct_service : {C : Type 0} → NodeConfig C → C → Store → StorageNodeServiceImpl
construct_service config c chunk_store = record {
  chunk_store = chunk_store;
  max_chunk_bytes =
      to_u64
        (value_or (config.get_cluster_int c (codes "max_chunk_bytes")) (pos (4 * 1024 * 1024)));
}

-- What the `ServerBuilder` is given.
pub record ServerSettings : Type 0 where
  pub address : Bytes
  pub service : StorageNodeServiceImpl
  pub max_message_size : ℕ
  pub max_receive_message_size : ℕ
  pub max_send_message_size : ℕ
  pub max_threads : ℤ

-- What the process does, in order.
pub data Event : Type 0 where
  prints_error : Bytes → Event
  logs : LogLevel → Bytes → Event
  starts : ServerSettings → Event
  sleeps : Event
  shuts_down : Event

-- The signals that have a handler.
pub data Signal : Type 0 where
  sigint sigterm : Signal

unfoldable pub signal_handler : Signal → Bool → Bool
signal_handler signum g_shutdown_requested = true

-- The signals that arrive, one after the other.
unfoldable pub deliver : List Signal → Bool → Bool
deliver [] requested = requested
deliver (signum ∷ signals) requested = deliver signals (signal_handler signum requested)

-- The loop that polls the flag: `arrivals n` are the signals since the poll before the `n`-th.
-- `none` is a process that is still running when the fuel is used up.
unfoldable pub serve : (ℕ → List Signal) → ℕ → ℕ → Bool → Option (List Event)
serve arrivals zero n requested = none
serve arrivals (suc fuel) n requested = elim (deliver (arrivals n) requested) [
  | true ↦ some []
  | false ↦ Option.map (λ events. sleeps ∷ events) (serve arrivals fuel (n + 1) false)
]

abbrev pub config_path_of : List Bytes → Bytes
config_path_of [] = codes "config.json"
config_path_of (_ ∷ []) = codes "config.json"
config_path_of (_ ∷ path ∷ _) = path

abbrev pub message_limit : ℕ
message_limit = 4 * 1024 * 1024 + 1024

-- The conversion to an `int` of 32 bits.
unfoldable pub to_int : ℤ → ℤ
to_int i =
    let word = to_u64 i % 2 ^ 32 in
    if ltb word (2 ^ 31) then pos word else negsuc (2 ^ 32 - 1 - word)

-- How the process ends: with an exit status, or because of an exception that nothing catches.
pub data Ending : Type 0 where
  exits : ℕ → Ending
  terminates : Ending

module _ {C : Type 0} (config : NodeConfig C) where
  unfoldable pub thread_pool_size : C → ℤ
  unfolding to_int
  thread_pool_size c =
      to_int (value_or (config.get_node_int c (codes "grpc_thread_pool_size")) (pos 8))

  abbrev pub data_dir : C → Bytes
  data_dir c =
      value_or (config.get_node_string c (codes "data_directory")) (codes "/var/lib/nimbusfs/data")

  unfoldable pub settings_of : C → Store → ServerSettings
  settings_of c chunk_store = record {
    address = value_or (config.get_node_string c (codes "listen_address")) (codes "0.0.0.0:50051");
    service = construct_service config c chunk_store;
    max_message_size = message_limit;
    max_receive_message_size = message_limit;
    max_send_message_size = message_limit;
    max_threads = thread_pool_size c;
  }

-- What the system gives the process: whether the log files can be opened (if not, the constructor of
-- the logger throws), the answers to the constructor of the store, the files below a directory, and
-- whether a server with these settings starts.
pub record Host : Type 0 where
  pub logger_opens : Bool
  pub env : Env
  pub files : Bytes → Disk
  pub build_and_start : ServerSettings → Bool

module _ {C : Type 0} (config : NodeConfig C) (to_string : ℤ → Bytes) (host : Host) where
  abbrev pub listening : ServerSettings → Bytes
  listening settings =
      codes "Storage Node listening on "
      ++ settings.address
      ++ codes " with thread pool size "
      ++ to_string settings.max_threads

  -- From `BuildAndStart` on.
  unfoldable pub start_server :
      (ℕ → List Signal) → ℕ → ServerSettings → Option (Ending × List Event)
  start_server arrivals fuel settings = elim (host.build_and_start settings) [
    | false ↦ some (exits 1, logs error (codes "Failed to bind to " ++ settings.address) ∷ [])
    | true ↦
        Option.map
          (λ events. (
            exits 0,
            starts settings
                ∷ logs info (listening settings)
                ∷ (events
                    ++ logs info
                        (codes "Shutdown requested. Gracefully shutting down gRPC server...")
                      ∷ shuts_down
                      ∷ logs info (codes "Shutdown complete.")
                      ∷ []),
          ))
          (serve arrivals fuel 0 false)
  ]

  -- How the process ends, and what it has done until then. The logger and then the store are
  -- constructed; an exception of either ends the process.
  unfoldable pub main : (ℕ → List Signal) → ℕ → List Bytes → Option (Ending × List Event)
  unfolding start_server
  main arrivals fuel argv = elim (config.load (config_path_of argv)) [
    | err e ↦ some (exits 1, prints_error (codes "Failed to load config: " ++ e ++ codes "\n") ∷ [])
    | ok c ↦
        if host.logger_opens
        then (elim (construct host.env (host.files (data_dir config c))) [
          | none ↦ some (terminates, [])
          | some chunk_store ↦ start_server arrivals fuel (settings_of config c chunk_store)
        ])
        else some (terminates, [])
  ]
