-- ===== src/Lib.antt =====
-- Verification of Nimbus: the storage node with its chunk store on local disk, the gRPC handlers
-- in front of it and the fault-injecting store of the tests; of libs/common the configuration,
-- the path validator, the blocking queue, the hash, the lease and the logger; and the greeter
-- demonstration.
--
-- A chunk is named by its SHA-256 digest (ChunkId). A chunk store (IChunkStore) puts, gets,
-- verifies and deletes chunks; LocalDiskChunkStore keeps each as a file, and
-- FaultInjectingChunkStore stands in front of another store and fails on demand.
-- StorageNodeServiceImpl answers six calls over any chunk store; ReplicateChunk calls GetChunk of
-- another node and puts what it receives.
--
-- Files and the code they model:
--   * Base: shared names and lemmas on lists, byte strings, Boolean tests and signed numbers.
--   * Common/Result: `Result<T, E>` of libs/common/include/nimbus/common/result.h.
--   * Common/ProtocolVersion: libs/common/src/protocol_version.cpp.
--   * Common/Sha256: `ToHexString` and `FromHexString` of libs/common/src/sha256.cpp;
--     Sha256/Stream: the class of that file, over a record of the calls of libcrypto (`Evp`).
--   * Common/ConfigSchema and Common/Config: libs/common/src/config_schema.cpp and config.cpp,
--     over a record of the calls of nlohmann::json (`Json`) and one of the process's environment
--     and of std::stoll and std::stod (`Process`).
--   * Common/PathValidator: libs/common/src/path_validator.cpp, over the match of its regular
--     expression.
--   * Common/BoundedBlockingQueue: bounded_blocking_queue.h of libs/common, as a step relation
--     of any number of threads. `Push` and `TryPush` are the steps push_*, `Pop` and `TryPop` the
--     steps pop_*. Steps, Progress and Shutdown are about its runs.
--   * Common/Clock and Common/Lease: clock.cpp and lease.cpp of libs/common/src.
--   * Common/Logger: libs/common/src/logger.cpp, over records of the levels of spdlog (`Spdlog`)
--     and of the file system (`LogFiles`). `log` is `Trace` to `Critical`, by the level.
--   * Greeter: greeter_server_main.cpp and greeter_client_main.cpp of services/greeter_demo;
--     Processes has the two `main`s.
--   * StorageNode/ChunkId: services/storage_node/src/chunk_id.cpp.
--   * StorageNode/ChunkStore: the interface of i_chunk_store.h, as a record of operations over a
--     state; a call returns, blocks for ever, or throws.
--   * StorageNode/Files: the part of std::filesystem that the store uses.
--   * StorageNode/ChunkFiles and StorageNode/LocalDisk: local_disk_chunk_store.cpp. `put`,
--     `get`, `verify_only`, `delete`, `exists`, `get_stats`, `list_all_chunk_ids` and `construct`
--     are its methods; `Walk` is what the walk of the last two over the data root meets, an
--     exception included; `write_chunk`, `read_chunk` and `remove_chunk` are the parts with the lock
--     held. LocalDisk/Contract is the contract of the store, a map from chunks to contents,
--     without files, locks or counters, LocalDisk/History the sequences of calls,
--     LocalDisk/Listing what `ListAllChunkIds` lists, and LocalDisk/Crash a process that is killed
--     during `Put`: it takes the files for what the system keeps after each call, which holds when
--     the process dies, not when the machine does. LocalDisk/Threads splits `put` and `delete`
--     into steps of several threads: a step relation with the owners of the stripes.
--     LocalDisk/Descriptors is `ScopedFd` with the calls on file descriptors in `Put` and `Get`.
--   * StorageNode/FaultInjecting: fault_injecting_chunk_store.cpp.
--   * StorageNode/Messages: proto/storage_node/storage_node.proto.
--   * StorageNode/Preamble, StorageNode/Streams and StorageNode/Service: the handlers of
--     storage_node_service_impl.cpp, with capability_token.cpp; StorageNode/Node is the service
--     over a local disk store, as services/storage_node/src/main.cpp builds it. Service/Safe and
--     Service/SafePuts say what the handlers need of a store, and Node/History has the sequences
--     of calls that clients make of a node.
--   * StorageNode/Main: services/storage_node/src/main.cpp, over the `Host` of the process: whether
--     its logger can be constructed, what the constructor of its store meets, and whether its
--     server starts. It exits with a status, or an exception terminates it.
--
-- Decisions. Byte strings are lists of numbers below 256. `HashBytes`, which libcrypto computes,
-- is a parameter of the store. The answers of the system calls of one operation are a record
-- `Env` that the theorems quantify over, as is the UUID of the temporary file (`IsUuid`: no dot,
-- more than five characters). Outside of LocalDisk/Threads an operation runs in one thread, whose
-- owned lock stripes are part of the state; what a std::mutex does when its owner locks it again,
-- which the standard leaves open, is the parameter `Relock`: it waits, throws, or goes on.
-- Counters and sizes are taken modulo 2 ^ 64. Directories are not recorded, nor, outside of
-- LocalDisk/Descriptors, the fsync of a directory, whose failure is only logged. The log lines
-- and durations of the store and its service are left out, and the correlation id is modelled
-- where it is forwarded. A stream is the list of its messages; `accepted` is the number of writes
-- that the client takes. `send_frames` runs on fuel, and one unit for each byte of the content is
-- enough, since every frame carries at least one byte; the loop of the path validator takes one
-- unit for each character, and reads at least one in a round. The polling loop of the process
-- runs on fuel, and more units than polls are enough. The capability check is the source's own
-- stub. The size limit of the service is a parameter of the handlers, which StorageNode/Main
-- reads. The methods of the configuration and of its schema that the processes call, but the
-- repository does not define, are parameters, as are the start of a gRPC server and the channel
-- of a client.
-- Times are signed 64-bit numbers of ticks, and a sum beyond is `none`, since C++ leaves it
-- undefined. What spdlog writes is the list of the lines that it hands to each sink, before a
-- pattern is applied.
--
-- Not modelled: the generator of UUIDs and the system's clock, which are calls of libraries, the
-- placeholders of the other services, and the gRPC transport with its wire format.
pub mod Base
pub mod Common
pub mod Greeter
pub mod StorageNode
