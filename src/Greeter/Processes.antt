-- ===== src/Greeter/Processes.antt =====
-- greeter_server_main.cpp and greeter_client_main.cpp, `main`: the two processes. They build their
-- configuration by `AddNodeLocalField`, `LoadFromFile` and `GetNodeLocalString` of an object, which
-- the repository does not define; these are a parameter, and so are whether gRPC can start a server
-- and the channel of the client.
use microsoft.Base.{ℕ, ◌≡◌, refl, Bool, true, false, Option, List, [], ◌∷◌, ◌++◌, Bytes, codes}
use microsoft.Common.Logger.{info, Spdlog, Logger, Thread, log}
use microsoft.StorageNode.Messages.{Status}
use microsoft.StorageNode.Main.{value_or}
use microsoft.Greeter.{HelloRequest, HelloResponse, Metadata, say_hello, send_hello}
use microsoft.Greeter.Hello.{logged, greet, greet_lem}

-- `load` gives the object for the fields of the schema, with their defaults, after the file with this
-- name was loaded; the processes do not look at whether that succeeded.
pub record GreeterConfig (C : Type 0) : Type 0 where
  pub load : List (Bytes × Bytes) → Bytes → C
  pub get_node_local_string : C → Bytes → Option Bytes

-- What the server's process comes to: a server that answers calls from here on, or the call of `Wait`
-- on the null pointer that `BuildAndStart` returns when it fails.
pub data ServerOutcome (V : Type 0) : Type 0 where
  waits_for_calls : Thread V → ServerOutcome V
  undefined_behaviour : Thread V → ServerOutcome V

module _ {C : Type 0} (config : GreeterConfig C) where
  unfoldable pub server_address : Bytes
  server_address =
      value_or
        (config.get_node_local_string
          (config.load ((codes "listen_address", codes "0.0.0.0:50051") ∷ []) (codes "config.json"))
          (codes "listen_address"))
        (codes "0.0.0.0:50051")

  unfoldable pub target_address : Bytes
  target_address =
      value_or
        (config.get_node_local_string
          (config.load ((codes "target_address", codes "localhost:50051") ∷ [])
            (codes "client_config.json"))
          (codes "target_address"))
        (codes "localhost:50051")

  module _ {V : Type 0} (spdlog : Spdlog V) (logger : Logger V) where
    unfoldable pub server_main : (Bytes → Bool) → Thread V → ServerOutcome V
    server_main build_and_start t =
        let t₁ = log spdlog logger info (codes "Server listening on " ++ server_address) [] t in
        elim (build_and_start server_address) [
          | true ↦ waits_for_calls t₁
          | false ↦ undefined_behaviour t₁
        ]

    -- The exit status and the text printed, with the state `S` of all that a call reaches.
    unfoldable pub client_main :
        {S : Type 0}
        → (Bytes → Metadata → HelloRequest → S → (Status × HelloResponse) × S)
        → Bytes
        → S
        → Thread V
        → ℕ × Bytes × S × Thread V
    client_main create_channel uuid s t =
        let t₁ = log spdlog logger info (codes "Client connecting to " ++ target_address) [] t in
        let (printed, s', t₂) =
          send_hello spdlog logger (create_channel target_address) uuid s t₁ in
        (0, printed, s', t₂)

module _ {C V : Type 0} (spdlog : Spdlog V) (logger server_logger : Logger V)
    (config server_config : GreeterConfig C) where
  -- Where the server can be started on its address, its process waits for calls; and a client whose
  -- channel for its own target leads there prints the greeting for its name and exits with 0. The
  -- server has then logged that it listens and the client where it connects to, each under the id of
  -- its thread; and each has logged the two messages of the call, all four with the correlation id
  -- that the client has made, whatever UUID the server would make.
  pub client_main-server_main :
      (build_and_start : Bytes → Bool)
      → (create_channel : Bytes
          → Metadata
          → HelloRequest
          → Thread V
          → (Status × HelloResponse) × Thread V)
      → (uuid server_uuid : Bytes) (server client : Thread V)
      → build_and_start (server_address server_config) ≡ true
      → create_channel (target_address config)
        ≡ (λ metadata request s. say_hello spdlog server_logger metadata server_uuid request s)
      → (started : Thread V) × (server_main server_config spdlog server_logger build_and_start
            server
          ≡ waits_for_calls started)
        × (client_main config spdlog logger create_channel uuid started client ≡ (
          0,
          codes "Greeter received: Hello, NimbusFS-Client! (from greeter_server)\n",
          record server {
            lines =
                server.lines
                ++ logged spdlog server_logger server.correlation_id info
                    (codes "Server listening on " ++ server_address server_config)
                ++ (logged spdlog server_logger uuid info
                      (codes "Received SayHello request from NimbusFS-Client")
                    ++ logged spdlog server_logger uuid info (codes "Sending SayHello reply"));
          },
          record client {
            lines =
                client.lines
                ++ logged spdlog logger client.correlation_id info
                    (codes "Client connecting to " ++ target_address config)
                ++ (logged spdlog logger uuid info (codes "Sending SayHello request")
                    ++ logged spdlog logger uuid info
                        (codes "Received reply: Hello, NimbusFS-Client! (from greeter_server)"));
          },
        ))
  unfolding server_main client_main log greet
  client_main-server_main build_and_start create_channel uuid server_uuid server client bound
        reaches =
      let started =
        log spdlog server_logger info (codes "Server listening on " ++ server_address server_config)
          [] server in
      let connecting =
        log spdlog logger info (codes "Client connecting to " ++ target_address config) [] client in
      let greeted = greet_lem spdlog logger server_logger uuid server_uuid started connecting in
      (started, rw (server_main, bound) refl, rw (client_main, reaches, greeted) refl)
