-- ===== src/Greeter/Tests.antt =====
-- The greeting between a client and a server that log to the standard output.
use microsoft.Base.{ℕ, ◌≡◌, refl, true, none, some, [], ◌∷◌, ◌++◌, Bytes, codes}
use microsoft.Common.Logger.{info, Logger, Thread, stdout_color_sink, op_pattern}
use microsoft.Common.Logger.Sample.{toy_spdlog, idle}
use microsoft.StorageNode.Messages.{Status}
use microsoft.Greeter.{HelloRequest, HelloResponse, Metadata, say_hello}
use microsoft.Greeter.Hello.{logged}
use microsoft.Greeter.Processes.{
  GreeterConfig, waits_for_calls, server_address, target_address, server_main, client_main,
  client_main-server_main,
}

abbrev logger : Bytes → Logger ℕ
logger name = record {
  op_logger = record {
    name = name;
    sinks = stdout_color_sink ∷ [];
    pattern = op_pattern;
    logger_level = 0;
  };
  audit_logger = none;
}

-- A client without settings of its own, and a server on another address.
abbrev client_config : GreeterConfig ℕ
client_config = record { load = λ fields path. 0; get_node_local_string = λ c key. none }

abbrev server_config : GreeterConfig ℕ
server_config = record {
  load = λ fields path. 0;
  get_node_local_string = λ c key. some (codes "[::]:50051");
}

-- Every target is the server.
abbrev create_channel :
    Bytes → Metadata → HelloRequest → Thread ℕ → (Status × HelloResponse) × Thread ℕ
create_channel target metadata request s =
    say_hello toy_spdlog (logger (codes "server")) metadata (codes "9") request s

client_main-server_main_example :
    (started : Thread ℕ) × (server_main server_config toy_spdlog
        (logger (codes "server"))
        (λ address. true)
        idle
      ≡ waits_for_calls started)
    × (client_main client_config toy_spdlog
          (logger (codes "client"))
          create_channel
          (codes "7")
          started
          idle
        ≡ (
          0,
          codes "Greeter received: Hello, NimbusFS-Client! (from greeter_server)\n",
          record idle {
            lines =
                []
                ++ logged toy_spdlog
                    (logger (codes "server"))
                    []
                    info
                    (codes "Server listening on " ++ server_address server_config)
                ++ (logged toy_spdlog
                      (logger (codes "server"))
                      (codes "7")
                      info
                      (codes "Received SayHello request from NimbusFS-Client")
                    ++ logged toy_spdlog
                        (logger (codes "server"))
                        (codes "7")
                        info
                        (codes "Sending SayHello reply"));
          },
          record idle {
            lines =
                []
                ++ logged toy_spdlog
                    (logger (codes "client"))
                    []
                    info
                    (codes "Client connecting to " ++ target_address client_config)
                ++ (logged toy_spdlog
                      (logger (codes "client"))
                      (codes "7")
                      info
                      (codes "Sending SayHello request")
                    ++ logged toy_spdlog
                        (logger (codes "client"))
                        (codes "7")
                        info
                        (codes "Received reply: Hello, NimbusFS-Client! (from greeter_server)"));
          },
        ))
client_main-server_main_example =
    client_main-server_main toy_spdlog (logger (codes "client")) (logger (codes "server"))
      client_config server_config (λ address. true) create_channel (codes "7") (codes "9") idle idle
      refl refl
