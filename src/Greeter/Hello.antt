-- ===== src/Greeter/Hello.antt =====
-- services/greeter_demo: what the greeting answers and logs, alone and with its client.
use mathlib.Core.List.{append_assoc}
use microsoft.Base.{
  ℕ, ◌≡◌, refl, List, [], ◌∷◌, ◌++◌, Bytes, codes, ◌==◌, Bool-cases, inl, inr, if◌then◌else◌, arith,
}
use microsoft.Common.Result.{is_ok}
use microsoft.Common.ProtocolVersion.{current_protocol_version, check_protocol_version}
use microsoft.Common.Logger.{
  LogLevel, info, warn, Spdlog, Line, Logger, Thread, to_spdlog_level, lines_of, format_op_message,
  log, with_correlation_id, end_scope,
}
use microsoft.StorageNode.Messages.{Status, status_ok}
use microsoft.StorageNode.Preamble.{correlation_id_metadata_key, unsupported_version}
use microsoft.Greeter.{
  HelloRequest, HelloResponse, empty_response, Metadata, correlation_id_of, say_hello,
  client_request, send_hello,
}

version_ok :
    (v : ℕ)
    → is_ok (check_protocol_version v current_protocol_version current_protocol_version)
      ≡ (v == current_protocol_version)
unfolding check_protocol_version
version_ok v = ground arith

module _ {V : Type 0} (spdlog : Spdlog V) (logger : Logger V) where
  -- What a message leaves in the log under a correlation id.
  abbrev pub logged : Bytes → LogLevel → Bytes → List (Line V)
  logged id level text =
      lines_of spdlog logger.op_logger (to_spdlog_level spdlog level) (format_op_message id text [])

  two_logs :
      (id first second : Bytes) (a b : LogLevel) (t : Thread V)
      → (let (scope, t₁) = with_correlation_id id t in
          end_scope scope (log spdlog logger b second [] (log spdlog logger a first [] t₁)))
        ≡ record t { lines = t.lines ++ (logged id a first ++ logged id b second) }
  unfolding log with_correlation_id end_scope
  two_logs id first second a b t =
      rw (append_assoc t.lines (logged id a first) (logged id b second)) refl

  -- `SayHello` greets a request of the current version by name, and refuses every other with
  -- FAILED_PRECONDITION and an empty reply. Either way it logs two messages, both with the
  -- correlation id of the client's metadata if that has one, and the thread has its own id again.
  pub say_hello_lem :
      (client_metadata : Metadata) (uuid : Bytes) (request : HelloRequest) (t : Thread V)
      → let id = correlation_id_of client_metadata uuid in
        let received = logged id info (codes "Received SayHello request from " ++ request.name) in
        say_hello spdlog logger client_metadata uuid request t ≡ (
          if request.protocol_version == current_protocol_version
          then (
            (
              status_ok,
              record {
                reply_version = current_protocol_version;
                message = codes "Hello, " ++ request.name ++ codes "! (from greeter_server)";
              },
            ),
            record t {
              lines = t.lines ++ (received ++ logged id info (codes "Sending SayHello reply"));
            },
          )
          else (
            (unsupported_version, empty_response),
            record t {
              lines = t.lines ++ (received ++ logged id warn (codes "Protocol version mismatch"));
            },
          ))
  unfolding say_hello lines_of
  say_hello_lem client_metadata uuid request t =
      let id = correlation_id_of client_metadata uuid in
      let received = codes "Received SayHello request from " ++ request.name in
      rw
        (
          say_hello,
          version_ok request.protocol_version,
          two_logs id received (codes "Sending SayHello reply") info info t,
          two_logs id received (codes "Protocol version mismatch") info warn t,
        )
        (elim (Bool-cases (request.protocol_version == current_protocol_version)) [
          | inl current ↦ rw current refl
          | inr other ↦ rw other refl
        ])

correlation_id_of-uuid :
    (id uuid : Bytes) → correlation_id_of ((correlation_id_metadata_key, id) ∷ []) uuid ≡ id
unfolding correlation_id_of
correlation_id_of-uuid id uuid = refl

module _ {V : Type 0} (spdlog : Spdlog V) (logger server_logger : Logger V) where
  send_hello_lem :
      {S : Type 0}
      → (stub : Metadata → HelloRequest → S → (Status × HelloResponse) × S)
      → (uuid : Bytes) (s s' : S) (client : Thread V) (reply : HelloResponse)
      → stub ((correlation_id_metadata_key, uuid) ∷ []) client_request s ≡ ((status_ok, reply), s')
      → send_hello spdlog logger stub uuid s client ≡ (
        codes "Greeter received: " ++ reply.message ++ codes "\n",
        s',
        record client {
          lines =
              client.lines
              ++ (logged spdlog logger uuid info (codes "Sending SayHello request")
                  ++ logged spdlog logger uuid info (codes "Received reply: " ++ reply.message));
        },
      )
  unfolding send_hello
  send_hello_lem stub uuid s s' client reply e =
      rw
        (
          send_hello,
          e,
          e,
          two_logs spdlog logger uuid (codes "Sending SayHello request")
              (codes "Received reply: " ++ reply.message) info info client,
        )
        refl

  -- The client over a connection that hands its call to a server, which would generate the UUID
  -- given.
  unfoldable pub greet : Bytes → Bytes → Thread V → Thread V → Bytes × Thread V × Thread V
  greet uuid server_uuid server client =
      send_hello spdlog logger
        (λ metadata request s. say_hello spdlog server_logger metadata server_uuid request s) uuid
        server client

  -- A client whose call reaches the server prints the greeting for its name. All four messages that
  -- the two log have the correlation id that the client has made, whatever UUID the server would
  -- make, and both threads have their own ids again.
  pub greet_lem :
      (uuid server_uuid : Bytes) (server client : Thread V)
      → greet uuid server_uuid server client ≡ (
        codes "Greeter received: Hello, NimbusFS-Client! (from greeter_server)\n",
        record server {
          lines =
              server.lines
              ++ (logged spdlog server_logger uuid info
                    (codes "Received SayHello request from NimbusFS-Client")
                  ++ logged spdlog server_logger uuid info (codes "Sending SayHello reply"));
        },
        record client {
          lines =
              client.lines
              ++ (logged spdlog logger uuid info (codes "Sending SayHello request")
                  ++ logged spdlog logger uuid info
                      (codes "Received reply: Hello, NimbusFS-Client! (from greeter_server)"));
        },
      )
  unfolding greet
  greet_lem uuid server_uuid server client =
      let answered =
        say_hello_lem spdlog server_logger ((correlation_id_metadata_key, uuid) ∷ []) server_uuid
          client_request server in
      send_hello_lem _ uuid server _ client _
        (rw (correlation_id_of-uuid uuid server_uuid) at answered)
