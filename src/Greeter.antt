-- ===== src/Greeter.antt =====
-- services/greeter_demo with proto/greeter/greeter.proto: the handler of the server, and what the
-- client does around its one call. The threads of the two have logs of their own.

mod Tests
pub mod Hello
pub mod Processes
use text.Mathlib.Text.{◌==◌ as str_eq}
use microsoft.Base.{ℕ, not, List, [], ◌∷◌, ◌++◌, String, Bytes, codes, if◌then◌else◌}
use microsoft.Common.Result.{is_ok}
use microsoft.Common.ProtocolVersion.{current_protocol_version, check_protocol_version}
use microsoft.Common.Logger.{
  info, warn, error, Spdlog, Logger, Thread, log, with_correlation_id, end_scope,
}
use microsoft.StorageNode.Messages.{Status, StatusCode, status_ok}
use microsoft.StorageNode.Preamble.{correlation_id_metadata_key, unsupported_version}

pub record HelloRequest : Type 0 where
  pub protocol_version : ℕ
  pub name : Bytes

pub record HelloResponse : Type 0 where
  pub reply_version : ℕ
  pub message : Bytes

-- A message before any field is set.
abbrev pub empty_response : HelloResponse
empty_response = record { reply_version = 0; message = [] }

abbrev pub Metadata : Type 0
Metadata = List (String × Bytes)

-- The id in the metadata of the client, or the next UUID that would be generated.
unfoldable pub correlation_id_of : Metadata → Bytes → Bytes
correlation_id_of [] uuid = uuid
correlation_id_of ((key, v) ∷ client_metadata) uuid =
    if str_eq key correlation_id_metadata_key then v else correlation_id_of client_metadata uuid

abbrev pub client_request : HelloRequest
client_request = record {
  protocol_version = current_protocol_version;
  name = codes "NimbusFS-Client";
}

module _ {V : Type 0} (spdlog : Spdlog V) (logger : Logger V) where
  unfoldable pub say_hello :
      Metadata → Bytes → HelloRequest → Thread V → (Status × HelloResponse) × Thread V
  say_hello client_metadata uuid request t =
      let (scope, t₁) = with_correlation_id (correlation_id_of client_metadata uuid) t in
      let t₂ =
        log spdlog logger info (codes "Received SayHello request from " ++ request.name) [] t₁ in
      if not (
        is_ok (
          check_protocol_version request.protocol_version current_protocol_version
            current_protocol_version))
      then (
        (unsupported_version, empty_response),
        end_scope scope (log spdlog logger warn (codes "Protocol version mismatch") [] t₂),
      )
      else (
        (
          status_ok,
          record {
            reply_version = current_protocol_version;
            message = codes "Hello, " ++ request.name ++ codes "! (from greeter_server)";
          },
        ),
        end_scope scope (log spdlog logger info (codes "Sending SayHello reply") [] t₂),
      )

  -- The client from the request on, with the state `S` of all that the call reaches: what it prints.
  unfoldable pub send_hello :
      {S : Type 0}
      → (Metadata → HelloRequest → S → (Status × HelloResponse) × S)
      → Bytes
      → S
      → Thread V
      → Bytes × S × Thread V
  send_hello stub_say_hello uuid s t =
      let (scope, t₁) = with_correlation_id uuid t in
      let t₂ = log spdlog logger info (codes "Sending SayHello request") [] t₁ in
      let ((status, reply), s') =
        stub_say_hello ((correlation_id_metadata_key, uuid) ∷ []) client_request s in
      elim status.code [
        | StatusCode.ok ↦ (
          codes "Greeter received: " ++ reply.message ++ codes "\n",
          s',
          end_scope scope
              (log spdlog logger info (codes "Received reply: " ++ reply.message) [] t₂),
        )
        | _ ↦ (
          codes "RPC failed. Error: " ++ codes status.message ++ codes "\n",
          s',
          end_scope scope
              (log spdlog logger error (codes "RPC failed: " ++ codes status.message) [] t₂),
        )
      ]
