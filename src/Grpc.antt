-- ===== src/Grpc.antt =====
-- gRPC status values and messages that the seat service and the feeder exchange, and the texts that
-- seat_service/src/lib/broker_feeder/kuksa_client.cc prints for them.
use Prim.Native.String.{◌++◌}
use kuksa_val_services.Prelude.{ℕ, String}

-- grpc::StatusCode; `other` is a number that the enum does not name.
pub data StatusCode : Type 0 where
  ok cancelled unknown invalid_argument deadline_exceeded not_found already_exists : StatusCode
  permission_denied unauthenticated resource_exhausted failed_precondition aborted : StatusCode
  out_of_range unimplemented internal unavailable data_loss : StatusCode
  other : ℕ → StatusCode

-- grpc::Status, with its message.
pub record Status : Type 0 where
  pub code : StatusCode
  pub message : String

abbrev pub status_ok : Status
status_ok = record { code = ok; message = "" }

abbrev pub failure : StatusCode → String → Status
failure c m = record { code = c; message = m }

-- grpc_connectivity_state; `other_state` is a number that the enum does not name.
pub data ConnectivityState : Type 0 where
  idle connecting ready transient_failure shutdown : ConnectivityState
  other_state : ℕ → ConnectivityState

-- sdv::utils::toString of a status code; `print` is std::to_string.
unfoldable pub status_code_text : (ℕ → String) → StatusCode → String
status_code_text print ok = "OK"
status_code_text print cancelled = "CANCELLED"
status_code_text print unknown = "UNKNOWN"
status_code_text print invalid_argument = "INVALID_ARGUMENT"
status_code_text print deadline_exceeded = "DEADLINE_EXCEEDED"
status_code_text print not_found = "NOT_FOUND"
status_code_text print already_exists = "ALREADY_EXISTS"
status_code_text print permission_denied = "PERMISSION_DENIED"
status_code_text print unauthenticated = "UNAUTHENTICATED"
status_code_text print resource_exhausted = "RESOURCE_EXHAUSTED"
status_code_text print failed_precondition = "FAILED_PRECONDITION"
status_code_text print aborted = "ABORTED"
status_code_text print out_of_range = "OUT_OF_RANGE"
status_code_text print unimplemented = "UNIMPLEMENTED"
status_code_text print internal = "INTERNAL"
status_code_text print unavailable = "UNAVAILABLE"
status_code_text print data_loss = "DATA_LOSS"
status_code_text print (other n) = "<Invalid:" ++ print n ++ ">"

unfoldable pub connectivity_text : ConnectivityState → String
connectivity_text idle = "IDLE"
connectivity_text connecting = "CONNECTING"
connectivity_text ready = "READY"
connectivity_text transient_failure = "TRANSIENT_FAILURE"
connectivity_text shutdown = "SHUTDOWN"
connectivity_text (other_state n) = "<InvalidState>"
