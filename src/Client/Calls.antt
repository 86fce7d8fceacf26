-- ===== src/Client/Calls.antt =====
-- kuksa_client.cc: the remote calls, which go to the generated stubs, and the text of a status.
use Prim.Native.String.{◌++◌ as append_text}
use kuksa_val_services.Prelude.{
  ℕ, Bool, true, false, [], ◌∷◌, ◌++◌, ◌≡◌, refl, Option, String, if◌then◌else◌,
}
use mathlib.Core.List.{append-nil, append_assoc}
use kuksa_val_services.Prelude.Dict.{String_eq}
use kuksa_val_services.Grpc.{StatusCode, Status, status_code_text}
use kuksa_val_services.Client.{
  Text, GrpcMetadata, KuksaClient, construct, get_grpc_metadata, create_client_context,
}

-- The stubs of the Collector, VAL and Broker services, over the broker's state W, and the messages of the
-- four calls. Every call gets the metadata of its context.
pub record Stubs (W Request Reply : Type 0) : Type 0 where
  pub stub_register : W → GrpcMetadata → Request → W × Reply
  pub stub_update : W → GrpcMetadata → Request → W × Reply
  pub stub_subscribe : W → GrpcMetadata → Request → W × Reply
  pub stub_get_metadata : W → GrpcMetadata → Request → W × Reply

pub data Rpc : Type 0 where
  register_datapoints update_datapoints subscribe get_metadata : Rpc

module _ {W Request Reply : Type 0} (stubs : Stubs W Request Reply) where
  -- RegisterDatapoints, UpdateDatapoints, Subscribe and GetMetadata.
  unfoldable pub forward : Rpc → W → GrpcMetadata → Request → W × Reply
  forward register_datapoints w context request = stubs.stub_register w context request
  forward update_datapoints w context request = stubs.stub_update w context request
  forward subscribe w context request = stubs.stub_subscribe w context request
  forward get_metadata w context request = stubs.stub_get_metadata w context request

  -- A call the way the feeder and the subscriber make it, with a new context of the client.
  unfoldable pub call_with_context : Rpc → W → KuksaClient → Request → W × Reply
  unfolding forward
  call_with_context rpc w c request = forward rpc w (create_client_context [] c.metadata) request

-- The number of a code is the generated enum's.
module _ (print : ℕ → String) (code_number : StatusCode → ℕ) where
  abbrev pub is_ok_code : StatusCode → Bool
  is_ok_code StatusCode.ok = true
  is_ok_code _ = false

  abbrev pub unless_empty : String → String → String → String
  unless_empty text before after =
      if String_eq.beq text "" then "" else append_text before (append_text text after)

  -- toString of a status with its details.
  unfoldable pub status_text : Status → String → String
  unfolding status_code_text
  status_text status details = append_text "grpcStatus{" (
      append_text (status_code_text print status.code) (
        append_text
          (if is_ok_code status.code
            then ""
            else append_text ", code:" (print (code_number status.code)))
          (append_text (unless_empty status.message ", '" "'")
            (append_text (unless_empty details ", details:'" "'") "}"))))

create_client_context-append :
    (context metadata : GrpcMetadata) → create_client_context context metadata ≡ context ++ metadata
unfolding create_client_context
create_client_context-append context [] = simp append-nil
create_client_context-append context (m ∷ ms) =
    simp (create_client_context-append (context ++ m ∷ []) ms, append_assoc)

-- What the constructor reads from VEHICLEDATABROKER_DAPR_APP_ID goes with every remote call: the app's id
-- under "dapr-app-id" if it is set and not empty, and else nothing.
pub call_with_context-construct :
    {W Request Reply : Type 0} (stubs : Stubs W Request Reply) (dapr_env app_env : Option Text)
    (addr : Text) (rpc : Rpc) (w : W) (request : Request)
    → call_with_context stubs rpc w (construct dapr_env app_env addr) request
      ≡ forward stubs rpc w (get_grpc_metadata app_env) request
unfolding call_with_context construct
call_with_context-construct stubs dapr_env app_env addr rpc w request =
    rw (create_client_context-append [] (get_grpc_metadata app_env)) refl
