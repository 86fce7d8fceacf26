-- ===== src/Client.antt =====
-- seat_service/src/lib/broker_feeder/kuksa_client.cc: the client of the data broker. Texts whose
-- characters matter are lists of character codes.
pub mod Address
pub mod Calls
use kuksa_val_services.Prelude.{
  ℕ, suc, ◌+◌, ◌-◌, ◌%◌, ◌^◌, Bool, true, false, not, List, [], ◌∷◌, ◌++◌, Option, none, some, ◌==◌,
  take, String, if◌then◌else◌,
}

abbrev pub Text : Type 0
Text = List ℕ

abbrev pub is_empty : Text → Bool
is_empty [] = true
is_empty (c ∷ cs) = false

-- sdv::utils::getEnvVar, on what std::getenv returns.
abbrev pub get_env_var : Option Text → Text → Text
get_env_var none default = default
get_env_var (some value) default = value

-- std::string::npos, and `find_last_of` of one character.
abbrev pub npos : ℕ
npos = 2 ^ 64 - 1

unfoldable pub last_index : ℕ → Text → Option ℕ
last_index c [] = none
last_index c (x ∷ xs) = elim (last_index c xs) [
  | some i ↦ some (suc i)
  | none ↦ if x == c then some 0 else none
]

abbrev pub find_last_of : ℕ → Text → ℕ
find_last_of c xs = elim (last_index c xs) [ none ↦ npos | some i ↦ i ]

-- broker_addr.substr(0, colon_pos + 1) + dapr_port; the sum of size_type wraps.
unfoldable pub change_to_dapr_port : Option Text → Text → Text
change_to_dapr_port dapr_env broker_addr =
    let dapr_port = get_env_var dapr_env [] in
    if is_empty dapr_port
    then broker_addr
    else take ((find_last_of b':' broker_addr + 1) % 2 ^ 64) broker_addr ++ dapr_port

-- The key is "dapr-app-id".
abbrev pub GrpcMetadata : Type 0
GrpcMetadata = List (String × Text)

unfoldable pub get_grpc_metadata : Option Text → GrpcMetadata
get_grpc_metadata app_env =
    let dapr_app_id = get_env_var app_env [] in
    if is_empty dapr_app_id then [] else ("dapr-app-id", dapr_app_id) ∷ []

-- `channel_addr` is the address that the channel was created for.
pub record KuksaClient : Type 0 where
  pub broker_addr : Text
  pub channel_addr : Text
  pub connected : Bool
  pub metadata : GrpcMetadata

-- The constructor, with DAPR_GRPC_PORT and VEHICLEDATABROKER_DAPR_APP_ID.
unfoldable pub construct : Option Text → Option Text → Text → KuksaClient
construct dapr_env app_env broker_addr = record {
  broker_addr = broker_addr;
  channel_addr = change_to_dapr_port dapr_env broker_addr;
  connected = false;
  metadata = get_grpc_metadata app_env;
}

-- `channel_ready` is what the channel's WaitForConnected returns.
unfoldable pub wait_for_connected : Bool → KuksaClient → KuksaClient × Bool
wait_for_connected channel_ready c = (record c { connected = channel_ready }, channel_ready)

unfoldable pub set_disconnected : KuksaClient → KuksaClient
set_disconnected c = record c { connected = false }

-- The metadata that a new client context carries, in the order of the AddMetadata calls.
unfoldable pub create_client_context : GrpcMetadata → GrpcMetadata → GrpcMetadata
create_client_context context [] = context
create_client_context context (m ∷ ms) = create_client_context (context ++ m ∷ []) ms
