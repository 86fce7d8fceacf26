-- ===== src/Main.antt =====
-- seat_service/src/bin/seat_service/main.cc: the arguments, the choice of the VSS version, and how the
-- parts of the service are put together.
pub mod Shutdown
pub mod Signals
pub mod Startup
use Prim.Native.String.{◌++◌}
use kuksa_val_services.Prelude.{
  ℕ, Bool, true, false, not, List, [], ◌∷◌, Option, none, some, String, if◌then◌else◌,
}
use kuksa_val_services.Prelude.Dict.{String_eq}
use kuksa_val_services.Controller.Types.{Seat}
use kuksa_val_services.Controller.Lifecycle.{Environment, OpenCalls}
use kuksa_val_services.Adjuster.Impl.{Adjuster, construct, subscribe_position}
use kuksa_val_services.Feeder.Datapoint.{
  create_not_available_value, create_uint32, create_uint32_array,
}
use kuksa_val_services.Feeder.State.{DatapointMetadata, Feeder, new_feeder}
use kuksa_val_services.Feeder.State.{shuts_down}
use kuksa_val_services.Feeder.Run.{Machine, on_call}
use kuksa_val_services.Subscriber.{Subscriber, shutdown}

abbrev pub seat_pos_vss_3 : String
seat_pos_vss_3 = "Vehicle.Cabin.Seat.Row1.Pos1.Position"

abbrev pub seat_pos_vss_4 : String
seat_pos_vss_4 = "Vehicle.Cabin.Seat.Row1.DriverSide.Position"

-- The numbers of DataType and ChangeType in the protocol.
abbrev pub type_uint8 : ℕ
type_uint8 = 6

abbrev pub type_uint16 : ℕ
type_uint16 = 7

abbrev pub type_uint8_array : ℕ
type_uint8_array = 26

abbrev pub change_static : ℕ
change_static = 0

abbrev pub change_on_change : ℕ
change_on_change = 1

-- The entries that both configurations have, but for a description.
abbrev pub row_count : String → DatapointMetadata
row_count description = record {
  name = "Vehicle.Cabin.SeatRowCount";
  data_type = type_uint8;
  change_type = change_static;
  initial_value = create_uint32 2;
  description = description;
}

abbrev pub pos_count : DatapointMetadata
pos_count = record {
  name = "Vehicle.Cabin.SeatPosCount";
  data_type = type_uint8_array;
  change_type = change_static;
  initial_value = create_uint32_array (2 ∷ 3 ∷ []);
  description = "Number of seats across each row from the front to the rear.";
}

abbrev pub seat_pos : String → String → DatapointMetadata
seat_pos name description = record {
  name = name;
  data_type = type_uint16;
  change_type = change_on_change;
  initial_value = create_not_available_value;
  description = description;
}

abbrev pub metadata_4 : List DatapointMetadata
metadata_4 =
    seat_pos seat_pos_vss_4
      "Seat position on vehicle x-axis. Position is relative to the frontmost position supported by the seat. 0 = Frontmost position supported."
    ∷ row_count "Number of seat rows in vehicle."
    ∷ pos_count
    ∷ []

abbrev pub metadata_3 : List DatapointMetadata
metadata_3 =
    seat_pos seat_pos_vss_3 "Longitudinal position of overall seat"
    ∷ row_count "Number of rows of seats"
    ∷ pos_count
    ∷ []

pub record Options : Type 0 where
  pub can_if_name : String
  pub listen_address : String
  pub port : String
  pub broker_addr : String
  pub vss_4 : Bool

-- The switch over argc; `none` is the usage message.
unfoldable pub parse_args : List String → Option (String × String × String)
parse_args (program ∷ can ∷ []) = some (can, "localhost", "50051")
parse_args (program ∷ can ∷ address ∷ []) = some (can, address, "50051")
parse_args (program ∷ can ∷ address ∷ port ∷ []) = some (can, address, port)
parse_args _ = none

abbrev pub env_or : Option String → String → String
env_or none default = default
env_or (some value) default = value

-- The value of VSS; `none` ends the program.
unfoldable pub parse_vss : String → Option Bool
parse_vss vss_val =
    if String_eq.beq vss_val "3"
    then some false
    else if String_eq.beq vss_val "4"
    then some true
    else none

-- main up to the call of Run; `none` is an exit with an error.
unfoldable pub main_options : Environment → List String → Option Options
unfolding parse_args parse_vss
main_options env argv = elim (parse_args argv) [
  | none ↦ none
  | some (can, address, port) ↦ elim (parse_vss (env_or (env.getenv "VSS") "4")) [
    | none ↦ none
    | some vss_4 ↦ some (record {
      can_if_name = can;
      listen_address = address;
      port = port;
      broker_addr = env_or (env.getenv "BROKER_ADDR") "localhost:55555";
      vss_4 = vss_4;
    })
  ]
]

-- What Run has built when the server is about to start.
pub record SeatService : Type 0 where
  pub feeder : Feeder
  pub seat_pos_name : String
  pub subscriber : Subscriber Adjuster
  pub server_address : String

abbrev pub metadata_of : Options → List DatapointMetadata
metadata_of o = if o.vss_4 then metadata_4 else metadata_3

abbrev pub seat_pos_name_of : Options → String
seat_pos_name_of o = if o.vss_4 then seat_pos_vss_4 else seat_pos_vss_3

-- The check of the first entry's name.
abbrev pub is_configured : List DatapointMetadata → String → Bool
is_configured [] name = false
is_configured (d ∷ ds) name = String_eq.beq name d.name

-- The adjuster, to which the data feeder has subscribed the callback `feed_cb`.
abbrev pub wire : Adjuster → ℕ → Options → SeatService
wire a feed_cb o = record {
  feeder = new_feeder (metadata_of o);
  seat_pos_name = seat_pos_name_of o;
  subscriber = record {
    adjuster_state = subscribe_position a (some feed_cb);
    seat_pos_name = seat_pos_name_of o;
    running = false;
    failures = 0;
  };
  server_address = o.listen_address ++ (":" ++ o.port);
}

-- Run up to the start of the server, for an adjuster that was constructed; `none` is an exit.
unfoldable pub run_service : Adjuster → ℕ → Options → Option SeatService
run_service a feed_cb o =
    if is_configured (metadata_of o) (seat_pos_name_of o) then some (wire a feed_cb o) else none

-- The threads of the feeder and of the subscriber.
pub record Threads (S : Type 0) : Type 0 where
  pub feeder_thread : Machine
  pub subscriber_thread : Subscriber S

-- The two calls of Shutdown at the end of Run.
unfoldable pub shut_down : {S : Type 0} → Threads S → Threads S
shut_down t = record {
  feeder_thread = on_call shuts_down t.feeder_thread;
  subscriber_thread = shutdown t.subscriber_thread;
}
