-- ===== src/Feeder/State.antt =====
-- data_broker_feeder.h and .cc: the feeder's state, and what its clients call.
use kuksa_val_services.Prelude.{ℕ, Bool, true, false, ◌&&◌, List, [], ◌∷◌, String, if◌then◌else◌}
use kuksa_val_services.Prelude.Dict.{Dict, insert, insert_all, String_eq}
use kuksa_val_services.Grpc.{StatusCode, internal, unauthenticated, unimplemented}
use kuksa_val_services.Feeder.Datapoint.{Datapoint}

-- DataType and ChangeType of the protocol are numbers here.
pub record DatapointMetadata : Type 0 where
  pub name : String
  pub data_type : ℕ
  pub change_type : ℕ
  pub initial_value : Datapoint
  pub description : String

-- What the feeder reads of a Metadata message of the broker.
pub record Metadata : Type 0 where
  pub meta_id : ℕ
  pub meta_name : String
  pub meta_data_type : ℕ

-- One UpdateDatapoints call: the ids of the names when it is made, its datapoints by id, and the code of
-- its status.
pub record Update : Type 0 where
  pub ids : Dict String ℕ
  pub datapoints : Dict ℕ Datapoint
  pub status : StatusCode

-- `connected` is KuksaClient::connected_, which the client's other users share. `updates` are the
-- calls made so far, the newest first.
pub record Feeder : Type 0 where
  pub dp_config : List DatapointMetadata
  pub stored_values : Dict String Datapoint
  pub id_map : Dict String ℕ
  pub dp_meta : Dict String Metadata
  pub feeder_active : Bool
  pub feeder_ready : Bool
  pub connected : Bool
  pub updates : List Update

-- The state after the constructor, with a client that is not connected.
abbrev pub new_feeder : List DatapointMetadata → Feeder
new_feeder config = record {
  dp_config = config;
  stored_values = [];
  id_map = [];
  dp_meta = [];
  feeder_active = true;
  feeder_ready = false;
  connected = false;
  updates = [];
}

abbrev pub store_value : String → Datapoint → Feeder → Feeder
store_value name value f = record f { stored_values = insert name value f.stored_values }

abbrev pub store_values : Dict String Datapoint → Feeder → Feeder
store_values values f = record f { stored_values = insert_all values f.stored_values }

unfoldable pub feed_value : String → Datapoint → Feeder → Feeder
feed_value name value f = if f.feeder_active then store_value name value f else f

unfoldable pub feed_values : Dict String Datapoint → Feeder → Feeder
feed_values values f = if f.feeder_active then store_values values f else f

unfoldable pub shutdown : Feeder → Feeder
shutdown f = if f.feeder_active then record f { stored_values = []; feeder_active = false } else f

unfoldable pub is_ready : Feeder → Bool
is_ready f = f.feeder_active && f.connected && f.feeder_ready

unfoldable pub cleanup : Feeder → Feeder
cleanup f = record f { id_map = []; dp_meta = []; feeder_ready = false }

-- The codes that deactivate the feeder.
unfoldable pub is_unrecoverable : StatusCode → Bool
is_unrecoverable internal = true
is_unrecoverable unauthenticated = true
is_unrecoverable unimplemented = true
is_unrecoverable _ = false

unfoldable pub handle_error : StatusCode → Feeder → Feeder
handle_error code f =
    let g = if is_unrecoverable code then record f { feeder_active = false } else f in
    record g { connected = false }

unfoldable pub status_is_ok : StatusCode → Bool
status_is_ok StatusCode.ok = true
status_is_ok _ = false

-- What other threads call while the feeder's thread runs.
pub data Call : Type 0 where
  feeds : String → Datapoint → Call
  feeds_all : Dict String Datapoint → Call
  shuts_down : Call

unfoldable pub call : Call → Feeder → Feeder
unfolding feed_value feed_values shutdown
call (feeds name value) f = feed_value name value f
call (feeds_all values) f = feed_values values f
call shuts_down f = shutdown f

unfoldable pub calls : List Call → Feeder → Feeder
unfolding call
calls [] f = f
calls (c ∷ cs) f = calls cs (call c f)
