-- ===== src/Feeder/Registration.antt =====
-- data_broker_feeder.cc: registerDatapoints, getMetadata and checkDatapoints.
use kuksa_val_services.Prelude.{
  ℕ, Bool, true, false, List, [], ◌∷◌, String, none, some, ◌==◌, if◌then◌else◌,
}
use kuksa_val_services.Prelude.Dict.{Dict, insert, lookup, String_eq}
use kuksa_val_services.Grpc.{StatusCode}
use kuksa_val_services.Feeder.State.{
  Feeder, DatapointMetadata, Metadata, handle_error, status_is_ok,
}

-- What the broker answers to GetMetadata and to RegisterDatapoints, if they are called.
pub record BrokerReplies : Type 0 where
  pub metadata_status : StatusCode
  pub metadata_list : List Metadata
  pub register_status : StatusCode
  pub register_results : Dict String ℕ

unfoldable pub cache_metadata : List Metadata → Dict String Metadata → Dict String Metadata
cache_metadata [] metas = metas
cache_metadata (m ∷ ms) metas = cache_metadata ms (insert m.meta_name m metas)

abbrev pub no_config : Feeder → Bool
no_config f = elim f.dp_config [ [] ↦ true | d ∷ ds ↦ false ]

unfoldable pub get_metadata : BrokerReplies → Feeder → Feeder × Bool
unfolding cache_metadata
get_metadata b f =
    if no_config f
    then (f, false)
    else if status_is_ok b.metadata_status
    then (record f { dp_meta = cache_metadata b.metadata_list f.dp_meta }, true)
    else (handle_error b.metadata_status f, false)

-- One datapoint is known with its data type.
abbrev pub is_known : Dict String Metadata → DatapointMetadata → Bool
is_known metas d = elim (lookup d.name metas) [
  | none ↦ false
  | some md ↦ d.data_type == md.meta_data_type
]

-- The loop of checkDatapoints, with its flag `result`.
unfoldable pub all_known : Dict String Metadata → List DatapointMetadata → Bool → Bool
all_known metas [] result = result
all_known metas (d ∷ ds) result = all_known metas ds (if is_known metas d then result else false)

unfoldable pub check_datapoints : BrokerReplies → Feeder → Feeder × Bool
unfolding all_known
check_datapoints b f = let g = (get_metadata b f).0 in (g, all_known g.dp_meta g.dp_config true)

-- id_map_[m.first] = m.second.id()
unfoldable pub take_ids : Dict String Metadata → Dict String ℕ → Dict String ℕ
take_ids [] ids = ids
take_ids ((name, m) ∷ ms) ids = take_ids ms (insert name m.meta_id ids)

unfoldable pub register_datapoints : BrokerReplies → Feeder → Feeder × Bool
unfolding take_ids
register_datapoints b f =
    let (g, known) = check_datapoints b f in
    if known
    then (record g { id_map = take_ids g.dp_meta g.id_map }, true)
    else if status_is_ok b.register_status
    then (record g { id_map = b.register_results }, true)
    else (handle_error b.register_status g, false)
