-- ===== src/Feeder/Ids.antt =====
-- What a registration establishes, and what a request to the broker holds.
use kuksa_val_services.Prelude.{
  ℕ, true, false, List, [], ◌∷◌, ◌≡◌, ◌≢◌, refl, ◌⊎◌, inl, inr, String, Option, none, some,
  Bool-cases, Option-cases, arith, All,
}
use kuksa_val_services.Prelude.Dict.{Dict, insert, lookup, lookup-insert, String_eq, ℕ_eq}
use kuksa_val_services.Feeder.Datapoint.{Datapoint}
use kuksa_val_services.Feeder.State.{Feeder, DatapointMetadata, Metadata}
use kuksa_val_services.Feeder.Sending.{build_request, add_datapoint}
use kuksa_val_services.Feeder.Registration.{
  BrokerReplies, register_datapoints, check_datapoints, get_metadata, all_known, is_known, take_ids,
}

-- The broker's metadata has the datapoint, with the configured data type.
abbrev pub Known : Dict String Metadata → DatapointMetadata → Type 0
Known metas d = (m : Metadata) × (lookup d.name metas ≡ some m) × (m.meta_data_type ≡ d.data_type)

is_known-Known :
    (metas : Dict String Metadata) (d : DatapointMetadata) → is_known metas d ≡ true → Known metas d
is_known-Known metas d h = elim (Option-cases (lookup d.name metas)) [
  | inl e ↦ absurd (ground arith)
  | inr (m, e) ↦ (m, e, ground arith)
]

all_known-false :
    (metas : Dict String Metadata) (ds : List DatapointMetadata) → all_known metas ds false ≡ false
unfolding all_known
all_known-false metas [] = refl
all_known-false metas (d ∷ ds) = ground (arith, all_known-false metas ds)

all_known-All :
    (metas : Dict String Metadata) (ds : List DatapointMetadata)
    → all_known metas ds true ≡ true
    → All (Known metas) ds
unfolding all_known
all_known-All metas [] h = tt
all_known-All metas (d ∷ ds) h = elim (Bool-cases (is_known metas d)) [
  | inl k ↦ (is_known-Known metas d k, all_known-All metas ds (ground arith))
  | inr k ↦ absurd (ground (arith, all_known-false metas ds))
]

-- A name that the dictionary of metadata has gets an id.
lookup-take_ids_some :
    (metas : Dict String Metadata) (ids : Dict String ℕ) (name : String)
    → (lookup name metas ≢ none) ⊎ (lookup name ids ≢ none)
    → lookup name (take_ids metas ids) ≢ none
unfolding take_ids lookup
lookup-take_ids_some [] ids name h = ground arith
lookup-take_ids_some ((k, m) ∷ metas) ids name h = ground (
  arith,
  lookup-insert k name m.meta_id ids,
  lookup-take_ids_some metas (insert k m.meta_id ids) name,
)

abbrev pub HasId : Feeder → DatapointMetadata → Type 0
HasId f d = lookup d.name f.id_map ≢ none

Known-HasId :
    (metas : Dict String Metadata) (ids : Dict String ℕ) (ds : List DatapointMetadata)
    → All (Known metas) ds
    → All (λ d. lookup d.name (take_ids metas ids) ≢ none) ds
Known-HasId metas ids [] h = tt
Known-HasId metas ids (d ∷ ds) h = (
  lookup-take_ids_some metas ids d.name (inl (λ e. ground (arith, h.0.1))),
  Known-HasId metas ids ds h.1,
)

-- When the check of the datapoints succeeds, every configured one is known to the broker with its data
-- type, and the registration succeeds without a further call and gives each an id.
pub check_datapoints-register :
    (b : BrokerReplies) (f : Feeder)
    → (check_datapoints b f).1 ≡ true
    → let g = (check_datapoints b f).0 in
      let h = (register_datapoints b f).0 in
      All (Known g.dp_meta) g.dp_config
      × ((register_datapoints b f).1 ≡ true)
      × All (HasId h) g.dp_config
unfolding register_datapoints check_datapoints
check_datapoints-register b f c =
    let g : Feeder = (get_metadata b f).0 in
    let k : All (Known g.dp_meta) g.dp_config = all_known-All g.dp_meta g.dp_config c in
    (k, ground arith, rw c (Known-HasId g.dp_meta g.id_map g.dp_config k))

-- A pair in a dictionary's list.
abbrev pub Entry : Dict String Datapoint → String → Datapoint → Type 0
Entry [] name v = ⊥
Entry ((k, w) ∷ values) name v = ((k ≡ name) × (w ≡ v)) ⊎ Entry values name v

lookup-add_datapoint :
    (o : Option ℕ) (w v : Datapoint) (request : Dict ℕ Datapoint) (id : ℕ)
    → lookup id (add_datapoint o w request) ≡ some v
    → (lookup id request ≡ some v) ⊎ ((o ≡ some id) × (w ≡ v))
lookup-add_datapoint none w v request id h = inl h
lookup-add_datapoint (some i) w v request id h = ground (arith, lookup-insert i id w request)

-- Where a value of a request can come from.
abbrev Origin : Dict String ℕ → Dict String Datapoint → Dict ℕ Datapoint → ℕ → Datapoint → Type 0
Origin ids values request id v =
    (lookup id request ≡ some v)
    ⊎ ((name : String) × Entry values name v × (lookup name ids ≡ some id))

build_request-Origin :
    (ids : Dict String ℕ) (values : Dict String Datapoint) (request : Dict ℕ Datapoint) (id : ℕ)
    (v : Datapoint)
    → lookup id (build_request ids values request) ≡ some v
    → Origin ids values request id v
unfolding build_request
build_request-Origin ids [] request id v h = inl h
build_request-Origin ids ((k, w) ∷ values) request id v h =
    elim (build_request-Origin ids values (add_datapoint (lookup k ids) w request) id v h) [
      | inr (name, n, i) ↦ inr (name, inr n, i)
      | inl q ↦ elim (lookup-add_datapoint (lookup k ids) w v request id q) [
        | inl old ↦ inl old
        | inr (i, e) ↦ inr (k, inl (refl, e), i)
      ]
    ]

lookup-add_datapoint-some :
    (o : Option ℕ) (w : Datapoint) (request : Dict ℕ Datapoint) (id : ℕ)
    → (o ≡ some id) ⊎ (lookup id request ≢ none)
    → lookup id (add_datapoint o w request) ≢ none
lookup-add_datapoint-some none w request id h = ground arith
lookup-add_datapoint-some (some i) w request id h =
    ground (arith, lookup-insert i id w request, ℕ_eq.beq_iff i id)

build_request-keeps :
    (ids : Dict String ℕ) (values : Dict String Datapoint) (request : Dict ℕ Datapoint) (id : ℕ)
    → lookup id request ≢ none
    → lookup id (build_request ids values request) ≢ none
unfolding build_request
build_request-keeps ids [] request id h = h
build_request-keeps ids ((k, w) ∷ values) request id h =
    build_request-keeps ids values (add_datapoint (lookup k ids) w request) id
      (lookup-add_datapoint-some (lookup k ids) w request id (inr h))

build_request-has :
    (ids : Dict String ℕ) (values : Dict String Datapoint) (request : Dict ℕ Datapoint)
    (name : String) (v : Datapoint) (id : ℕ)
    → Entry values name v
    → lookup name ids ≡ some id
    → lookup id (build_request ids values request) ≢ none
unfolding build_request
build_request-has ids [] request name v id n i = absurd n
build_request-has ids ((k, w) ∷ values) request name v id (inl (e, _)) i =
    build_request-keeps ids values (add_datapoint (lookup k ids) w request) id
      (lookup-add_datapoint-some (lookup k ids) w request id (inl (ground arith)))
build_request-has ids ((k, w) ∷ values) request name v id (inr n) i =
    build_request-has ids values (add_datapoint (lookup k ids) w request) name v id n i

-- Every name that is fed and has an id is in the request: its id has a value there.
pub build_request_complete :
    (ids : Dict String ℕ) (values : Dict String Datapoint) (name : String) (v : Datapoint) (id : ℕ)
    → Entry values name v
    → lookup name ids ≡ some id
    → lookup id (build_request ids values []) ≢ none
build_request_complete ids values name v id n i = build_request-has ids values [] name v id n i

-- Nothing else is in the request: each value of an id there is one that is fed under a name with this
-- id.
pub build_request_sound :
    (ids : Dict String ℕ) (values : Dict String Datapoint) (id : ℕ) (v : Datapoint)
    → lookup id (build_request ids values []) ≡ some v
    → (name : String) × Entry values name v × (lookup name ids ≡ some id)
unfolding lookup
build_request_sound ids values id v h = elim (build_request-Origin ids values [] id v h) [
  | inl e ↦ cc
  | inr o ↦ o
]
