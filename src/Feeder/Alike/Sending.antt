-- ===== src/Feeder/Alike/Sending.antt =====
-- data_broker_feeder.cc: sending and registering, up to the order of iteration.
use mathlib.Core.Option
use kuksa_val_services.Prelude.{
  ℕ, Bool, true, false, List, [], ◌∷◌, ◌≡◌, refl, sym, String, arith, if◌then◌else◌, inl, inr,
  Bool-cases, ap, ◌∙◌,
}
use kuksa_val_services.Prelude.Dict.{
  Dict, HasDistinctKeys, insert_new-HasDistinctKeys, lookup, insert_new_all-HasDistinctKeys,
  insert-HasDistinctKeys, String_eq, ℕ_eq, lookup-insert, or_else, insert,
}
use kuksa_val_services.Prelude.Order.{
  SameEntries, insert_new-SameEntries, insert_new_all-SameEntries, insert-SameEntries, if_related,
}
use kuksa_val_services.Grpc.{StatusCode}
use kuksa_val_services.Feeder.Datapoint.{Datapoint}
use kuksa_val_services.Feeder.State.{
  Feeder, Update, Metadata, DatapointMetadata, Call, handle_error, status_is_ok, is_unrecoverable,
}
use kuksa_val_services.Feeder.Sending.{
  feed_stored_values, feed_to_broker, restore_values, values_to_feed, add_initial_values,
  build_request,
}
use kuksa_val_services.Feeder.Registration.{
  BrokerReplies, register_datapoints, check_datapoints, get_metadata, cache_metadata, all_known,
  is_known, take_ids, no_config,
}
use kuksa_val_services.Feeder.Requests.{build_request_order}
use kuksa_val_services.Feeder.Alike.{
  Alike, AlikeCalls, SameMap, Alike-stored, Alike-flags, Alike-ids, calls-Alike,
}

add_initial_values-SameMap :
    (ds : List DatapointMetadata) (m n : Dict String Datapoint)
    → SameMap m n
    → SameMap (add_initial_values ds m) (add_initial_values ds n)
unfolding add_initial_values
add_initial_values-SameMap [] m n s = s
add_initial_values-SameMap (d ∷ ds) m n (s, p, q) = add_initial_values-SameMap ds _ _ (
  insert_new-SameEntries d.name d.initial_value m n s,
  insert_new-HasDistinctKeys d.name d.initial_value m p,
  insert_new-HasDistinctKeys d.name d.initial_value n q,
)

values_to_feed-SameMap :
    (b : Bool) (f g : Feeder) → Alike f g → SameMap (values_to_feed b f) (values_to_feed b g)
values_to_feed-SameMap false f g a = a.stored_values
values_to_feed-SameMap true f g a =
    rw a.dp_config
      (add_initial_values-SameMap g.dp_config f.stored_values g.stored_values a.stored_values)

handle_error-Alike :
    (code : StatusCode) (f g : Feeder)
    → Alike f g
    → Alike (handle_error code f) (handle_error code g)
unfolding handle_error
handle_error-Alike code f g a = elim (Bool-cases (is_unrecoverable code)) [
  | inl e ↦ rw e (
      Alike-flags f g false false false false f.feeder_ready g.feeder_ready a refl refl
        a.feeder_ready)
  | inr e ↦ rw e (
      Alike-flags f g f.feeder_active g.feeder_active false false f.feeder_ready g.feeder_ready a
        a.feeder_active refl a.feeder_ready)
]

-- The state after a call of UpdateDatapoints.
abbrev sent_update : StatusCode → Dict String Datapoint → Feeder → Feeder
sent_update reply values f =
    let u : Update = record {
      ids = f.id_map;
      datapoints = build_request f.id_map values [];
      status = reply;
    } in
    record f { updates = u ∷ f.updates }

sent_update-Alike :
    (reply : StatusCode) (m n : Dict String Datapoint) (f g : Feeder)
    → SameMap m n
    → Alike f g
    → Alike (sent_update reply m f) (sent_update reply n g)
sent_update-Alike reply m n f g (s, p, q) a = record {
  dp_config = a.dp_config;
  stored_values = a.stored_values;
  id_map = a.id_map;
  dp_meta = a.dp_meta;
  feeder_active = a.feeder_active;
  feeder_ready = a.feeder_ready;
  connected = a.connected;
  updates = (
    record {
      ids = a.id_map;
      datapoints = λ d id. sym (
          build_request_order f.id_map g.id_map m n d p q (λ name. sym (a.id_map name))
            (λ name. sym (s name)) id);
      status = refl;
    },
    a.updates,
  );
}

restore_values-Alike :
    (m n : Dict String Datapoint) (f g : Feeder)
    → SameMap m n
    → Alike f g
    → Alike (restore_values m f) (restore_values n g)
unfolding restore_values
restore_values-Alike m n f g (s, p, q) a =
    let (r, d, c) = a.stored_values in
    Alike-stored f g _ _ a (
      insert_new_all-SameEntries m n f.stored_values g.stored_values s r,
      insert_new_all-HasDistinctKeys m f.stored_values d,
      insert_new_all-HasDistinctKeys n g.stored_values c,
    )

pub feed_stored_values-Alike :
    (reply : StatusCode) {cs ds : List Call} (b : Bool) (f g : Feeder)
    → AlikeCalls cs ds
    → Alike f g
    → Alike (feed_stored_values reply cs b f) (feed_stored_values reply ds b g)
unfolding feed_stored_values feed_to_broker
feed_stored_values-Alike reply {cs} {ds} b f g h a =
    let v = values_to_feed-SameMap b f g a in
    let empty = Alike-stored f g [] [] a ((λ k. refl), tt, tt) in
    let made =
      calls-Alike (record f { stored_values = [] }) (record g { stored_values = [] }) h empty in
    let sent = sent_update-Alike reply (values_to_feed b f) (values_to_feed b g) _ _ v made in
    elim (Bool-cases (status_is_ok reply)) [
      | inl good ↦ rw good sent
      | inr bad ↦ rw bad (restore_values-Alike _ _ _ _ v (handle_error-Alike reply _ _ sent))
    ]

cache_metadata-SameMap :
    (ms : List Metadata) (m n : Dict String Metadata)
    → SameMap m n
    → SameMap (cache_metadata ms m) (cache_metadata ms n)
unfolding cache_metadata
cache_metadata-SameMap [] m n s = s
cache_metadata-SameMap (d ∷ ds) m n (s, p, q) = cache_metadata-SameMap ds _ _ (
  insert-SameEntries d.meta_name d m n s,
  insert-HasDistinctKeys d.meta_name d m p,
  insert-HasDistinctKeys d.meta_name d n q,
)

is_known-same :
    (d : DatapointMetadata) (m n : Dict String Metadata)
    → SameEntries m n
    → is_known m d ≡ is_known n d
is_known-same d m n s = ground (arith, s d.name)

all_known-same :
    (ds : List DatapointMetadata) (r : Bool) (m n : Dict String Metadata)
    → SameEntries m n
    → all_known m ds r ≡ all_known n ds r
unfolding all_known
all_known-same [] r m n s = refl
all_known-same (d ∷ ds) r m n s =
    ap (λ (k : Bool). all_known m ds (if k then r else false)) (is_known-same d m n s)
    ∙ all_known-same ds _ m n s

-- An id for each name that the metadata has, and the old id for any other.
lookup-take_ids :
    (metas : Dict String Metadata) (ids : Dict String ℕ) (name : String)
    → HasDistinctKeys metas
    → lookup name (take_ids metas ids)
      ≡ or_else (Option.map (λ (m : Metadata). m.meta_id) (lookup name metas)) (lookup name ids)
unfolding take_ids lookup
lookup-take_ids [] ids name d = refl
lookup-take_ids ((k, m) ∷ metas) ids name (n, d) = ground (
  arith,
  lookup-insert k name m.meta_id ids,
  String_eq.beq_iff k name,
  lookup-take_ids metas (insert k m.meta_id ids) name d,
)

take_ids-SameEntries :
    (m n : Dict String Metadata) (i j : Dict String ℕ)
    → SameMap m n
    → SameEntries i j
    → SameEntries (take_ids m i) (take_ids n j)
take_ids-SameEntries m n i j (s, p, q) r name =
    ground (arith, lookup-take_ids m i name p, lookup-take_ids n j name q, s name, r name)

-- A feeder and a result.
abbrev pub AlikeResult : Feeder × Bool → Feeder × Bool → Type 0
AlikeResult (f, x) (g, y) = Alike f g × (x ≡ y)

-- Two replies of the broker that differ in the order of the registered names at most.
pub record AlikeReplies (b c : BrokerReplies) : Type 0 where
  pub metadata_status : b.metadata_status ≡ c.metadata_status
  pub metadata_list : b.metadata_list ≡ c.metadata_list
  pub register_status : b.register_status ≡ c.register_status
  pub register_results : SameEntries b.register_results c.register_results

handle_error-same :
    (code code' : StatusCode) (f g : Feeder)
    → code ≡ code'
    → Alike f g
    → Alike (handle_error code f) (handle_error code' g)
handle_error-same code code' f g e a = rw e (handle_error-Alike code' f g a)

get_metadata-Alike :
    (b c : BrokerReplies) (f g : Feeder)
    → AlikeReplies b c
    → Alike f g
    → AlikeResult (get_metadata b f) (get_metadata c g)
unfolding get_metadata
get_metadata-Alike b c f g r a =
    if_related AlikeResult (no_config f) (no_config g) _ _ _ _ (ground (arith, a.dp_config))
      (a, refl)
      (if_related AlikeResult (status_is_ok b.metadata_status) (status_is_ok c.metadata_status)
        (record f { dp_meta = cache_metadata b.metadata_list f.dp_meta }, true) _ _ _
        (ap status_is_ok r.metadata_status)
        (
          rw r.metadata_list (
              Alike-ids f g f.id_map g.id_map _ _ a a.id_map
                (cache_metadata-SameMap c.metadata_list f.dp_meta g.dp_meta a.dp_meta)),
          refl,
        )
        (handle_error-same b.metadata_status c.metadata_status f g r.metadata_status a, refl))

check_datapoints-Alike :
    (b c : BrokerReplies) (f g : Feeder)
    → AlikeReplies b c
    → Alike f g
    → AlikeResult (check_datapoints b f) (check_datapoints c g)
unfolding check_datapoints
check_datapoints-Alike b c f g r a =
    let (h, _) = get_metadata-Alike b c f g r a in
    (
      h,
      ap (λ (ds : List DatapointMetadata). all_known (get_metadata b f).0.dp_meta ds true)
            h.dp_config
          ∙ all_known-same (get_metadata c g).0.dp_config true _ _ h.dp_meta.0,
    )

pub register_datapoints-Alike :
    (b c : BrokerReplies) (f g : Feeder)
    → AlikeReplies b c
    → Alike f g
    → AlikeResult (register_datapoints b f) (register_datapoints c g)
unfolding register_datapoints
register_datapoints-Alike b c f g r a =
    let (h, known) = check_datapoints-Alike b c f g r a in
    if_related AlikeResult (check_datapoints b f).1 (check_datapoints c g).1 _ _ _ _ known
      (Alike-ids _ _ _ _ _ _ h (take_ids-SameEntries _ _ _ _ h.dp_meta h.id_map) h.dp_meta, refl)
      (if_related AlikeResult (status_is_ok b.register_status) (status_is_ok c.register_status) _ _
        _ _ (ap status_is_ok r.register_status)
        (Alike-ids _ _ _ _ _ _ h r.register_results h.dp_meta, refl)
        (handle_error-same b.register_status c.register_status _ _ r.register_status h, refl))
