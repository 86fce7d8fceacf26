-- ===== src/Feeder/Reconnecting.antt =====
-- What the feeder sends after it has lost the connection and found it again.
use kuksa_val_services.Prelude.{
  ℕ, Bool, true, false, [], ◌∷◌, ◌≡◌, ◌∙◌, refl, some, String, arith, Option-cases, inl, inr,
}
use kuksa_val_services.Prelude.Dict.{Dict, lookup, String_eq, ℕ_eq}
use kuksa_val_services.Feeder.Datapoint.{Datapoint}
use kuksa_val_services.Feeder.State.{Feeder, Update, cleanup, handle_error, status_is_ok}
use kuksa_val_services.Feeder.Sending.{build_request, values_to_feed}
use kuksa_val_services.Feeder.Registration.{
  BrokerReplies, register_datapoints, check_datapoints, get_metadata,
}
use kuksa_val_services.Feeder.Merging.{initial, lookup-values_to_feed, feed_stored_values_safe}
use kuksa_val_services.Feeder.Keeps.{feed_round-Same}
use kuksa_val_services.Feeder.Requests.{IdsDiffer, request_holds}
use kuksa_val_services.Feeder.Names.{HasNames, values_to_feed-HasDistinctKeys}
use kuksa_val_services.Feeder.Registered.{GivesId, register_datapoints-Knows}
use kuksa_val_services.Feeder.Run.{feeding, Machine, Surroundings, step, dispatch, connect, at}

-- A registration that succeeds, with an answer to GetMetadata, changes the ids and the metadata only.
register_datapoints_succeeds :
    (b : BrokerReplies) (f : Feeder)
    → status_is_ok b.metadata_status ≡ true
    → (register_datapoints b f).1 ≡ true
    → let g = (register_datapoints b f).0 in
      (g.stored_values ≡ f.stored_values)
      × (g.updates ≡ f.updates)
      × (g.dp_config ≡ f.dp_config)
      × (g.feeder_active ≡ f.feeder_active)
      × (g.connected ≡ f.connected)
unfolding register_datapoints check_datapoints get_metadata handle_error
register_datapoints_succeeds b f k h = ground arith

-- The feeder at the head of the outer loop after the connection was lost, with the client connected.
abbrev pub reconnected : Machine → Feeder
reconnected m = record (cleanup m.feeder) { connected = true }

reconnect :
    (m : Machine) (b : Bool) (d e : Surroundings)
    → m.phase ≡ feeding b
    → m.feeder.feeder_active ≡ true
    → m.feeder.connected ≡ false
    → e.connects ≡ true
    → (register_datapoints e.replies (reconnected m)).1 ≡ true
    → step e (step d m)
      ≡ at
          (feeding true)
          (record ((register_datapoints e.replies (reconnected m)).0) { feeder_ready = true })
unfolding step dispatch connect cleanup
reconnect m b d e p a c k r = ground arith

-- A feeder that has nothing stored, loses the connection and finds it again, with an answer to
-- GetMetadata and a registration that succeeds, sends the initial value of every configured name again,
-- under the id of the name; if an answer OK to RegisterDatapoints gives the name an id, and no two names
-- get the same.
pub initial_again :
    (m : Machine) (b : Bool) (d e q : Surroundings) (name : String) (v : Datapoint)
    → m.phase ≡ feeding b
    → m.feeder.feeder_active ≡ true
    → m.feeder.connected ≡ false
    → m.feeder.stored_values ≡ []
    → initial m.feeder.dp_config name ≡ some v
    → e.connects ≡ true
    → status_is_ok e.replies.metadata_status ≡ true
    → (register_datapoints e.replies (reconnected m)).1 ≡ true
    → GivesId name e.replies
    → let ids = (register_datapoints e.replies (reconnected m)).0.id_map in
      IdsDiffer ids
      → (u : Update) × ((step q (step e (step d m))).feeder.updates ≡ u ∷ m.feeder.updates)
        × (u.ids ≡ ids)
        × (u.status ≡ q.update_status)
        × (id : ℕ) × (lookup name ids ≡ some id)
        × (lookup id u.datapoints ≡ some v)
unfolding step dispatch cleanup
initial_again m b d e q name v p a c n i k o r g differ =
    let back : Feeder = reconnected m in
    let ids : Dict String ℕ = (register_datapoints e.replies back).0.id_map in
    let h : Feeder = record ((register_datapoints e.replies back).0) { feeder_ready = true } in
    let parts = register_datapoints_succeeds e.replies back o r in
    let values : Dict String Datapoint = values_to_feed true h in
    let none_stored : h.stored_values ≡ [] = ground (arith, parts, n) in
    let u : Update = record {
      ids = ids;
      datapoints = build_request ids values [];
      status = q.update_status;
    } in
    let sends : (step q (step e (step d m))).feeder.updates ≡ u ∷ m.feeder.updates =
      rw (reconnect m b d e p a c k r) (
        ground (
          arith,
          parts,
          feed_round-Same q true h,
          feed_stored_values_safe q.update_status q.meanwhile true h name,
        )) in
    let value : lookup name values ≡ some v =
      unfold lookup in ground (arith, parts, i, none_stored, lookup-values_to_feed true h name) in
    let names : HasNames h = rw none_stored tt in
    let knows =
      register_datapoints-Knows name m.feeder.dp_config (λ z. ground (arith, i)) e.replies back refl
        g r in
    elim (Option-cases (lookup name ids)) [
      | inl z ↦ absurd (knows z)
      | inr (id, z) ↦ (
        u,
        sends,
        refl,
        refl,
        id,
        z,
        request_holds ids values differ (values_to_feed-HasDistinctKeys true h names) name id z
            ∙ value,
      )
    ]
