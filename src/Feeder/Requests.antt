-- ===== src/Feeder/Requests.antt =====
-- The request of UpdateDatapoints as a function of the values, in whatever order they are iterated.
use kuksa_val_services.Prelude.{
  ℕ, [], ◌∷◌, ◌≡◌, ◌∙◌, sym, ◌↔◌, inl, inr, String, some, Option-cases, arith,
}
use kuksa_val_services.Prelude.Dict.{Dict, lookup, String_eq, ℕ_eq, HasDistinctKeys}
use kuksa_val_services.Feeder.Datapoint.{Datapoint}
use kuksa_val_services.Feeder.Sending.{build_request}
use kuksa_val_services.Feeder.Ids.{Entry, build_request_complete, build_request_sound}

-- No two names have the same id.
abbrev pub IdsDiffer : Dict String ℕ → Type 0
IdsDiffer ids = (a b : String) (id : ℕ) → lookup a ids ≡ some id → lookup b ids ≡ some id → a ≡ b

Entry-lookup :
    (values : Dict String Datapoint) (name : String) (v : Datapoint)
    → HasDistinctKeys values
    → Entry values name v
    → lookup name values ≡ some v
unfolding lookup
Entry-lookup [] name v d n = absurd n
Entry-lookup ((k, w) ∷ values) name v d (inl (e, q)) = ground (arith, String_eq.beq_iff k name)
Entry-lookup ((k, w) ∷ values) name v (d, ds) (inr n) =
    ground (arith, String_eq.beq_iff k name, Entry-lookup values name v ds n)

lookup-Entry :
    (values : Dict String Datapoint) (name : String) (v : Datapoint)
    → lookup name values ≡ some v
    → Entry values name v
unfolding lookup
lookup-Entry [] name v h = ground arith
lookup-Entry ((k, w) ∷ values) name v h =
    ground (arith, String_eq.beq_iff k name, lookup-Entry values name v)

-- The value that an id has in a request, in terms of the values and ids alone.
abbrev pub IsFed : Dict String ℕ → Dict String Datapoint → ℕ → Datapoint → Type 0
IsFed ids values id v =
    (name : String) × (lookup name values ≡ some v) × (lookup name ids ≡ some id)

module _ (ids : Dict String ℕ) (values : Dict String Datapoint) (differ : IdsDiffer ids)
    (distinct : HasDistinctKeys values) where
  request-IsFed :
      (id : ℕ) (v : Datapoint)
      → lookup id (build_request ids values []) ≡ some v
      → IsFed ids values id v
  request-IsFed id v h =
      let (name, entry, i) = build_request_sound ids values id v h in
      (name, Entry-lookup values name v distinct entry, i)

  IsFed-request :
      (id : ℕ) (v : Datapoint)
      → IsFed ids values id v
      → lookup id (build_request ids values []) ≡ some v
  IsFed-request id v (name, e, i) = elim (Option-cases (lookup id (build_request ids values []))) [
    | inl n ↦
        absurd (build_request_complete ids values name v id (lookup-Entry values name v e) i n)
    | inr (w, h) ↦
        let (other, f, j) = request-IsFed id w h in
        let same = differ name other id i j in ground (arith, same, e, f, h)
  ]

  -- A request holds exactly the values of the names that have an id, each under its id, if no two names
  -- have the same id, and the values have each name once.
  pub build_request_exact :
      (id : ℕ) (v : Datapoint)
      → (lookup id (build_request ids values []) ≡ some v) ↔ IsFed ids values id v
  build_request_exact id v = (request-IsFed id v, IsFed-request id v)

  -- Under the id of a name, a request holds what the values hold for the name.
  pub request_holds :
      (name : String) (id : ℕ)
      → lookup name ids ≡ some id
      → lookup id (build_request ids values []) ≡ lookup name values
  request_holds name id i = elim (Option-cases (lookup name values)) [
    | inr (v, e) ↦ IsFed-request id v (name, e, i) ∙ sym e
    | inl n ↦ elim (Option-cases (lookup id (build_request ids values []))) [
      | inl m ↦ m ∙ sym n
      | inr (w, h) ↦
          let (other, f, j) = request-IsFed id w h in
          let same = differ name other id i j in absurd (ground (arith, same, n, f))
    ]
  ]

-- Two requests give the same value for every id when they are made from the same values and ids, in
-- whatever order these are iterated.
pub build_request_order :
    (ids other_ids : Dict String ℕ) (values others : Dict String Datapoint)
    → IdsDiffer ids
    → HasDistinctKeys values
    → HasDistinctKeys others
    → ((name : String) → lookup name other_ids ≡ lookup name ids)
    → ((name : String) → lookup name others ≡ lookup name values)
    → (id : ℕ)
    → lookup id (build_request other_ids others []) ≡ lookup id (build_request ids values [])
build_request_order ids other_ids values others differ d e same_ids same id =
    let differ' : IdsDiffer other_ids =
      λ a b i p q. differ a b i (sym (same_ids a) ∙ p) (sym (same_ids b) ∙ q) in
    let forth : (v : Datapoint) → IsFed other_ids others id v → IsFed ids values id v =
      λ v (name, p, q). (name, sym (same name) ∙ p, sym (same_ids name) ∙ q) in
    elim (Option-cases (lookup id (build_request other_ids others []))) [
      | inr (v, h) ↦
          h
          ∙ sym (
              IsFed-request ids values differ d id v
                (forth v (request-IsFed other_ids others differ' e id v h)))
      | inl h ↦ elim (Option-cases (lookup id (build_request ids values []))) [
        | inl k ↦ h ∙ sym k
        | inr (v, k) ↦
            let (name, p, q) = request-IsFed ids values differ d id v k in
            IsFed-request other_ids others differ' e id v (name, same name ∙ p, same_ids name ∙ q)
            ∙ sym k
      ]
    ]
