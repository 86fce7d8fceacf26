-- ===== src/Feeder/Store.antt =====
-- data_broker_feeder.cc: FeedValue and FeedValues over the stored values as a map without an order.
use mathlib.Core.List.{Perm, Permᴰ}
use mathlib.Core.Logic.{∥∥₁_elim}
use mathlib.Core.Quot
use mathlib.Core.Quot.{Quot, Quot-set}
use text.Mathlib.TextEquality.{IsScalar-prop}
use kuksa_val_services.Prelude.{
  List, [], ◌∷◌, ◌≡◌, refl, sym, ap, ◌∙◌, String, ◌↔◌, arith, ℤ, ℕ_discrete, Option,
}
use kuksa_val_services.Prelude.Dict.{Dict, HasDistinctKeys, insert_all, lookup, String_eq}
use kuksa_val_services.Prelude.Order.{SameEntries, insert_all-SameEntries, if_related}
use kuksa_val_services.Feeder.Datapoint.{Datapoint, Failure}
use kuksa_val_services.Feeder.State.{Feeder, Call, feeds, call, calls, feed_value, feed_values}

-- The stored values without the order of their entries.
abbrev pub Store : Type 0
Store = Quot {α = Dict String Datapoint} SameEntries

abbrev pub store : Feeder → Store
store f = Quot.mk f.stored_values

ℤ-discrete : Discrete ℤ
ℤ-discrete = hlevel ℕ_discrete

Failure-discrete : Discrete Failure
Failure-discrete = hlevel

value-set : IsSet (Option Datapoint)
value-set = hlevel (ℕ_discrete, ℤ-discrete, Failure-discrete, IsScalar-prop)

-- The value of a name.
value_of : String → Store → Option Datapoint
value_of name = Quot.lift value-set (lookup name) (λ m n h. h name)

-- The view forgets the order only: two feeders have one store exactly when they store the same value for
-- every name.
pub store-eq_iff :
    (f g : Feeder)
    → (store f ≡ store g)
      ↔ ((name : String) → lookup name f.stored_values ≡ lookup name g.stored_values)
unfolding value_of
store-eq_iff f g = ((λ e name. ap (value_of name) e), (λ h. Quot.sound h))

-- A call of FeedValue for each entry.
abbrev pub single_calls : Dict String Datapoint → List Call
single_calls [] = []
single_calls ((name, value) ∷ values) = feeds name value ∷ single_calls values

single_calls-values :
    (values : Dict String Datapoint) (f : Feeder)
    → calls (single_calls values) f ≡ feed_values values f
unfolding calls call feed_value feed_values insert_all
single_calls-values [] f = ground arith
single_calls-values ((name, value) ∷ values) f =
    ground (arith, single_calls-values values (feed_value name value f))

abbrev Reordered : Dict String Datapoint → Dict String Datapoint → Type 0
Reordered m n = SameEntries m n × HasDistinctKeys n

cons-Reordered :
    (k : String) (v : Datapoint) (m n : Dict String Datapoint)
    → HasDistinctKeys ((k, v) ∷ m)
    → Reordered m n
    → Reordered ((k, v) ∷ m) ((k, v) ∷ n)
unfolding lookup
cons-Reordered k v m n (d, _) (s, c) = ((λ j. ground (arith, s j)), (ground (arith, s k), c))

swap-Reordered :
    (k l : String) (v w : Datapoint) (m : Dict String Datapoint)
    → HasDistinctKeys ((k, v) ∷ (l, w) ∷ m)
    → Reordered ((k, v) ∷ (l, w) ∷ m) ((l, w) ∷ (k, v) ∷ m)
unfolding lookup
swap-Reordered k l v w m (d, (c, r)) = (
  (λ j. ground (arith, String_eq.beq_iff k j, String_eq.beq_iff l j, String_eq.beq_iff l k)),
  (
    ground (arith, String_eq.beq_iff k l, String_eq.beq_iff l k),
    (ground (arith, String_eq.beq_iff k l, String_eq.beq_iff l k), r),
  ),
)

Permᴰ-Reordered : {m n : Dict String Datapoint} → Permᴰ m n → HasDistinctKeys m → Reordered m n
Permᴰ-Reordered Permᴰ.nil d = ((λ j. refl), tt)
Permᴰ-Reordered (Permᴰ.cons {a} {b} {l₁ = m} {l₂ = n} e p) d =
    rw (sym e) (cons-Reordered a.0 a.1 m n d (Permᴰ-Reordered p d.1))
Permᴰ-Reordered (Permᴰ.swap {a} {b} {l = m} e h) d =
    rw (sym e, sym h) (swap-Reordered a.0 b.0 a.1 b.1 m d)
Permᴰ-Reordered (Permᴰ.trans p q) d =
    let (s, c) = Permᴰ-Reordered p d in let (r, b) = Permᴰ-Reordered q c in ((λ j. s j ∙ r j), b)

abbrev SameStored : Feeder → Feeder → Type 0
SameStored f g = SameEntries f.stored_values g.stored_values

feed_values-SameStored :
    (values entries : Dict String Datapoint) (f : Feeder)
    → HasDistinctKeys values
    → Reordered values entries
    → SameStored (feed_values values f) (feed_values entries f)
unfolding feed_values
feed_values-SameStored values entries f d (s, c) =
    if_related SameStored f.feeder_active f.feeder_active _ f _ f refl
      (insert_all-SameEntries values entries f.stored_values f.stored_values d c s (λ k. refl))
      (λ k. refl)

-- One call of FeedValues with a map, which has each name once, stores what the calls of FeedValue for its
-- entries store, in any order of these.
pub single_calls-order :
    (values entries : Dict String Datapoint) (f : Feeder)
    → HasDistinctKeys values
    → Perm values entries
    → store (calls (single_calls entries) f) ≡ store (feed_values values f)
single_calls-order values entries f d p = ∥∥₁_elim p (Quot-set _ _) λ q.
    rw (single_calls-values entries f)
      (sym (Quot.sound (feed_values-SameStored values entries f d (Permᴰ-Reordered q d))))
