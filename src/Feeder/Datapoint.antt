-- ===== src/Feeder/Datapoint.antt =====
-- seat_service/src/lib/broker_feeder/create_datapoint.h, over the Datapoint of
-- proto/sdv/databroker/v1/types.proto. Floats are their bit patterns.
use kuksa_val_services.Prelude.{ℕ, ℤ, Bool, String, List, [], ◌∷◌, ◌++◌, ◌≡◌}
use mathlib.Core.List.{append-nil, append_assoc}

pub data Failure : Type 0 where
  invalid_value not_available unknown_datapoint access_denied internal_error : Failure

pub data Datapoint : Type 0 where
  value_not_set : Datapoint
  failure_value : Failure → Datapoint
  string_value : String → Datapoint
  bool_value : Bool → Datapoint
  int32_value int64_value : ℤ → Datapoint
  uint32_value uint64_value : ℕ → Datapoint
  float_value double_value : ℕ → Datapoint
  int32_array : List ℤ → Datapoint
  uint32_array : List ℕ → Datapoint

abbrev pub create_invalid_value : Datapoint
create_invalid_value = failure_value invalid_value

abbrev pub create_not_available_value : Datapoint
create_not_available_value = failure_value not_available

-- The overloads of createDatapoint.
abbrev pub create_bool : Bool → Datapoint
create_bool value = bool_value value

abbrev pub create_int32 : ℤ → Datapoint
create_int32 value = int32_value value

abbrev pub create_uint32 : ℕ → Datapoint
create_uint32 value = uint32_value value

abbrev pub create_int64 : ℤ → Datapoint
create_int64 value = int64_value value

abbrev pub create_uint64 : ℕ → Datapoint
create_uint64 value = uint64_value value

abbrev pub create_float : ℕ → Datapoint
create_float value = float_value value

abbrev pub create_double : ℕ → Datapoint
create_double value = double_value value

abbrev pub create_string : String → Datapoint
create_string value = string_value value

-- `for (v : values_array) mvalues->Add(v)`
unfoldable pub add_values {ℓ} : {A : Type ℓ} → List A → List A → List A
add_values values [] = values
add_values values (v ∷ vs) = add_values (values ++ v ∷ []) vs

unfoldable pub create_int32_array : List ℤ → Datapoint
unfolding add_values
create_int32_array values = int32_array (add_values [] values)

unfoldable pub create_uint32_array : List ℕ → Datapoint
unfolding add_values
create_uint32_array values = uint32_array (add_values [] values)

add_values-append {ℓ} : {A : Type ℓ} (xs ys : List A) → add_values xs ys ≡ xs ++ ys
unfolding add_values
add_values-append xs [] = simp append-nil
add_values-append xs (y ∷ ys) = simp (add_values-append (xs ++ y ∷ []) ys, append_assoc)

-- An array datapoint holds the values of the vector, in its order.
pub create_array_values :
    (xs : List ℤ) (ys : List ℕ)
    → (create_int32_array xs ≡ int32_array xs) × (create_uint32_array ys ≡ uint32_array ys)
unfolding create_int32_array create_uint32_array
create_array_values xs ys = (simp add_values-append, simp add_values-append)
