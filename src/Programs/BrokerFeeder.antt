-- ===== src/Programs/BrokerFeeder.antt =====
-- seat_service/src/examples/broker_feeder/broker_feeder.cc: feeds positions to the data broker.
use kuksa_val_services.Prelude.{
  ℕ, zero, suc, ℤ, pos, negsuc, ◌%◌, ◌^◌, ◌-◌, ◌+◌, ◌+ℤ◌, ◌==◌, ltb_ℤ, Bool, true, false, List, [],
  ◌∷◌, ◌++◌, Option, none, some, String, if◌then◌else◌,
}
use kuksa_val_services.Client.{Text}
use kuksa_val_services.Feeder.Datapoint.{create_uint32, uint32_value, string_value}
use kuksa_val_services.Feeder.State.{DatapointMetadata, Call, feeds, shuts_down}
use kuksa_val_services.Main.{seat_pos_vss_3, seat_pos_vss_4, type_uint16, change_on_change}

-- "--target", "--vss3" and "localhost:55555".
abbrev pub arg_str : Text
arg_str = b'-' ∷ b'-' ∷ b't' ∷ b'a' ∷ b'r' ∷ b'g' ∷ b'e' ∷ b't' ∷ []

abbrev pub vss3_str : Text
vss3_str = b'-' ∷ b'-' ∷ b'v' ∷ b's' ∷ b's' ∷ b'3' ∷ []

abbrev pub default_target : Text
default_target =
    b'l' ∷ b'o' ∷ b'c' ∷ b'a' ∷ b'l' ∷ b'h' ∷ b'o' ∷ b's' ∷ b't' ∷ b':' ∷ b'5' ∷ b'5' ∷ b'5' ∷ b'5'
    ∷ b'5' ∷ []

-- What follows a prefix; and what follows the first occurrence, as std::string::find finds it.
unfoldable pub after_prefix : Text → Text → Option Text
after_prefix [] t = some t
after_prefix (c ∷ cs) [] = none
after_prefix (c ∷ cs) (x ∷ xs) = if c == x then after_prefix cs xs else none

unfoldable pub after_find : Text → Text → Option Text
unfolding after_prefix
after_find cs [] = after_prefix cs []
after_find cs (x ∷ xs) = elim (after_prefix cs (x ∷ xs)) [
  | some rest ↦ some rest
  | none ↦ after_find cs xs
]

abbrev pub is_text : Text → Text → Bool
is_text t u = elim (after_prefix t u) [ some [] ↦ true | some (c ∷ cs) ↦ false | none ↦ false ]

pub record Arguments : Type 0 where
  pub target_str : Text
  pub use_vss3 : Bool

-- The text after "--target", which must begin with '='.
abbrev pub take_target : Text → Arguments → Option Arguments
take_target [] a = none
take_target (c ∷ cs) a = if c == b'=' then some (record a { target_str = cs }) else none

-- One argument; `none` ends the program with 1.
unfoldable pub take_arg : Text → Arguments → Option Arguments
unfolding after_find
take_arg arg_val a =
    if is_text vss3_str arg_val
    then some (record a { use_vss3 = true })
    else elim (after_find arg_str arg_val) [ none ↦ none | some rest ↦ take_target rest a ]

unfoldable pub take_args : List Text → Arguments → Option Arguments
unfolding take_arg
take_args [] a = some a
take_args (arg ∷ args) a = elim (take_arg arg a) [ none ↦ none | some b ↦ take_args args b ]

abbrev pub arguments : List Text → Option Arguments
arguments args = take_args args (record { target_str = default_target; use_vss3 = false })

abbrev pub dp_name : Arguments → String
dp_name a = if a.use_vss3 then seat_pos_vss_3 else seat_pos_vss_4

abbrev pub metadata : Arguments → List DatapointMetadata
metadata a =
    record {
      name = dp_name a;
      data_type = type_uint16;
      change_type = change_on_change;
      initial_value = create_uint32 0;
      description = "dummy description";
    }
    ∷ []

-- The loop that waits for Ready, with at most `n` rounds left: how often it sleeps. `ready i` is what the
-- call of its round i returns.
unfoldable pub ready_sleeps : ℕ → (ℕ → Bool) → ℕ → ℕ
ready_sleeps zero ready i = 0
ready_sleeps (suc n) ready i = elim (ready i) [
  | true ↦ 0
  | false ↦ suc (ready_sleeps n ready (i + 1))
]

-- main waits ten rounds at most.
abbrev pub wait_ready : (ℕ → Bool) → ℕ
wait_ready ready = ready_sleeps 10 ready 0

-- `int` to `uint32_t`.
abbrev pub to_uint32 : ℤ → ℕ
to_uint32 (pos n) = n % 2 ^ 32
to_uint32 (negsuc n) = 2 ^ 32 - 1 - n % 2 ^ 32

-- The values of `for (int i = 0; i <= 1000; i += step)` from i on; `none` where the fuel does not suffice.
unfoldable pub loop_values : ℕ → ℤ → ℤ → Option (List ℤ)
loop_values zero step i = none
loop_values (suc fuel) step i =
    let rest = loop_values fuel step (i +ℤ step) in
    if ltb_ℤ (pos 1000) i then some [] else elim rest [ none ↦ none | some is ↦ some (i ∷ is) ]

-- The calls of the feeder, up to Shutdown.
abbrev pub value_calls : String → List ℤ → List Call
value_calls name [] = []
value_calls name (i ∷ is) = feeds name (uint32_value (to_uint32 i)) ∷ value_calls name is

abbrev pub main_calls : String → List ℤ → List Call
main_calls name is = value_calls name is ++ feeds name (string_value "bad value") ∷ shuts_down ∷ []
