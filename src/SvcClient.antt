-- ===== src/SvcClient.antt =====
-- seat_service/src/examples/seat_svc_client/seat_svc_client.cc: the command line client of the seat
-- service, over the generated stub, and over what getopt_long returns.
pub mod Waiting
pub mod Moves
pub mod Commands
pub mod Arrival
pub mod Printing
use kuksa_val_services.Prelude.{
  ℕ, zero, suc, ◌+◌, ◌-◌, ◌*◌, ◌/◌, ◌%◌, ◌^◌, ℤ, pos, negsuc, ltb, ◌==◌, ◌==ℤ◌, Bool, true, false,
  not, ◌&&◌, List, [], ◌∷◌, Option, none, some, String, if◌then◌else◌,
}
use kuksa_val_services.Grpc.{Status, StatusCode}
use kuksa_val_services.Service.{
  SeatLocation, Position, SeatComponent, base_component, component_other,
}
use kuksa_val_services.Feeder.State.{status_is_ok}

-- What the stub's calls do. A reply is `none` without a seat, and `some none` with a seat that has no
-- position.
pub record Stub (S : Type 0) : Type 0 where
  pub call_current_position : S → SeatLocation → S × Option (Option Position) × Status
  pub call_move_component : S → SeatLocation → SeatComponent → ℤ → S × Status

-- The numbers of the enum SeatComponent.
abbrev pub to_component : ℕ → SeatComponent
to_component zero = base_component
to_component (suc n) = component_other (suc n)

abbrev pub component_code : SeatComponent → ℕ
component_code base_component = 0
component_code (component_other n) = n

unfoldable pub get_component_position : ℕ → Position → ℤ
get_component_position seat_comp position =
    if seat_comp == 0
    then position.base
    else if seat_comp == 1
    then position.cushion
    else if seat_comp == 2
    then position.lumbar
    else if seat_comp == 3
    then position.side_bolster
    else if seat_comp == 4
    then position.head_restraint
    else negsuc 0

abbrev pub invalid_position : Position
invalid_position = record {
  base = negsuc 0;
  cushion = negsuc 0;
  lumbar = negsuc 0;
  side_bolster = negsuc 0;
  head_restraint = negsuc 0;
}

-- `int` to `uint32_t`.
abbrev pub to_u32 : ℤ → ℕ
to_u32 (pos n) = n % 2 ^ 32
to_u32 (negsuc n) = 2 ^ 32 - 1 - n % 2 ^ 32

abbrev pub location_of : ℤ → ℤ → SeatLocation
location_of row index = record { row = to_u32 row; index = to_u32 index }

-- The position that a call leaves in the caller's variable.
abbrev pub replied : Option (Option Position) → Position
replied none = invalid_position
replied (some none) = invalid_position
replied (some (some position)) = position

-- Division by ten, towards zero.
abbrev pub div_ten : ℤ → ℤ
div_ten (pos n) = pos (n / 10)
div_ten (negsuc n) = if ltb n 9 then pos 0 else negsuc ((n + 1) / 10 - 1)

pub record CliOptions : Type 0 where
  pub target_str : String
  pub seat_row : ℤ
  pub seat_col : ℤ
  pub seat_comp : ℤ
  pub get_pos : Bool
  pub wait_position : Bool

abbrev pub default_options : CliOptions
default_options = record {
  target_str = "localhost:50051";
  seat_row = pos 1;
  seat_col = pos 1;
  seat_comp = pos 0;
  get_pos = false;
  wait_position = false;
}

-- What one call of getopt_long returns, with optarg.
pub data Opt : Type 0 where
  opt_target opt_row opt_index opt_comp : String → Opt
  opt_help opt_get opt_wait opt_unknown : Opt

-- The program ends with a code, or goes on with options.
pub data Parsed : Type 0 where
  exits : ℕ → Parsed
  goes_on : CliOptions → Parsed

-- SeatComponent_IsValid of the generated code.
abbrev pub is_component : ℤ → Bool
is_component (pos n) = ltb n 5
is_component (negsuc n) = false

module _ (atoi : String → ℤ) where
  -- One round of the loop over the options.
  unfoldable pub take_opt : Opt → CliOptions → Parsed
  take_opt (opt_target arg) o = goes_on (record o { target_str = arg })
  take_opt (opt_row arg) o = goes_on (record o { seat_row = atoi arg })
  take_opt (opt_index arg) o = goes_on (record o { seat_col = atoi arg })
  take_opt (opt_comp arg) o =
      if is_component (atoi arg) then goes_on (record o { seat_comp = atoi arg }) else exits 1
  take_opt opt_help o = exits 0
  take_opt opt_get o = goes_on (record o { get_pos = true })
  take_opt opt_wait o = goes_on (record o { wait_position = true })
  take_opt opt_unknown o = exits 1

  unfoldable pub parse_opts : List Opt → CliOptions → Parsed
  unfolding take_opt
  parse_opts [] o = goes_on o
  parse_opts (opt ∷ opts) o = elim (take_opt opt o) [
    | exits code ↦ exits code
    | goes_on next ↦ parse_opts opts next
  ]

  -- The position, from the first argument that is no option.
  abbrev pub position_arg : Option String → ℤ
  position_arg none = pos 500
  position_arg (some arg) = atoi arg

-- Is the target reached, as the loop compares?
abbrev pub is_hit : ℕ → ℤ → Position → Bool
is_hit component target position =
    div_ten target ==ℤ div_ten (get_component_position component position)

-- What the wait for the position ends with; `still_waiting` is no end.
pub data Waited : Type 0 where
  reached : ℤ → Waited
  refused : Status → Waited
  timed_out still_waiting : Waited

-- The rounds that the loop has before `retries * 100 > 15000`.
abbrev pub max_polls : ℕ
max_polls = 151

module _ {S : Type 0} (stub : Stub S) where
  -- SeatSvcClient::CurrentSeatPosition: the state, the caller's position, and the status.
  unfoldable pub current_seat_position : S → ℤ → ℤ → S × Position × Status
  current_seat_position s row index =
      let (t, reply, status) = stub.call_current_position s (location_of row index) in
      (t, if status_is_ok status.code then replied reply else invalid_position, status)

  -- SeatSvcClient::MoveSeatPosition
  unfoldable pub move_seat_position : S → ℕ → ℤ → ℤ → ℤ → S × Status
  move_seat_position s component row index position =
      stub.call_move_component s (location_of row index) (to_component component) position

  module _ (component : ℕ) (row index target : ℤ) where
    -- The loop of main, for `fuel` rounds at most. Between two rounds it sleeps for 100 ms.
    unfoldable pub wait_loop : ℕ → ℕ → S → S × Waited
    unfolding current_seat_position
    wait_loop zero retries s = (s, still_waiting)
    wait_loop (suc fuel) retries s =
        let (t, position, status) = current_seat_position s row index in
        let again = wait_loop fuel (retries + 1) t in
        if not (status_is_ok status.code)
        then (t, refused status)
        else if is_hit component target position
        then (t, reached (get_component_position component position))
        else if ltb 15000 ((retries + 1) * 100)
        then (t, timed_out)
        else again

  -- From the parsed options on: the first reading, the move, and the wait. main returns 0 in any case;
  -- `none` is a run without a wait.
  abbrev pub after_move : CliOptions → ℤ → S × Status → S × Status × Option Waited
  after_move o target (s, status) =
      if status_is_ok status.code && o.wait_position
      then (let (t, w) =
            wait_loop (to_u32 o.seat_comp) o.seat_row o.seat_col target max_polls 0 s in
          (t, status, some w))
      else (s, status, none)

  unfoldable pub run_client : CliOptions → ℤ → S → S × Status × Option Waited
  unfolding wait_loop move_seat_position current_seat_position
  run_client o target s =
      let t = if o.get_pos then (current_seat_position s o.seat_row o.seat_col).0 else s in
      after_move o target (move_seat_position t (to_u32 o.seat_comp) o.seat_row o.seat_col target)
