-- ===== src/Controller/Printing.antt =====
-- seat_controller.cc: the texts that the controller prints, each as the list of its bytes. The choices of
-- the learning state are generated from seat_ecu.dbc.
pub mod Fits
use kuksa_val_services.Prelude.{
  ℕ, zero, suc, ◌+◌, ◌*◌, ℤ, pos, negsuc, sub_ℕ, List, [], ◌∷◌, ◌++◌, Bool, String, Option, none,
  some, take, length, leb, ◌==◌, if◌then◌else◌, ◌-◌,
}
use kuksa_val_services.Prelude.Format.{codes, decimal, hex, pad_left, pad_right}
use kuksa_val_services.Controller.Types.{Context, CanFrame, Stat, Cmd1, direction_code}

abbrev pub prefix_can : List ℕ
prefix_can = codes "        [CAN]: "

unfoldable pub mov_state_string : ℕ → String
mov_state_string dir =
    if dir == 0
    then "OFF"
    else if dir == 2
    then "INC"
    else if dir == 1
    then "DEC"
    else if dir == 3
    then "INV"
    else "Undefined!"

-- The generated choices of CAN_secu1_stat_t.motor1_learning_state.
pub record LearningChoices : Type 0 where
  pub not_learned_choice : ℕ
  pub learned_choice : ℕ
  pub invalid_choice : ℕ

unfoldable pub learning_state_string : LearningChoices → ℕ → String
learning_state_string c state =
    if state == c.not_learned_choice
    then "NOK"
    else if state == c.learned_choice
    then "OK"
    else if state == c.invalid_choice
    then "INV"
    else "Undefined!"

-- The size of `buf`.
abbrev pub buf_size : ℕ
buf_size = 256

-- snprintf to the end of the text in `buf`, with the size of the whole buffer: a text that is too long for
-- this size is cut, and one that does not fit behind the text that is there goes past the array (`none`).
unfoldable pub append_to_buf : List ℕ → List ℕ → Option (List ℕ)
append_to_buf buf text =
    let written = take (buf_size - 1) text in
    if leb (length buf + length written + 1) buf_size then some (buf ++ written) else none

-- The loop over the bytes of a frame. One that is not there is read past the array.
unfoldable pub append_bytes : ℕ → List ℕ → List ℕ → Option (List ℕ)
unfolding append_to_buf
append_bytes zero bytes buf = some buf
append_bytes (suc n) [] buf = none
append_bytes (suc n) (b ∷ bytes) buf = elim (append_to_buf buf (hex 2 b ++ codes " ")) [
  | none ↦ none
  | some longer ↦ append_bytes n bytes longer
]

abbrev pub raw_head : CanFrame → Bool → List ℕ
raw_head frame is_received =
    prefix_can
    ++ (codes (if is_received then "RX" else "TX")
        ++ (codes ": 0x"
            ++ (hex 3 frame.can_id ++ (codes " [" ++ (decimal (pos frame.can_dlc) ++ codes "] ")))))

abbrev pub end_line : Option (List ℕ) → Option (List ℕ)
end_line none = none
end_line (some text) = some (text ++ codes "\n")

abbrev pub print_bytes : CanFrame → Option (List ℕ) → Option (List ℕ)
print_bytes frame none = none
print_bytes frame (some head) = end_line (append_bytes frame.can_dlc frame.payload head)

unfoldable pub print_can_raw : CanFrame → Bool → Option (List ℕ)
unfolding append_bytes append_to_buf
print_can_raw frame is_received = print_bytes frame (append_to_buf [] (raw_head frame is_received))

-- The bytes of dumphex.
unfoldable pub hex_bytes : List ℕ → List ℕ
hex_bytes [] = []
hex_bytes (b ∷ bytes) = hex 2 b ++ (codes " " ++ hex_bytes bytes)

unfoldable pub dumphex : String → List ℕ → List ℕ
unfolding hex_bytes
dumphex prefix buf =
    codes prefix
    ++ (codes " <"
        ++ (decimal (pos (length buf)) ++ (codes "> [" ++ (hex_bytes buf ++ codes "]\n"))))

-- The time since the command, at the reading `now` of the clock.
abbrev pub elapsed : Context → ℕ → ℤ
elapsed c now = if c.command_ts == 0 then negsuc 0 else sub_ℕ now c.command_ts

unfoldable pub print_ctl_stats : Context → ℕ → String → List ℕ
unfolding mov_state_string
print_ctl_stats c now prefix =
    codes prefix
    ++ (codes "motor1:{ pos:"
        ++ (pad_left 3 b' ' (decimal (pos c.motor1_pos))
            ++ (codes "%, "
                ++ (pad_right 3 (codes (mov_state_string c.motor1_mov_state))
                    ++ (codes " } --> target:{ pos:"
                        ++ (pad_left 3 b' ' (decimal (pos c.desired_position))
                            ++ (codes "%, "
                                ++ (pad_left 3 b' ' (
                                      codes (mov_state_string (direction_code c.desired_direction)))
                                    ++ (codes " }, elapsed: "
                                        ++ (decimal (elapsed c now) ++ codes " ms.\n"))))))))))

-- Without SEAT_CTRL_ALL_MOTORS.
unfoldable pub print_secu1_cmd_1 : String → Cmd1 → List ℕ
unfolding mov_state_string
print_secu1_cmd_1 prefix cmd =
    codes prefix
    ++ (codes "[SECU1]{ motor1_cmd: "
        ++ (codes (mov_state_string cmd.motor1_manual_cmd)
            ++ (codes ", motor1_rpm: "
                ++ (decimal (pos (cmd.motor1_set_rpm * 100)) ++ codes " }\n"))))

unfoldable pub print_secu1_stat : LearningChoices → String → Stat → List ℕ
unfolding mov_state_string learning_state_string
print_secu1_stat choices prefix stat =
    codes prefix
    ++ (codes "{ motor1_pos:"
        ++ (pad_left 3 b' ' (decimal (pos stat.stat_pos))
            ++ (codes "%, motor1_mov_state: "
                ++ (pad_right 3 (codes (mov_state_string stat.stat_mov_state))
                    ++ (codes ", motor1_learning_state: "
                        ++ (codes (learning_state_string choices stat.stat_learning_state)
                            ++ codes " }\n"))))))
