-- ===== src/Examples/Printing.antt =====
-- The texts of the controller and of the client, at concrete values.
use kuksa_val_services.Prelude.{◌++◌, ◌≡◌, refl, true, [], ◌∷◌, some, none, take, arith}
use kuksa_val_services.Prelude.Format.{codes, digits}
use kuksa_val_services.Grpc.{StatusCode, failure}
use kuksa_val_services.Controller.Types.{CanFrame}
use kuksa_val_services.Controller.Printing.{
  print_can_raw, raw_head, hex_bytes, dumphex, print_secu1_stat, print_secu1_cmd_1, LearningChoices,
}
use kuksa_val_services.Controller.Printing.Fits.{print_can_raw_fits}
use kuksa_val_services.Feeder.State.{status_is_ok}
use kuksa_val_services.SvcClient.Printing.{print_grpc_status}

abbrev short_frame : CanFrame
short_frame = record {
  can_id = 0x712;
  can_dlc = 3;
  payload = 42 ∷ 255 ∷ 0 ∷ 0 ∷ 0 ∷ 0 ∷ 0 ∷ 0 ∷ [];
}

short_text :
    print_can_raw short_frame true ≡ some (codes "        [CAN]: RX: 0x712 [3] 2A FF 00 \n")
unfolding print_can_raw digits
short_text = refl

-- A length above that of the data.
read_past : print_can_raw (record short_frame { can_dlc = 9 }) true ≡ none
unfolding print_can_raw digits
read_past = refl

print_can_raw_fits_example :
    print_can_raw short_frame true
    ≡ some (
        (raw_head short_frame true ++ hex_bytes (take 3 (42 ∷ 255 ∷ 0 ∷ 0 ∷ 0 ∷ 0 ∷ 0 ∷ 0 ∷ [])))
        ++ codes "\n")
print_can_raw_fits_example =
    print_can_raw_fits short_frame true (omega arith) (omega arith) (omega arith) (omega arith)

dumped : dumphex "RX-RAW " (18 ∷ 7 ∷ []) ≡ codes "RX-RAW  <2> [12 07 ]\n"
unfolding dumphex digits
dumped = refl

abbrev choices : LearningChoices
choices = record { not_learned_choice = 0; learned_choice = 1; invalid_choice = 3 }

stat_text :
    print_secu1_stat choices " [SECU1_STAT]: "
      (record { stat_pos = 42; stat_mov_state = 2; stat_learning_state = 1 })
    ≡ codes " [SECU1_STAT]: { motor1_pos: 42%, motor1_mov_state: INC, motor1_learning_state: OK }\n"
unfolding print_secu1_stat digits
stat_text = refl

cmd_text :
    print_secu1_cmd_1 "" (record { motor1_manual_cmd = 0; motor1_set_rpm = 80 })
    ≡ codes "[SECU1]{ motor1_cmd: OFF, motor1_rpm: 8000 }\n"
unfolding print_secu1_cmd_1 digits
cmd_text = refl

status_line :
    print_grpc_status (λ c. 11) (failure StatusCode.out_of_range "far")
    ≡ codes "GRPC error: { code:11 (OUT_OF_RANGE) \"far\" }\n"
unfolding print_grpc_status digits status_is_ok
status_line = refl
