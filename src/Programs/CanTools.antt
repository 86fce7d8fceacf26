-- ===== src/Programs/CanTools.antt =====
-- seat_service/src/examples/can_send/can_send.cc and can_subscribe/can_subscribe.cc.
use kuksa_val_services.Prelude.{
  ℕ, zero, suc, pos, ◌%◌, ◌==◌, not, List, [], ◌∷◌, Option, none, some, if◌then◌else◌, ◌≡◌, refl,
  ap,
}
use kuksa_val_services.Can.{
  Frame, BcmEventType, data_changed, data_timeout, error, Reading, message, rx_changed, run_forever,
  bcm_round, received, fill_frame, copy_data,
}
use kuksa_val_services.Can.Sockets.{BcmMessage, send_message, subscribe_cyclic_change}
use kuksa_val_services.Prelude.Dict.{Dict, lookup, ℕ_eq}

-- The cases of the switch: from which round on the third byte has which value.
abbrev pub levels : Dict ℕ ℕ
levels =
    (40, 21)
    ∷ (80, 22)
    ∷ (120, 23)
    ∷ (160, 24)
    ∷ (200, 26)
    ∷ (240, 28)
    ∷ (280, 30)
    ∷ (320, 32)
    ∷ (360, 34)
    ∷ []

abbrev pub new_level : ℕ → ℕ → ℕ
new_level i level = elim (lookup i levels) [ none ↦ level | some changed ↦ changed ]

abbrev pub level_frame : ℕ → ℕ → Frame
level_frame level i = record {
  can_id = 1810;
  data_bytes = 1 ∷ 80 ∷ level ∷ 0 ∷ 0 ∷ 0 ∷ 0 ∷ i % 256 ∷ [];
}

-- The frames of `rounds` rounds from round i on, where the third byte has been `level`.
unfoldable pub sent_frames : ℕ → ℕ → ℕ → List Frame
sent_frames zero i level = []
sent_frames (suc rounds) i level =
    level_frame (new_level i level) i ∷ sent_frames rounds (suc i) (new_level i level)

abbrev pub can_send : List Frame
can_send = sent_frames 500 0 20

-- What can_subscribe prints.
pub data Printed : Type 0 where
  position : ℕ → ℕ → Printed
  no_data an_error : Printed
  out_of_bounds : Printed

-- msg.data[2], which is not checked to be there.
abbrev pub third_byte : List ℕ → Option ℕ
third_byte (a ∷ b ∷ c ∷ rest) = some c
third_byte _ = none

unfoldable pub on_bcm_event : BcmEventType × Frame → Printed
on_bcm_event (data_changed, msg) = elim (third_byte msg.data_bytes) [
  | none ↦ out_of_bounds
  | some percent ↦ position msg.can_id percent
]
on_bcm_event (data_timeout, msg) = no_data
on_bcm_event (error, msg) = an_error

abbrev pub print_all : List (BcmEventType × Frame) → List Printed
print_all [] = []
print_all (e ∷ es) = on_bcm_event e ∷ print_all es

abbrev pub first_frame : Frame
first_frame = record { can_id = 1797; data_bytes = 1 ∷ 80 ∷ 0 ∷ 0 ∷ 0 ∷ 0 ∷ 0 ∷ 0 ∷ [] }

-- main: the messages that it writes, and what it prints for what it then reads. `none` is the usage
-- message, or a write past an array.
unfoldable pub can_subscribe : ℕ → List Reading → Option (BcmMessage × BcmMessage × List Printed)
can_subscribe argc rs = if not (argc == 2) then none else elim (send_message first_frame) [
  | none ↦ none
  | some sent ↦ elim (subscribe_cyclic_change 1810 (0 ∷ 0 ∷ 255 ∷ []) (pos 0)) [
    | none ↦ none
    | some asked ↦ some (sent, asked, print_all (run_forever rs))
  ]
]

-- The socket's answer to one frame: what a receiver reads from the bus.
abbrev pub as_read : List Frame → List Reading
as_read [] = []
as_read (f ∷ fs) = elim (fill_frame f) [
  | none ↦ as_read fs
  | some raw ↦ message rx_changed raw ∷ as_read fs
]

-- The third bytes of the rounds.
abbrev pub sent_levels : ℕ → ℕ → ℕ → List ℕ
sent_levels zero i level = []
sent_levels (suc rounds) i level =
    new_level i level ∷ sent_levels rounds (suc i) (new_level i level)

abbrev pub positions : List ℕ → List Printed
positions [] = []
positions (n ∷ ns) = position 1810 n ∷ positions ns

-- When can_subscribe reads the frames of can_send, each as a change, it prints the third byte of every
-- frame, in order.
pub print_all-sent_frames :
    (rounds i level : ℕ)
    → print_all (run_forever (as_read (sent_frames rounds i level)))
      ≡ positions (sent_levels rounds i level)
unfolding sent_frames run_forever bcm_round received fill_frame copy_data on_bcm_event
print_all-sent_frames zero i level = refl
print_all-sent_frames (suc rounds) i level =
    ap (λ (ps : List Printed). position 1810 (new_level i level) ∷ ps)
      (print_all-sent_frames rounds (suc i) (new_level i level))
