-- ===== src/Can.antt =====
-- seat_service/src/lib/can_helpers: CanRawSocket (can_raw_socket.h and .cc) and CanBcmInterface
-- (can_bcm_interface.h and .cc), over what the calls of the operating system return.
pub mod Frames
pub mod Sockets
use kuksa_val_services.Prelude.{
  pos_part, ℕ, zero, suc, ℤ, pos, ◌*◌, ◌/◌, ◌%◌, ltb, ltb_ℤ, ◌==ℤ◌, ◌==◌, Bool, true, false, not,
  List, [], ◌∷◌, ◌++◌, Option, none, some, if◌then◌else◌, length, take, replicate,
}

pub record Frame : Type 0 where
  pub can_id : ℕ
  pub data_bytes : List ℕ

-- struct can_frame of the kernel: the id, the length, and an array of eight bytes.
pub record RawFrame : Type 0 where
  pub raw_id : ℕ
  pub can_dlc : ℕ
  pub raw_data : List ℕ

abbrev pub zeroed : List ℕ
zeroed = replicate 8 0

-- raw.data[i] = frame.data[i] for every i, from the array's rest; `none` is a write past its end.
unfoldable pub copy_data : List ℕ → List ℕ → Option (List ℕ)
copy_data [] rest = some rest
copy_data (b ∷ bs) [] = none
copy_data (b ∷ bs) (r ∷ rest) = elim (copy_data bs rest) [
  | none ↦ none
  | some done ↦ some (b ∷ done)
]

abbrev pub with_data : Frame → List ℕ → RawFrame
with_data f bytes = record {
  raw_id = f.can_id;
  can_dlc = length f.data_bytes % 256;
  raw_data = bytes;
}

-- The frame that both classes fill in SendFrame.
unfoldable pub fill_frame : Frame → Option RawFrame
fill_frame f = elim (copy_data f.data_bytes zeroed) [
  | none ↦ none
  | some bytes ↦ some (with_data f bytes)
]

-- CanRawSocket::SendFrame, on what `write` returns and the size of the raw frame: what is written, and
-- the result.
unfoldable pub raw_send_frame : ℕ → ℤ → Frame → Option (RawFrame × Bool)
raw_send_frame size written f = elim (fill_frame f) [
  | none ↦ none
  | some raw ↦ some (raw, written ==ℤ pos size)
]

-- CanBcmInterface::SendFrame: only a negative result of `write` is an error.
unfoldable pub bcm_send_frame : ℤ → Frame → Option (RawFrame × Bool)
bcm_send_frame written f = elim (fill_frame f) [
  | none ↦ none
  | some raw ↦ some (raw, not (ltb_ℤ written (pos 0)))
]

pub record TimeVal : Type 0 where
  pub tv_sec : ℕ
  pub tv_usec : ℕ

-- The timer of SubscribeCyclicChange, for a timeout in milliseconds. One that is not positive leaves the
-- zeroed message as it is.
unfoldable pub timer : ℤ → TimeVal
timer timeout =
    let usecs = pos_part timeout * 1000 in
    if ltb_ℤ (pos 0) timeout
    then record { tv_sec = usecs / 1000000000; tv_usec = usecs % 1000000000 }
    else record { tv_sec = 0; tv_usec = 0 }

pub data BcmEventType : Type 0 where
  data_changed data_timeout error : BcmEventType

-- The opcode of a message that was read.
pub data Opcode : Type 0 where
  rx_changed rx_timeout : Opcode
  other_opcode : ℕ → Opcode

-- What one `read` of RunForever returns: a failure, or a message.
pub data Reading : Type 0 where
  failed : Reading
  message : Opcode → RawFrame → Reading

abbrev pub empty_frame : Frame
empty_frame = record { can_id = 0; data_bytes = [] }

-- The frame that the callback gets.
unfoldable pub received : RawFrame → Frame
received raw = record {
  can_id = raw.raw_id;
  data_bytes = if ltb 0 raw.can_dlc then take raw.can_dlc raw.raw_data else [];
}

abbrev pub event_of : Opcode → Option BcmEventType
event_of rx_changed = some data_changed
event_of rx_timeout = some data_timeout
event_of (other_opcode n) = none

-- One round of RunForever: the calls of the callback. The frame of a failed read is left as its
-- constructor makes it; the empty one stands for it.
unfoldable pub bcm_round : Reading → List (BcmEventType × Frame)
bcm_round failed = (error, empty_frame) ∷ []
bcm_round (message op raw) = elim (event_of op) [
  | none ↦ []
  | some event ↦ (event, received raw) ∷ []
]

unfoldable pub run_forever : List Reading → List (BcmEventType × Frame)
unfolding bcm_round
run_forever [] = []
run_forever (r ∷ rs) = bcm_round r ++ run_forever rs
