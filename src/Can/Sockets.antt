-- ===== src/Can/Sockets.antt =====
-- CanRawSocket and CanBcmInterface: constructors, destructors, and the messages to the broadcast manager.
use kuksa_val_services.Prelude.{
  ℕ, zero, suc, ℤ, pos, ltb_ℤ, ◌==◌, ◌≡◌, ◌≤◌, ◌-◌, ◌%◌, refl, Bool, true, false, not, ◌||◌, List,
  [], ◌∷◌, ◌++◌, Option, none, some, if◌then◌else◌, length, replicate, arith,
}
use kuksa_val_services.Can.{
  Frame, RawFrame, TimeVal, BcmEventType, copy_data, zeroed, with_data, timer,
}

-- What the system answers to a constructor: `socket`, `if_nametoindex`, and `bind` or `connect`.
pub record SocketCalls : Type 0 where
  pub socket_result : ℤ
  pub interface_index : ℕ
  pub attach_result : ℤ

-- An object of either class: `socket_`, and whether it was bound or connected; and `cb_`, where none is
-- the callback that does nothing.
pub record CanSocket : Type 0 where
  pub socket : ℤ
  pub attached : Bool
  pub cb : Option ℕ

-- The constructors: errors are only logged.
unfoldable pub construct_socket : SocketCalls → CanSocket
construct_socket o =
    if ltb_ℤ o.socket_result (pos 0)
    then record { socket = o.socket_result; attached = false; cb = none }
    else if o.interface_index == 0
    then record { socket = o.socket_result; attached = false; cb = none }
    else record {
      socket = o.socket_result;
      attached = not (ltb_ℤ o.attach_result (pos 0));
      cb = none;
    }

-- The destructors: the sockets that they close.
unfoldable pub destroy_socket : CanSocket → List ℤ
destroy_socket s = if ltb_ℤ s.socket (pos 0) then [] else s.socket ∷ []

abbrev pub set_callback : ℕ → CanSocket → CanSocket
set_callback cb s = record s { cb = some cb }

-- The call that RunForever makes of the callback.
abbrev pub deliver_event : CanSocket → BcmEventType × Frame → List (ℕ × BcmEventType × Frame)
deliver_event s (event, frame) = elim s.cb [ none ↦ [] | some f ↦ (f, event, frame) ∷ [] ]

pub data BcmOpcode : Type 0 where
  tx_send rx_setup : BcmOpcode

-- struct BcmMessageRaw; SETTIMER is the only flag that is used.
pub record BcmMessage : Type 0 where
  pub opcode : BcmOpcode
  pub settimer : Bool
  pub ival1 : TimeVal
  pub head_can_id : ℕ
  pub nframes : ℕ
  pub frame : RawFrame

abbrev pub no_timer : TimeVal
no_timer = record { tv_sec = 0; tv_usec = 0 }

-- The message that SendFrame writes.
unfoldable pub send_message : Frame → Option BcmMessage
send_message f = elim (copy_data f.data_bytes zeroed) [
  | none ↦ none
  | some bytes ↦ some (record {
    opcode = tx_send;
    settimer = false;
    ival1 = no_timer;
    head_can_id = f.can_id;
    nframes = 1;
    frame = with_data f bytes;
  })
]

abbrev pub with_mask : ℕ → List ℕ → ℤ → List ℕ → BcmMessage
with_mask can_id data_mask timeout bytes = record {
  opcode = rx_setup;
  settimer = true;
  ival1 = timer timeout;
  head_can_id = can_id;
  nframes = 1;
  frame = record { raw_id = can_id; can_dlc = length data_mask % 256; raw_data = bytes };
}

-- The message that SubscribeCyclicChange writes; the result of `write` is only logged.
unfoldable pub subscribe_cyclic_change : ℕ → List ℕ → ℤ → Option BcmMessage
subscribe_cyclic_change can_id data_mask timeout = elim (copy_data data_mask zeroed) [
  | none ↦ none
  | some bytes ↦ some (with_mask can_id data_mask timeout bytes)
]

-- A socket that a constructor has opened is closed by the destructor, once, also where the constructor gave
-- up later; and an attached one stands for an interface that exists.
pub destroy_socket-construct_socket :
    (o : SocketCalls)
    → (destroy_socket (construct_socket o)
        ≡ (if ltb_ℤ o.socket_result (pos 0) then [] else o.socket_result ∷ []))
      × ((construct_socket o).attached ≡ (
          not (
            ltb_ℤ o.socket_result (pos 0)
            || o.interface_index == 0
            || ltb_ℤ o.attach_result (pos 0))))
unfolding construct_socket destroy_socket
destroy_socket-construct_socket o = ground arith

copy_data-replicate :
    (bytes : List ℕ) (n : ℕ)
    → length bytes ≤ n
    → copy_data bytes (replicate n 0) ≡ some (bytes ++ replicate (n - length bytes) 0)
unfolding copy_data
copy_data-replicate [] n h = ground arith
copy_data-replicate (b ∷ bs) zero h = absurd (omega arith)
copy_data-replicate (b ∷ bs) (suc n) h = ground (arith, copy_data-replicate bs n (omega arith))

-- For a mask of up to 8 bytes, SubscribeCyclicChange writes one message without writing past its array: it
-- asks for the id in its head and in its frame, and its mask is the given one, filled up with zeros.
pub subscribe_cyclic_change_mask :
    (can_id : ℕ) (data_mask : List ℕ) (timeout : ℤ)
    → length data_mask ≤ 8
    → (m : BcmMessage) × (subscribe_cyclic_change can_id data_mask timeout ≡ some m)
      × (m.opcode ≡ rx_setup)
      × (m.head_can_id ≡ can_id)
      × (m.frame.raw_id ≡ can_id)
      × (m.frame.can_dlc ≡ length data_mask)
      × (m.frame.raw_data ≡ data_mask ++ replicate (8 - length data_mask) 0)
unfolding subscribe_cyclic_change
subscribe_cyclic_change_mask can_id data_mask timeout h =
    let e = copy_data-replicate data_mask 8 h in
    let bytes : List ℕ = data_mask ++ replicate (8 - length data_mask) 0 in
    (with_mask can_id data_mask timeout bytes, ground arith, refl, refl, refl, omega arith, refl)
