-- ===== src/Controller/Reach.antt =====
-- Histories of one context: the reader thread and the calls of the public interface in any order,
-- with any answers of the operating system.
use kuksa_val_services.Prelude.{ℕ, ℤ, ◌≡◌, List, Option, arith}
use kuksa_val_services.Controller.Types.{Seat, Config, Platform, seat_ctrl_ok}
use kuksa_val_services.Controller.Commands.{stop_movement, set_event_callback}
use kuksa_val_services.Controller.Thread.{ReadResult, thread_loop, thread_start}
use kuksa_val_services.Controller.SetPosition.{set_position}
use kuksa_val_services.Controller.Lifecycle.{OpenCalls, CloseCalls, init_ctx, open_ctx, close_ctx}
use kuksa_val_services.Controller.Invariant.{
  IsValid, thread_loop-IsValid, stop_movement-IsValid, set_position-IsValid,
}

-- One call, or a stretch of the reader thread from its loop head to its loop head.
pub data Step (p : Platform) (s : Seat) : Seat → Type 0 where
  opens : (o : OpenCalls) → Step p s (open_ctx o s).0
  starts : Step p s (thread_start s)
  reads : (rs : List ReadResult) → Step p s (thread_loop p rs s).1
  subscribes : (cb : Option ℕ) (user_data : ℕ) → Step p s (set_event_callback s cb user_data).0
  moves : (arrivals : ℕ → List ReadResult) (d : ℤ) → Step p s (set_position p arrivals s d).0
  stops : Step p s (stop_movement p s).0
  closes : (o : CloseCalls) → Step p s (close_ctx o s).0

pub data Reach (p : Platform) (s : Seat) : Seat → Type 0 where
  here : Reach p s s
  next : {t u : Seat} → Reach p s t → Step p t u → Reach p s u

open_ctx-IsValid : (o : OpenCalls) (s : Seat) → IsValid s.ctx → IsValid (open_ctx o s).0.ctx
unfolding open_ctx
open_ctx-IsValid o s v = ground arith

close_ctx-IsValid : (o : CloseCalls) (s : Seat) → IsValid s.ctx → IsValid (close_ctx o s).0.ctx
unfolding close_ctx
close_ctx-IsValid o s v = ground arith

set_event_callback-IsValid :
    (s : Seat) (cb : Option ℕ) (n : ℕ) → IsValid s.ctx → IsValid (set_event_callback s cb n).0.ctx
unfolding set_event_callback
set_event_callback-IsValid s cb n v = ground arith

pub Step-IsValid : {p : Platform} {s t : Seat} → Step p s t → IsValid s.ctx → IsValid t.ctx
Step-IsValid {p} {s} (opens o) v = open_ctx-IsValid o s v
Step-IsValid {p} {s} starts v = record { position = v.position; target = v.target }
Step-IsValid {p} {s} (reads rs) v = thread_loop-IsValid p rs s v
Step-IsValid {p} {s} (subscribes cb n) v = set_event_callback-IsValid s cb n v
Step-IsValid {p} {s} (moves arrivals d) v = set_position-IsValid p arrivals s d v
Step-IsValid {p} {s} stops v = stop_movement-IsValid p s v
Step-IsValid {p} {s} (closes o) v = close_ctx-IsValid o s v

Reach-IsValid : {p : Platform} {s t : Seat} → Reach p s t → IsValid s.ctx → IsValid t.ctx
Reach-IsValid here v = v
Reach-IsValid (next r st) v = Step-IsValid st (Reach-IsValid r v)

init_ctx-IsValid :
    (s : Seat) (c : Config) → (init_ctx s c).1 ≡ seat_ctrl_ok → IsValid (init_ctx s c).0.ctx
unfolding init_ctx
init_ctx-IsValid s c h = ground arith

-- From a successful seatctrl_init_ctx on, after any calls and any frames, the motor position is a
-- percentage or 255, and the target is either void or a percentage with direction INC or DEC.
pub init_ctx-Reach-IsValid :
    (p : Platform) (s t : Seat) (c : Config)
    → (init_ctx s c).1 ≡ seat_ctrl_ok
    → Reach p (init_ctx s c).0 t
    → IsValid t.ctx
init_ctx-Reach-IsValid p s t c ok r = Reach-IsValid r (init_ctx-IsValid s c ok)
