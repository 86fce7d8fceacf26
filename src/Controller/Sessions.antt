-- ===== src/Controller/Sessions.antt =====
-- Opening and closing a context.
use kuksa_val_services.Prelude.{ℤ, pos, ◌≡◌, ◌≤ℤ◌, ◌↔◌, true, false, arith, ==ℤ_iff}
use kuksa_val_services.Controller.Types.{
  Seat, Context, seat_ctrl_context_magic, socket_invalid, seat_ctrl_ok, seat_ctrl_err,
  seat_ctrl_err_can_bind,
}
use kuksa_val_services.Controller.Lifecycle.{
  OpenCalls, CloseCalls, open_ctx, close_ctx, with_socket, with_thread, has_device, ifindex,
}

-- No socket, no thread, and the loop's flag is off.
pub record IsClosed (c : Context) : Type 0 where
  pub no_socket : c.socket ≡ socket_invalid
  pub stopped : c.running ≡ false
  pub no_thread : c.thread_id ≡ 0

-- Every call of the operating system that seatctrl_open checks succeeds.
pub record AllSucceed (o : OpenCalls) : Type 0 where
  pub socket_ok : pos 0 ≤ℤ o.socket_result
  pub bind_ok : pos 0 ≤ℤ o.bind_result (ifindex o)
  pub create_ok : o.create_result ≡ pos 0

abbrev pub closed : Seat → Seat
closed s = record s {
  ctx = record (s.ctx) { socket = socket_invalid; running = false; thread_id = 0 };
}

abbrev pub opened : OpenCalls → Seat → Seat
opened o s = with_thread (with_socket s o.socket_result) o.new_thread

-- seatctrl_open returns SEAT_CTRL_OK exactly when the context is initialised with a device and
-- closed, and the calls of the system that it checks (socket, bind, pthread_create) succeed.
pub open_ctx-ok :
    (o : OpenCalls) (s : Seat)
    → ((open_ctx o s).1 ≡ seat_ctrl_ok) ↔ (
        (s.ctx.magic ≡ seat_ctrl_context_magic)
        × (has_device s.ctx ≡ true)
        × IsClosed s.ctx
        × AllSucceed o)
unfolding open_ctx
open_ctx-ok o s = (
  λ h. (
    ground arith,
    ground arith,
    ground (arith, ==ℤ_iff s.ctx.socket socket_invalid),
    ground (arith, ==ℤ_iff o.create_result (pos 0)),
  ),
  λ h. ground arith,
)

pub close_ctx-state :
    (o : CloseCalls) (s : Seat)
    → s.ctx.magic ≡ seat_ctrl_context_magic
    → (close_ctx o s).0 ≡ closed s
unfolding close_ctx
close_ctx-state o s h = ground (arith, ==ℤ_iff s.ctx.socket socket_invalid)

-- Whatever the system answers, seatctrl_close of an initialised context leaves no socket, no thread
-- and a cleared flag, changes nothing else, and a second close does nothing and returns OK.
pub close_ctx-twice :
    (o q : CloseCalls) (s : Seat)
    → s.ctx.magic ≡ seat_ctrl_context_magic
    → ((close_ctx o s).0 ≡ closed s) × (close_ctx q (close_ctx o s).0 ≡ (closed s, seat_ctrl_ok))
unfolding close_ctx
close_ctx-twice o q s h = (close_ctx-state o s h, rw (close_ctx-state o s h) (ground arith))

-- After seatctrl_close a context can be opened again: with the calls of the system successful,
-- seatctrl_open returns OK with the new socket and thread, whatever failed before.
pub open_ctx-close_ctx :
    (o : CloseCalls) (q : OpenCalls) (s : Seat)
    → s.ctx.magic ≡ seat_ctrl_context_magic
    → has_device s.ctx ≡ true
    → AllSucceed q
    → open_ctx q (close_ctx o s).0 ≡ (opened q (closed s), seat_ctrl_ok)
unfolding open_ctx
open_ctx-close_ctx o q s m d a = rw (close_ctx-state o s m) (ground arith)

-- The guards that a call has passed when it returns the code of a failed `bind`.
record BindFailed (o : OpenCalls) (s : Seat) : Type 0 where
  magic : s.ctx.magic ≡ seat_ctrl_context_magic
  device : has_device s.ctx ≡ true
  socket_ok : pos 0 ≤ℤ o.socket_result
  state : (open_ctx o s).0 ≡ with_socket s o.socket_result

open_ctx-BindFailed :
    (o : OpenCalls) (s : Seat) → (open_ctx o s).1 ≡ seat_ctrl_err_can_bind → BindFailed o s
unfolding open_ctx
open_ctx-BindFailed o s h = record {
  magic = ground arith;
  device = ground arith;
  socket_ok = ground arith;
  state = ground arith;
}

open_ctx-busy :
    (q : OpenCalls) (s : Seat) (fd : ℤ)
    → s.ctx.magic ≡ seat_ctrl_context_magic
    → has_device s.ctx ≡ true
    → pos 0 ≤ℤ fd
    → open_ctx q (with_socket s fd) ≡ (with_socket s fd, seat_ctrl_err)
unfolding open_ctx
open_ctx-busy q s fd m d h = ground (arith, ==ℤ_iff fd socket_invalid)

-- When `bind` fails, seatctrl_open keeps the socket that it created, and until seatctrl_close every
-- further seatctrl_open fails with SEAT_CTRL_ERR and changes nothing.
pub open_ctx-bind_failure :
    (o q : OpenCalls) (s : Seat)
    → (open_ctx o s).1 ≡ seat_ctrl_err_can_bind
    → ((open_ctx o s).0 ≡ with_socket s o.socket_result)
      × (open_ctx q (open_ctx o s).0 ≡ ((open_ctx o s).0, seat_ctrl_err))
open_ctx-bind_failure o q s h =
    let b = open_ctx-BindFailed o s h in
    (b.state, rw b.state (open_ctx-busy q s o.socket_result b.magic b.device b.socket_ok))
