-- ===== src/Controller/Reading.antt =====
-- How the reader thread's loop takes failed reads.
use kuksa_val_services.Prelude.{pos, ◌≡◌, ◌≢◌, ◌<ℤ◌, ◌⊎◌, true, List, ◌∷◌, arith, ==ℤ_iff}
use kuksa_val_services.Controller.Types.{Seat, Platform, called, can_error}
use kuksa_val_services.Controller.Commands.{call_event_cb}
use kuksa_val_services.Controller.Thread.{ReadResult, breaks, on_read, thread_loop, is_open}

module _ (p : Platform) where
  -- A failed `read` with an errno other than EAGAIN and EINTR ends the loop, ENETDOWN included: the
  -- code compares the negative result, and not errno, with ENETDOWN. What follows is never read, and
  -- the callback, if there is one, gets errno.
  pub thread_loop_error :
      (r : ReadResult) (rs : List ReadResult) (s : Seat)
      → is_open s ≡ true
      → r.cnt <ℤ pos 0
      → r.errno ≢ p.eagain
      → r.errno ≢ p.eintr
      → thread_loop p (r ∷ rs) s ≡ (
        breaks,
        call_event_cb s.ctx.event_cb s (λ t f. called f can_error r.errno t.ctx.event_cb_user_data),
      )
  unfolding thread_loop on_read
  thread_loop_error r rs s o c a i = ground (arith, ==ℤ_iff r.cnt (pos p.enetdown))

  -- A timeout or an interrupted `read` changes nothing.
  pub thread_loop_retry :
      (r : ReadResult) (rs : List ReadResult) (s : Seat)
      → is_open s ≡ true
      → r.cnt <ℤ pos 0
      → (r.errno ≡ p.eagain) ⊎ (r.errno ≡ p.eintr)
      → thread_loop p (r ∷ rs) s ≡ thread_loop p rs s
  unfolding thread_loop on_read
  thread_loop_retry r rs s o c e = ground arith
