-- ===== src/ControllerTool/Run.antt =====
-- What a session of the test program leaves behind.
use kuksa_val_services.Prelude.{
  ℕ, pos, ◌==ℤ◌, ◌≡◌, ◌≢◌, refl, List, [], ◌∷◌, none, some, String, arith, Bool-cases, inl, inr,
}
use kuksa_val_services.Controller.Types.{
  Seat, Platform, seat_ctrl_ok, seat_ctrl_context_magic, seat_ctrl_err_invalid,
}
use kuksa_val_services.Controller.Lifecycle.{
  Environment, OpenCalls, check_rpm, open_ctx, init_ctx, default_config,
}
use kuksa_val_services.Controller.Invariant.{IsValid}
use kuksa_val_services.Controller.Reach.{
  Reach, here, next, opens, starts, reads, subscribes, moves, closes, init_ctx-Reach-IsValid,
}
use kuksa_val_services.Controller.Setup.{setup, Reach-setup}
use kuksa_val_services.Controller.Sessions.{IsClosed, close_ctx-state}
use kuksa_val_services.ControllerTool.{
  Session, tool_config, with_reader, tool_opens, tool_subscribes, tool_moves, tool_run, pos_1,
  pos_2, usleep,
}

-- Memory of static storage: the magic number is not there.
abbrev pub IsFresh : Seat → Type 0
IsFresh s = s.ctx.magic ≢ seat_ctrl_context_magic

module _ (p : Platform) (env : Environment) (argv : List String) (session : Session) where
  -- The state from which the second seatctrl_open starts.
  abbrev pub initialised : Seat → Seat
  initialised s =
      (init_ctx (with_reader (open_ctx session.open_calls_1 s)) (tool_config env argv)).0

  with_reader-Reach : (o : OpenCalls) (s : Seat) → Reach p s (with_reader (open_ctx o s))
  with_reader-Reach o s = elim (Bool-cases ((open_ctx o s).1 ==ℤ seat_ctrl_ok)) [
    | inl e ↦ rw e (next (next here (opens o)) starts)
    | inr e ↦ rw e (next here (opens o))
  ]

  usleep-Reach : {s t : Seat} (k : ℕ) → Reach p s t → Reach p s (usleep p env argv session k t)
  usleep-Reach k r = next r (reads (session.sleep_reads k))

  tool_opens-Reach : (s : Seat) → Reach p (initialised s) (tool_opens p env argv session s)
  unfolding tool_opens
  tool_opens-Reach s = with_reader-Reach session.open_calls_2 (initialised s)

  tool_subscribes-Reach :
      {s t : Seat} → Reach p s t → Reach p s (tool_subscribes p env argv session t)
  unfolding tool_subscribes
  tool_subscribes-Reach r =
      usleep-Reach 1 (next (usleep-Reach 0 r) (subscribes (some session.pos_cb) 0))

  tool_moves-Reach : {s t : Seat} → Reach p s t → Reach p s (tool_moves p env argv session t)
  unfolding tool_moves
  tool_moves-Reach r =
      let first = next r (moves (session.call_reads 0) (pos_1 env)) in
      let again = next (usleep-Reach 2 first) (moves (session.call_reads 1) (pos 42)) in
      usleep-Reach 4 (next (usleep-Reach 3 again) (moves (session.call_reads 2) (pos_2 env)))

  -- The state that seatctrl_close gets.
  abbrev moved : Seat → Seat
  moved s =
      tool_moves p env argv session
        (tool_subscribes p env argv session (tool_opens p env argv session s))

  moved-Reach : (s : Seat) → Reach p (initialised s) (moved s)
  moved-Reach s = tool_moves-Reach (tool_subscribes-Reach (tool_opens-Reach s))

  tool_run-IsClosed' :
      (s : Seat)
      → (moved s).ctx.magic ≡ seat_ctrl_context_magic
      → IsClosed (tool_run p env argv session s).ctx
  unfolding tool_run
  tool_run-IsClosed' s magic =
      rw (close_ctx-state session.close_calls (moved s) magic)
        (record { no_socket = refl; stopped = refl; no_thread = refl })

  tool_run-Reach : (s : Seat) → Reach p (initialised s) (tool_run p env argv session s)
  unfolding tool_run
  tool_run-Reach s = next (moved-Reach s) (closes session.close_calls)

  tool_config-device : (args : List String) → (tool_config env args).can_device ≢ none
  unfolding default_config check_rpm
  tool_config-device [] = λ e. ground arith
  tool_config-device (program ∷ []) = λ e. ground arith
  tool_config-device (program ∷ device ∷ args) = λ e. ground arith

  init_ctx_succeeds :
      (s : Seat)
      → ((init_ctx s (tool_config env argv)).1 ≡ seat_ctrl_ok)
        × (setup (init_ctx s (tool_config env argv)).0.ctx
            ≡ (seat_ctrl_context_magic, tool_config env argv))
  unfolding init_ctx
  init_ctx_succeeds s = ground (arith, tool_config-device argv)

  open_ctx_refused :
      (o : OpenCalls) (s : Seat) → IsFresh s → open_ctx o s ≡ (s, seat_ctrl_err_invalid)
  unfolding open_ctx
  open_ctx_refused o s fresh = ground arith

  -- A session of the test program, whatever the system answers and the bus brings: its first
  -- seatctrl_open, in memory without the magic number, is refused; and it ends with a closed and valid
  -- context, for the configuration of the environment and the arguments.
  pub tool_run-IsClosed :
      (s : Seat)
      → IsFresh s
      → (open_ctx session.open_calls_1 s ≡ (s, seat_ctrl_err_invalid))
        × IsClosed (tool_run p env argv session s).ctx
        × IsValid (tool_run p env argv session s).ctx
        × ((tool_run p env argv session s).ctx.config ≡ tool_config env argv)
  tool_run-IsClosed s fresh =
      let start : Seat = with_reader (open_ctx session.open_calls_1 s) in
      let (ok, kept) = init_ctx_succeeds start in
      let r = tool_run-Reach s in
      let config = Reach-setup r in
      let magic = Reach-setup (moved-Reach s) in
      (
        open_ctx_refused session.open_calls_1 s fresh,
        tool_run-IsClosed' s (ground arith),
        init_ctx-Reach-IsValid p start _ (tool_config env argv) ok r,
        ground arith,
      )
