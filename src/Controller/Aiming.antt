-- ===== src/Controller/Aiming.antt =====
-- seat_controller.cc: the target of the pending operation, from the command to the motor's arrival.
use kuksa_val_services.Prelude.{
  ℕ, pos, ◌≡◌, ◌≤◌, ◌≤ℤ◌, ◌⊎◌, inl, inr, true, false, List, [], ◌∷◌, arith, Option-cases,
}
use kuksa_val_services.Controller.Types.{
  Seat, Context, Platform, CanFrame, Stat, inc, dec, seat_ctrl_context_magic,
}
use kuksa_val_services.Controller.Commands.{is_ctl_running}
use kuksa_val_services.Controller.Status.{handle_secu_stat, take_stat}
use kuksa_val_services.Controller.ControlLoop.{control_loop}
use kuksa_val_services.Controller.Thread.{
  ReadResult, continues, on_frame, on_read, thread_loop, is_open,
}
use kuksa_val_services.Controller.Effects.{control_loop-ctx, notify_position-ctx}
use kuksa_val_services.Controller.Invariant.{IsIdle}
use kuksa_val_services.Controller.Outcomes.{MovesTo}
use kuksa_val_services.Controller.Idle.{on_frame_idle, is_ctl_running-no_target}
use kuksa_val_services.Controller.Arriving.{
  Reports, HasArrived, on_frame_settles, on_frame-position,
}

-- An operation that is pending goes to `n`.
abbrev pub AimsAt : ℕ → Context → Type 0
AimsAt n c =
    (is_ctl_running c ≡ false)
    ⊎ ((c.desired_position ≡ n) × ((c.desired_direction ≡ inc) ⊎ (c.desired_direction ≡ dec)))

pub IsIdle-AimsAt : (n : ℕ) (c : Context) → IsIdle c → AimsAt n c
unfolding is_ctl_running
IsIdle-AimsAt n c (a, b, e) = inl (ground arith)

pub MovesTo-AimsAt : (n : ℕ) (c : Context) → MovesTo c n → AimsAt n c
MovesTo-AimsAt n c h = elim h.towards [
  | inl (d, lt) ↦ inr (h.target, inl d)
  | inr (d, lt) ↦ inr (h.target, inr d)
]

module _ (p : Platform) (n : ℕ) where
  handle_secu_stat-AimsAt :
      (s : Seat) (f : CanFrame) → AimsAt n s.ctx → AimsAt n (handle_secu_stat p s f).0.ctx
  unfolding handle_secu_stat take_stat is_ctl_running
  handle_secu_stat-AimsAt s f h = elim (Option-cases (p.stat_unpack f.payload f.can_dlc)) [
    | inl e ↦ ground arith
    | inr (t, e) ↦ ground (arith, notify_position-ctx p t s)
  ]

  control_loop-AimsAt : (s : Seat) → AimsAt n s.ctx → AimsAt n (control_loop p s).0.ctx
  control_loop-AimsAt s h =
      ground (arith, control_loop-ctx p s, is_ctl_running-no_target p s.ctx, h)

  on_frame-AimsAt : (f : CanFrame) (s : Seat) → AimsAt n s.ctx → AimsAt n (on_frame p f s).ctx
  unfolding on_frame
  on_frame-AimsAt f s h =
      let u = handle_secu_stat-AimsAt s f h in
      ground (arith, u, control_loop-AimsAt (handle_secu_stat p s f).0 u)

  on_read-AimsAt : (r : ReadResult) (s : Seat) → AimsAt n s.ctx → AimsAt n (on_read p r s).1.ctx
  unfolding on_read
  on_read-AimsAt r s h = ground (arith, on_frame-AimsAt r.frame s h)

  -- Whatever the reader thread reads, an operation keeps its target for as long as it is pending.
  pub thread_loop-AimsAt :
      (rs : List ReadResult) (s : Seat) → AimsAt n s.ctx → AimsAt n (thread_loop p rs s).1.ctx
  unfolding thread_loop
  thread_loop-AimsAt [] s h = h
  thread_loop-AimsAt (r ∷ rs) s h =
      let next = on_read-AimsAt r s h in
      ground (arith, next, thread_loop-AimsAt rs (on_read p r s).1 next)

  -- A loop that goes on has an open context.
  pub thread_loop-is_open :
      (rs : List ReadResult) (s : Seat)
      → (thread_loop p rs s).0 ≡ continues
      → is_open (thread_loop p rs s).1 ≡ true
  unfolding thread_loop
  thread_loop-is_open [] s h = ground arith
  thread_loop-is_open (r ∷ rs) s h = ground (arith, thread_loop-is_open rs (on_read p r s).1)

  on_frame-settled :
      (f : CanFrame) (s : Seat) (t : Stat)
      → AimsAt n s.ctx
      → Reports p f t
      → t.stat_pos ≡ n
      → n ≤ 100
      → is_ctl_running (on_frame p f s).ctx ≡ false
  on_frame-settled f s t h reports at le = elim h [
    | inl quiet ↦ (on_frame_idle p f s quiet).0
    | inr (e, d) ↦
        let there : HasArrived s.ctx t = record {
          known = λ q. omega arith;
          there = elim d [ inl up ↦ inl (up, omega arith) | inr down ↦ inr (down, omega arith) ];
        } in
        on_frame_settles p f s t reports there (inr (inl (ground arith)))
  ]

-- No operation is pending, and an initialised context whose thread runs knows the position `n`.
pub record Settled (n : ℕ) (c : Context) : Type 0 where
  pub over : is_ctl_running c ≡ false
  pub at : c.motor1_pos ≡ n
  pub runs : c.running ≡ true
  pub initialised : c.magic ≡ seat_ctrl_context_magic

module _ (p : Platform) (n : ℕ) where
  -- A good status that reports the target settles the context.
  pub thread_loop-Settled :
      (r : ReadResult) (s : Seat) (t : Stat)
      → AimsAt n s.ctx
      → s.ctx.magic ≡ seat_ctrl_context_magic
      → is_open s ≡ true
      → pos 0 ≤ℤ r.cnt
      → Reports p r.frame t
      → t.stat_pos ≡ n
      → n ≤ 100
      → Settled n (thread_loop p (r ∷ []) s).1.ctx
  unfolding thread_loop on_read
  thread_loop-Settled r s t h m opened c reports e le =
      let (at, magic, running) = on_frame-position p r.frame s t reports in
      record {
        over = ground (arith, on_frame-settled p n r.frame s t h reports e le);
        at = ground (arith, at, e);
        runs = ground (arith, running);
        initialised = ground (arith, magic, m);
      }
