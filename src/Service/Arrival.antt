-- ===== src/Service/Arrival.antt =====
-- From a request of the service to the motor's arrival, over the adjuster's implementation.
use kuksa_val_services.Prelude.{
  ℕ, ℤ, pos, ◌≡◌, ◌≤◌, ◌≤ℤ◌, ◌∙◌, false, true, Bool, List, [], ◌∷◌, arith,
}
use kuksa_val_services.Controller.Types.{Seat, Platform, Stat, seat_ctrl_context_magic}
use kuksa_val_services.Controller.Commands.{is_ctl_running, get_position}
use kuksa_val_services.Controller.Thread.{ReadResult, continues, thread_loop, is_open}
use kuksa_val_services.Controller.SetPosition.{set_position}
use kuksa_val_services.Controller.Magic.{thread_loop-magic, set_position-magic}
use kuksa_val_services.Controller.Arriving.{Reports}
use kuksa_val_services.Controller.Aiming.{
  AimsAt, IsIdle-AimsAt, MovesTo-AimsAt, Settled, thread_loop-AimsAt, thread_loop-Settled,
  thread_loop-is_open,
}
use kuksa_val_services.Adjuster.Impl.{
  Adjuster, adjuster, get_seat_position, set_seat_position, on_reads,
}
use kuksa_val_services.Service.{SeatLocation, SeatComponent, base_percent, move_component}
use kuksa_val_services.Service.Motor.{Served, stands, under_way, with_seat-ctx}

Served-AimsAt : (p : Platform) (n : ℕ) (a : Adjuster) → Served p n a → AimsAt n a.seat.ctx
Served-AimsAt p n a (stands i e) = IsIdle-AimsAt n a.seat.ctx i
Served-AimsAt p n a (under_way m bytes packed rest e) = MovesTo-AimsAt n a.seat.ctx m

Settled-position :
    (n : ℕ) (a : Adjuster) → n ≤ 100 → Settled n a.seat.ctx → get_seat_position a ≡ pos n
unfolding get_seat_position get_position
Settled-position n a le h = ground (arith, h.at, h.runs, h.initialised)

module _ (exit_on_error : Bool) (p : Platform) where
  on_reads-ctx :
      (rs : List ReadResult) (a : Adjuster)
      → (on_reads exit_on_error p rs a).seat.ctx ≡ (thread_loop p rs a.seat).1.ctx
  unfolding on_reads
  on_reads-ctx rs a = with_seat-ctx exit_on_error p (λ k. []) (thread_loop p rs a.seat).1 a

  module _ (arrivals : ℕ → List ReadResult) where
    set_seat_position-magic :
        (a : Adjuster) (d : ℤ)
        → (set_seat_position exit_on_error p arrivals a d).0.seat.ctx.magic ≡ a.seat.ctx.magic
    unfolding set_seat_position
    set_seat_position-magic a d =
        let s : Seat = (set_position p arrivals a.seat d).0 in
        ground (
          arith,
          with_seat-ctx exit_on_error p arrivals s a,
          set_position-magic p arrivals a.seat d,
        )

    pub move_component-magic :
        (a : Adjuster) (l : SeatLocation) (c : SeatComponent) (b : ℤ)
        → (move_component (adjuster exit_on_error p arrivals) a l c b).0.seat.ctx.magic
          ≡ a.seat.ctx.magic
    unfolding move_component
    move_component-magic a l c b = ground (arith, set_seat_position-magic a (base_percent b))

  -- The reader thread after a request for `n` that was served: it reads anything, and goes on; and then
  -- a good status that reports `n`.
  pub Served-arrives :
      (n : ℕ) (a : Adjuster) (rs : List ReadResult) (r : ReadResult) (t : Stat)
      → Served p n a
      → a.seat.ctx.magic ≡ seat_ctrl_context_magic
      → n ≤ 100
      → (thread_loop p rs a.seat).0 ≡ continues
      → pos 0 ≤ℤ r.cnt
      → Reports p r.frame t
      → t.stat_pos ≡ n
      → let b = on_reads exit_on_error p (r ∷ []) (on_reads exit_on_error p rs a) in
        (is_ctl_running b.seat.ctx ≡ false) × (get_seat_position b ≡ pos n)
  Served-arrives n a rs r t served m le goes c reports at =
      let b : Adjuster = on_reads exit_on_error p rs a in
      let same = on_reads-ctx rs a in
      let aims : AimsAt n b.seat.ctx =
        rw same (thread_loop-AimsAt p n rs a.seat (Served-AimsAt p n a served)) in
      let opened : is_open b.seat ≡ true = rw same (thread_loop-is_open p n rs a.seat goes) in
      let magic : b.seat.ctx.magic ≡ seat_ctrl_context_magic =
        rw same (thread_loop-magic p rs a.seat ∙ m) in
      let last = on_reads-ctx (r ∷ []) b in
      let settled : Settled n (on_reads exit_on_error p (r ∷ []) b).seat.ctx =
        rw last (thread_loop-Settled p n r b.seat t aims magic opened c reports at le) in
      (settled.over, Settled-position n (on_reads exit_on_error p (r ∷ []) b) le settled)
