-- ===== src/Adjuster/Telling.antt =====
-- What the callback of the seat adjuster has been told, through frames and calls.
use kuksa_val_services.Prelude.{
  ℕ, ℤ, ◌≡◌, ◌≢◌, inl, inr, refl, Bool, List, [], ◌∷◌, none, some, true, Option-cases, arith,
}
use kuksa_val_services.Controller.Types.{
  Seat, Platform, Output, sent, called, can_error, motor1_pos_changed, seat_ctrl_context_magic,
}
use kuksa_val_services.Controller.Thread.{ReadResult, thread_loop}
use kuksa_val_services.Controller.SetPosition.{set_position}
use kuksa_val_services.Controller.Observer.{reported, IsObserved, thread_loop-IsObserved}
use kuksa_val_services.Controller.Watching.{set_position-IsObserved}
use kuksa_val_services.Adjuster.Impl.{
  Adjuster, set_seat_position, on_reads, absorb, with_seat, callback_position,
}

-- The newest position that `cb_` was called with, `first` if there was none.
abbrev pub last_fed : ℤ → List (ℕ × ℤ) → ℤ
last_fed first [] = first
last_fed first ((f, v) ∷ rest) = v

module _ (exit_on_error : Bool) where
  absorb-cb : (os : List Output) (a : Adjuster) → (absorb exit_on_error os a).cb ≡ a.cb
  unfolding absorb
  absorb-cb [] a = refl
  absorb-cb (sent f ∷ os) a = absorb-cb os a
  absorb-cb (called cb can_error v u ∷ os) a = ground (arith, absorb-cb os a)
  absorb-cb (called cb motor1_pos_changed v u ∷ os) a = ground (arith, absorb-cb os a)

  pub absorb-seat : (os : List Output) (a : Adjuster) → (absorb exit_on_error os a).seat ≡ a.seat
  unfolding absorb
  absorb-seat [] a = refl
  absorb-seat (sent f ∷ os) a = absorb-seat os a
  absorb-seat (called cb can_error v u ∷ os) a = ground (arith, absorb-seat os a)
  absorb-seat (called cb motor1_pos_changed v u ∷ os) a = ground (arith, absorb-seat os a)

  absorb-last_fed :
      (first : ℤ) (os : List Output) (a : Adjuster) (f start : ℕ)
      → a.cb ≡ some f
      → last_fed first a.fed ≡ callback_position start
      → last_fed first (absorb exit_on_error os a).fed ≡ callback_position (reported start os)
  unfolding absorb
  absorb-last_fed first [] a f start c h = h
  absorb-last_fed first (sent g ∷ os) a f start c h = absorb-last_fed first os a f start c h
  absorb-last_fed first (called cb can_error v u ∷ os) a f start c h =
      ground (arith, absorb-last_fed first os a f start c h)
  absorb-last_fed first (called cb motor1_pos_changed v u ∷ os) a f start c h =
      ground (arith, absorb-cb os a, absorb-last_fed first os a f start c h)

  -- The thread runs, the controller's callback leads to the adjuster, and the position that `cb_` was last
  -- told is the motor's, where it had been told `first` before the recorded calls.
  pub record IsTelling (first : ℤ) (a : Adjuster) : Type 0 where
    pub quiet : a.seat.outputs ≡ []
    pub runs : a.seat.ctx.running ≡ true
    pub magic : a.seat.ctx.magic ≡ seat_ctrl_context_magic
    pub listener : a.seat.ctx.event_cb ≢ none
    pub addressed : a.seat.ctx.event_cb_user_data ≢ 0
    pub subscriber : a.cb ≢ none
    pub told : last_fed first a.fed ≡ callback_position a.seat.ctx.motor1_pos

  IsTelling-IsObserved :
      (first : ℤ) (a : Adjuster) → IsTelling first a → IsObserved a.seat.ctx.motor1_pos a.seat
  IsTelling-IsObserved first a i = record {
    magic = i.magic;
    runs = i.runs;
    listener = i.listener;
    addressed = i.addressed;
    current = rw i.quiet;
  }

  with_seat-IsTelling :
      (first : ℤ) (s : Seat) (a : Adjuster)
      → IsTelling first a
      → IsObserved a.seat.ctx.motor1_pos s
      → IsTelling first (with_seat exit_on_error s a)
  unfolding with_seat
  with_seat-IsTelling first s a i w =
      let b : Adjuster = record a { seat = record s { outputs = [] } } in
      elim (Option-cases a.cb) [
        | inl e ↦ absurd (i.subscriber e)
        | inr (f, e) ↦
            let told = absorb-last_fed first s.outputs b f a.seat.ctx.motor1_pos e i.told in
            ground (arith, w, told, absorb-seat s.outputs b, absorb-cb s.outputs b)
      ]

  module _ (p : Platform) (first : ℤ) (a : Adjuster) (i : IsTelling first a) where
    pub on_reads-IsTelling :
        (rs : List ReadResult) → IsTelling first (on_reads exit_on_error p rs a)
    unfolding on_reads
    on_reads-IsTelling rs =
        with_seat-IsTelling first (thread_loop p rs a.seat).1 a i (
          thread_loop-IsObserved p a.seat.ctx.motor1_pos rs a.seat (IsTelling-IsObserved first a i))

    pub set_seat_position-IsTelling :
        (arrivals : ℕ → List ReadResult) (d : ℤ)
        → IsTelling first (set_seat_position exit_on_error p arrivals a d).0
    unfolding set_seat_position
    set_seat_position-IsTelling arrivals d =
        with_seat-IsTelling first (set_position p arrivals a.seat d).0 a i (
          set_position-IsObserved p arrivals a.seat.ctx.motor1_pos a.seat d
            (IsTelling-IsObserved first a i))
