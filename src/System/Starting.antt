-- ===== src/System/Starting.antt =====
-- seat_service/src/bin/seat_service/main.cc: between the constructor of the adjuster, which starts the
-- reader thread, and SubscribePosition, the thread may read already.
use kuksa_val_services.Prelude.{ℕ, ◌≡◌, refl, Bool, List, [], ◌∷◌, none, some, arith}
use kuksa_val_services.Controller.Types.{
  Seat, Platform, Output, sent, called, can_error, motor1_pos_changed,
}
use kuksa_val_services.Controller.Thread.{ReadResult, thread_loop}
use kuksa_val_services.Controller.Invariant.{IsValid, thread_loop-IsValid}
use kuksa_val_services.Controller.Observer.{IsObserved, thread_loop-IsObserved}
use kuksa_val_services.Adjuster.Impl.{
  Adjuster, absorb, with_seat, on_reads, seatctrl_event_cb, call_cb, subscribe_position,
  callback_position,
}
use kuksa_val_services.Adjuster.Telling.{IsTelling, absorb-seat}

module _ (exit_on_error : Bool) where
  -- Without a callback nobody is told a position.
  absorb-unheard :
      (os : List Output) (a : Adjuster)
      → a.cb ≡ none
      → ((absorb exit_on_error os a).fed ≡ a.fed) × ((absorb exit_on_error os a).cb ≡ none)
  unfolding absorb seatctrl_event_cb call_cb
  absorb-unheard [] a h = (refl, h)
  absorb-unheard (sent f ∷ os) a h = absorb-unheard os a h
  absorb-unheard (called cb can_error v u ∷ os) a h = ground (arith, absorb-unheard os a h)
  absorb-unheard (called cb motor1_pos_changed v u ∷ os) a h = ground (arith, absorb-unheard os a h)

  module _ (p : Platform) (rs : List ReadResult) (a : Adjuster) where
    pub on_reads-unheard : a.cb ≡ none → a.fed ≡ [] → (on_reads exit_on_error p rs a).fed ≡ []
    unfolding on_reads with_seat
    on_reads-unheard h e =
        let s : Seat = (thread_loop p rs a.seat).1 in
        ground (arith, absorb-unheard s.outputs (record a { seat = record s { outputs = [] } }) h)

    pub on_reads-IsValid : IsValid a.seat.ctx → IsValid (on_reads exit_on_error p rs a).seat.ctx
    unfolding on_reads with_seat
    on_reads-IsValid v =
        let s : Seat = (thread_loop p rs a.seat).1 in
        rw (absorb-seat exit_on_error s.outputs (record a { seat = record s { outputs = [] } }))
          (thread_loop-IsValid p rs a.seat v)

    -- The controller leads to the adjuster still, and tells the callback that is then set each change of
    -- the position that it has now.
    pub on_reads-subscribed :
        (f : ℕ)
        → IsObserved a.seat.ctx.motor1_pos a.seat
        → (on_reads exit_on_error p rs a).fed ≡ []
        → let b = on_reads exit_on_error p rs a in
          IsTelling exit_on_error
            (callback_position b.seat.ctx.motor1_pos)
            (subscribe_position b (some f))
    unfolding on_reads with_seat subscribe_position
    on_reads-subscribed f i e =
        let s : Seat = (thread_loop p rs a.seat).1 in
        let o = thread_loop-IsObserved p a.seat.ctx.motor1_pos rs a.seat i in
        let same =
          absorb-seat exit_on_error s.outputs (record a { seat = record s { outputs = [] } }) in
        record {
          quiet = rw same refl;
          runs = rw same o.runs;
          magic = rw same o.magic;
          listener = rw same o.listener;
          addressed = rw same o.addressed;
          subscriber = λ n. ground arith;
          told = rw e refl;
        }
