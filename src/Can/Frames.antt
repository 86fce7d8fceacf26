-- ===== src/Can/Frames.antt =====
-- Frames that are sent and received, and the timer of a subscription.
use kuksa_val_services.Prelude.{
  ℕ, ℤ, pos, ◌+◌, ◌*◌, ◌%◌, ◌≡◌, ◌≤◌, ◌<◌, ◌↔◌, refl, Bool, List, [], ◌∷◌, none, some, not, ltb_ℤ,
  length, take, arith, ap,
}
use kuksa_val_services.Can.{
  Frame, RawFrame, TimeVal, copy_data, fill_frame, with_data, zeroed, bcm_send_frame, timer,
  received, run_forever, bcm_round, message, rx_changed, data_changed,
}

-- Bytes that fit are followed by what the array held.
copy_data-fits :
    (bytes rest : List ℕ)
    → length bytes ≤ length rest
    → (done : List ℕ) × (copy_data bytes rest ≡ some done)
      × (take (length bytes) done ≡ bytes)
      × (length done ≡ length rest)
unfolding copy_data
copy_data-fits [] rest h = (rest, refl, refl, refl)
copy_data-fits (b ∷ bs) [] h = absurd (omega arith)
copy_data-fits (b ∷ bs) (r ∷ rest) h =
    let (done, e, t, l) = copy_data-fits bs rest (omega arith) in
    (b ∷ done, ground arith, ap (◌∷◌ b) t, ground arith)

copy_data-overflow :
    (bytes rest : List ℕ) → length rest < length bytes → copy_data bytes rest ≡ none
unfolding copy_data
copy_data-overflow [] rest h = absurd (omega arith)
copy_data-overflow (b ∷ bs) [] h = refl
copy_data-overflow (b ∷ bs) (r ∷ rest) h = ground (arith, copy_data-overflow bs rest (omega arith))

length_zero : (bytes : List ℕ) → length bytes ≡ 0 → bytes ≡ []
length_zero [] h = refl
length_zero (b ∷ bs) h = absurd (omega arith)

received-with_data :
    (f : Frame) (done : List ℕ)
    → length f.data_bytes ≤ 8
    → take (length f.data_bytes) done ≡ f.data_bytes
    → received (with_data f done) ≡ f
unfolding received
received-with_data f done h t =
    let m : length f.data_bytes % 256 ≡ length f.data_bytes = omega arith in
    ground (arith, length_zero f.data_bytes)

bcm_send_frame_fits :
    (f : Frame) (written : ℤ) (done : List ℕ)
    → copy_data f.data_bytes zeroed ≡ some done
    → bcm_send_frame written f ≡ some (with_data f done, not (ltb_ℤ written (pos 0)))
unfolding bcm_send_frame fill_frame
bcm_send_frame_fits f written done e = ground arith

-- A frame of up to 8 bytes is sent without a write past the array, and a receiver that reads it as a
-- changed frame calls its callback once, with the same id and bytes.
pub run_forever-bcm_send_frame :
    (f : Frame) (written : ℤ)
    → length f.data_bytes ≤ 8
    → (raw : RawFrame) × (ok : Bool) × (bcm_send_frame written f ≡ some (raw, ok))
      × (run_forever (message rx_changed raw ∷ []) ≡ (data_changed, f) ∷ [])
unfolding run_forever bcm_round
run_forever-bcm_send_frame f written h =
    let (done, e, t, l) = copy_data-fits f.data_bytes zeroed h in
    (
      with_data f done,
      not (ltb_ℤ written (pos 0)),
      bcm_send_frame_fits f written done e,
      ap (λ g. (data_changed, g) ∷ []) (received-with_data f done h t),
    )

-- The microseconds that a timer stands for, and a timer that the kernel takes as normal.
abbrev pub microseconds : TimeVal → ℕ
microseconds t = t.tv_sec * 1000000 + t.tv_usec

abbrev pub IsNormal : TimeVal → Type 0
IsNormal t = t.tv_usec < 1000000

-- The timer of a subscription stands for its timeout, which is not negative, exactly if this is
-- below 1000 seconds, and it is a normal one exactly for timeouts less than a second after a
-- multiple of 1000 seconds.
pub timer_exact :
    (timeout : ℕ)
    → ((microseconds (timer (pos timeout)) ≡ timeout * 1000) ↔ (timeout < 1000000))
      × (IsNormal (timer (pos timeout)) ↔ (timeout % 1000000 < 1000))
unfolding timer
timer_exact timeout =
    ((λ h. ground arith, λ h. ground arith), (λ h. ground arith, λ h. ground arith))
