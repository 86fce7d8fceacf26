-- ===== src/Controller/Printing/Fits.antt =====
-- seat_controller.cc: what print_can_raw prints fits into its buffer.
use kuksa_val_services.Prelude.{
  ℕ, zero, suc, pos, ◌+◌, ◌-◌, ◌*◌, ◌^◌, ◌≤◌, ◌<◌, ◌≡◌, refl, sym, ap, ◌∙◌, List, [], ◌∷◌, ◌++◌,
  Bool, true, false, some, take, length, length-append, take_whole, All, arith,
}
use mathlib.Core.List.{append_assoc, append-nil}
use kuksa_val_services.Prelude.Format.{codes, decimal, digits, hex, length-hex}
use kuksa_val_services.Controller.Types.{CanFrame}
use kuksa_val_services.Controller.Printing.{
  append_to_buf, append_bytes, raw_head, print_can_raw, hex_bytes, buf_size, end_line, print_bytes,
}

append_to_buf_fits :
    (buf text : List ℕ)
    → length buf + length text < buf_size
    → append_to_buf buf text ≡ some (buf ++ text)
unfolding append_to_buf
append_to_buf_fits buf text h = ground (arith, take_whole (buf_size - 1) text)

length-byte : (b : ℕ) → b < 256 → length (hex 2 b ++ codes " ") ≤ 3
length-byte b h =
    omega (arith, length-append {0} (hex 2 b) (codes " "), length-hex 1 2 b h (omega arith))

append_bytes-next :
    (n b : ℕ) (bytes buf longer : List ℕ)
    → append_to_buf buf (hex 2 b ++ codes " ") ≡ some longer
    → append_bytes (suc n) (b ∷ bytes) buf ≡ append_bytes n bytes longer
unfolding append_bytes
append_bytes-next n b bytes buf longer h = rw (h, append_bytes) refl

-- The loop appends all bytes, and the text has grown by three for each at most.
append_bytes_fits :
    (n : ℕ) (bytes buf : List ℕ)
    → n ≤ length bytes
    → All (λ b. b < 256) bytes
    → length buf + 3 * n < buf_size
    → append_bytes n bytes buf ≡ some (buf ++ hex_bytes (take n bytes))
unfolding append_bytes hex_bytes
append_bytes_fits zero bytes buf l a h = ap some (sym (append-nil buf))
append_bytes_fits (suc n) [] buf l a h = absurd (omega arith)
append_bytes_fits (suc n) (b ∷ bytes) buf l (small, a) h =
    let piece : List ℕ = hex 2 b ++ codes " " in
    let short = length-byte b small in
    let more = length-append {0} buf piece in
    append_bytes-next n b bytes buf (buf ++ piece) (append_to_buf_fits buf piece (omega arith))
    ∙ append_bytes_fits n bytes (buf ++ piece) (omega arith) a (omega arith)
    ∙ ap some (
        append_assoc buf piece (hex_bytes (take n bytes))
        ∙ ap (λ t. buf ++ t) (append_assoc (hex 2 b) (codes " ") (hex_bytes (take n bytes))))

one_digit : (n fuel : ℕ) → n < 10 → length (digits fuel 10 n) ≡ 1
unfolding digits
one_digit n zero h = refl
one_digit n (suc fuel) h = ground arith

length-raw_head :
    (frame : CanFrame) (is_received : Bool)
    → frame.can_id < 2 ^ 32
    → frame.can_dlc ≤ 8
    → length (raw_head frame is_received) ≤ 34
length-raw_head frame true i d = omega (
  arith,
  length-append {0} (hex 3 frame.can_id)
      (codes " [" ++ (decimal (pos frame.can_dlc) ++ codes "] ")),
  length-append {0} (decimal (pos frame.can_dlc)) (codes "] "),
  length-hex 7 3 frame.can_id (omega arith) (omega arith),
  one_digit frame.can_dlc frame.can_dlc (omega arith),
)
length-raw_head frame false i d = omega (
  arith,
  length-append {0} (hex 3 frame.can_id)
      (codes " [" ++ (decimal (pos frame.can_dlc) ++ codes "] ")),
  length-append {0} (decimal (pos frame.can_dlc)) (codes "] "),
  length-hex 7 3 frame.can_id (omega arith) (omega arith),
  one_digit frame.can_dlc frame.can_dlc (omega arith),
)

-- For a frame with a 32-bit id and at most eight bytes of data, print_can_raw reads no byte that is not
-- there and writes none behind its buffer, although it passes the size of the whole buffer for each part:
-- it prints the direction, the id, the length and every byte, and nothing is cut.
pub print_can_raw_fits :
    (frame : CanFrame) (is_received : Bool)
    → frame.can_id < 2 ^ 32
    → frame.can_dlc ≤ 8
    → frame.can_dlc ≤ length frame.payload
    → All (λ b. b < 256) frame.payload
    → print_can_raw frame is_received
      ≡ some (
          (raw_head frame is_received ++ hex_bytes (take frame.can_dlc frame.payload))
          ++ codes "\n")
unfolding print_can_raw
print_can_raw_fits frame is_received i d l a =
    let head : List ℕ = raw_head frame is_received in
    let short = length-raw_head frame is_received i d in
    ap (print_bytes frame) (append_to_buf_fits [] head (omega arith))
    ∙ ap end_line (append_bytes_fits frame.can_dlc frame.payload head l a (omega arith))
