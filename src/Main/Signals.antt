-- ===== src/Main/Signals.antt =====
-- main.cc: the signal handler with its pipe, and Run from the start of the server to its end.
use kuksa_val_services.Prelude.{
  ℕ, ℤ, pos, negsuc, ◌==ℤ◌, ◌==◌, ltb_ℤ, ◌≡◌, refl, Bool, true, false, not, ◌&&◌, List, [], ◌∷◌,
  Option, none, some, if◌then◌else◌, arith,
}
use kuksa_val_services.Main.{Threads, shut_down}

-- One `write` to the pipe: the byte is there, or errno.
abbrev pub Write : Type 0
Write = Option ℕ

-- The handler: is the byte written, and the writes that are left? An empty list is a `write` that is still
-- to come.
unfoldable pub signal_handler : ℕ → List Write → Bool × List Write
signal_handler eintr [] = (false, [])
signal_handler eintr (none ∷ rest) = (true, rest)
signal_handler eintr (some errno ∷ rest) =
    let retry = signal_handler eintr rest in if errno == eintr then retry else (false, rest)

-- What wait_for_signal prints for the result of `read`.
pub data Woken : Type 0 where
  read_error received_signal unexpected_eof : Woken

abbrev pub wait_for_signal : ℤ → Woken
wait_for_signal res =
    if ltb_ℤ res (pos 0)
    then read_error
    else if res ==ℤ pos 1
    then received_signal
    else unexpected_eof

-- What the surroundings contribute to the end of Run: does the server start, the results of `pipe` and of
-- `fcntl`, the result of the `read` from the pipe, and what happens to the threads until it returns.
pub record Serving (S : Type 0) : Type 0 where
  pub server_starts : Bool
  pub pipe_result : ℤ
  pub fcntl_result : ℤ
  pub read_result : ℤ
  pub meanwhile : Threads S → Threads S

-- setup_signal_handler exits with 1 when it fails.
abbrev pub setup_succeeds : {S : Type 0} → Serving S → Bool
setup_succeeds v = not (v.pipe_result ==ℤ negsuc 0) && v.fcntl_result ==ℤ pos 0

-- Run from the start of the server to the joins; `none` is an exit. Without a server nothing is waited for.
unfoldable pub serve : {S : Type 0} → Serving S → Threads S → Option (Threads S)
serve v t =
    if not v.server_starts
    then some (shut_down t)
    else if setup_succeeds v
    then some (shut_down (v.meanwhile t))
    else none

-- The writes are interrupted up to one that succeeds.
pub data IsWritten (eintr : ℕ) : List Write → List Write → Type 0 where
  done : (rest : List Write) → IsWritten eintr (none ∷ rest) rest
  again : {ws rest : List Write} → IsWritten eintr ws rest → IsWritten eintr (some eintr ∷ ws) rest

-- The handler writes the byte through any number of interruptions, and tries no further then.
pub signal_handler-IsWritten :
    (eintr : ℕ) {ws rest : List Write}
    → IsWritten eintr ws rest
    → signal_handler eintr ws ≡ (true, rest)
unfolding signal_handler
signal_handler-IsWritten eintr (done rest) = refl
signal_handler-IsWritten eintr (again w) = ground (arith, signal_handler-IsWritten eintr w)
