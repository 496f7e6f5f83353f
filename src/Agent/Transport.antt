-- ===== src/Agent/Transport.antt =====
-- agent/internal/transport: the bounded send queue of Conn.Send, and the reconnect delays.
pub mod Queue
pub mod Delays
use breakerbox.Prelude.{
  ℕ, suc, ◌+◌, ◌*◌, ◌/◌, ◌%◌, ◌^◌, Bool, true, false, List, [], ◌∷◌, ◌++◌, ltb, if◌then◌else◌,
  length, drop,
}

-- the capacity of sendCh
abbrev pub queue_size : ℕ
queue_size = 256

-- Conn.Send while the connection lives and the writer is busy: a full queue loses its oldest frame,
-- and the retry then finds room.
unfoldable pub enqueue {ℓ} : {A : Type ℓ} → List A → A → List A
enqueue queue b = if ltb (length queue) queue_size then queue ++ b ∷ [] else drop 1 queue ++ b ∷ []

-- Conn.Send: false is the error of a closed connection.
unfoldable pub send_frame {ℓ} : {A : Type ℓ} → Bool → List A → A → List A × Bool
unfolding enqueue
send_frame true queue b = (enqueue queue b, true)
send_frame false queue b = (queue, false)

-- time.Second
abbrev pub second : ℕ
second = 1_000_000_000

-- `d/4*3 + jitter/2`, at the wall clock's nanoseconds
unfoldable pub jittered : ℕ → ℕ → ℕ
jittered now d = d / 4 * 3 + now % (d / 2) / 2

-- Backoff.Next: the next attempt number and the delay
unfoldable pub next_delay : ℕ → ℕ → ℕ × ℕ
unfolding jittered
next_delay now attempt =
    let shifted = second * 2 ^ attempt in
    if ltb (60 * second) shifted
    then (attempt, jittered now (60 * second))
    else (suc attempt, jittered now shifted)

-- Backoff.Reset
abbrev pub reset_attempt : ℕ
reset_attempt = 0
