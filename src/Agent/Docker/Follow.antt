-- ===== src/Agent/Docker/Follow.antt =====
-- agent/internal/dockerapp/follow.go: the multiplexed stream of Follow, as long as its context lives.
-- The body is the list of its bytes up to the end of the stream.
pub mod Frames
use breakerbox.Prelude.{
  ℕ, zero, suc, ◌+◌, ◌*◌, List, [], ◌∷◌, ◌++◌, Option, none, some, leb, if◌then◌else◌, length, take,
  drop,
}
use breakerbox.Agent.TokenProxy.Sse.{split_lines, trim_cr}

-- io.ReadFull of the header, binary.BigEndian.Uint32 of its last four bytes, and io.ReadFull of the
-- frame: its payload and what follows. `none` if the stream ends before.
unfoldable pub read_frame : List ℕ → Option (List ℕ × List ℕ)
read_frame (h ∷ i ∷ j ∷ k ∷ a ∷ b ∷ c ∷ d ∷ body) =
    let size = ((a * 256 + b) * 256 + c) * 256 + d in
    if leb size (length body) then some (take size body, drop size body) else none
read_frame _ = none

unfoldable pub trim_all : List (List ℕ) → List (List ℕ)
unfolding trim_cr
trim_all [] = []
trim_all (line ∷ lines) = trim_cr line ∷ trim_all lines

-- `if len(lines) > 0 { fn(lines) }`
unfoldable pub deliver : List (List ℕ) → List (List (List ℕ)) → List (List (List ℕ))
deliver [] later = later
deliver (line ∷ lines) later = (line ∷ lines) ∷ later

-- The loop: each call of fn with its lines. The fuel bounds the number of frames.
unfoldable pub follow : ℕ → List ℕ → List ℕ → List (List (List ℕ))
unfolding read_frame trim_all deliver split_lines
follow zero pending body = []
follow (suc fuel) pending body = elim (read_frame body) [
  | none ↦ []
  | some (frame, rest) ↦
      let cut = split_lines (pending ++ frame) in
      let later = follow fuel cut.1 rest in deliver (trim_all cut.0) later
]
