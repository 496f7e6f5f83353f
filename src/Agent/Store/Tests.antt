-- ===== src/Agent/Store/Tests.antt =====
-- Runs of the spool and the state file.
use breakerbox.Prelude.{ℕ, true, false, List, [], ◌∷◌, Option, none, some, ◌≡◌, refl, arith}
use breakerbox.Agent.Store.Spool.{Codec}
use breakerbox.Agent.Store.Spool.Queue.{
  SpoolEvent, queued, torn, drained, run_spool, run_queue, spool-refines_queue,
}
use breakerbox.Agent.Store.State.{SaveAnswers, StateCodec, StateFiles, cut_save, save_state}
use breakerbox.Agent.Store.State.Atomic.{OldOrNew, WholeOrNone, save_state-WholeOrNone}

-- Operations are numbers here, written as one byte.
abbrev decode_byte : List ℕ → Option ℕ
decode_byte [] = none
decode_byte (c ∷ s) = some c

abbrev byte : Codec ℕ
byte = record {
  verb = λ op. 97 ∷ [];
  encode = λ op. op ∷ [];
  decode = decode_byte;
  decode_encode = λ op. refl;
}

-- Two operations, one that was cut off, and two drains.
abbrev day : List (SpoolEvent ℕ)
day =
    queued 1_700_000_000_000_000_000 7
    ∷ torn 1_700_000_000_000_000_001 8
    ∷ queued 1_700_000_000_000_000_009 9
    ∷ drained
    ∷ queued 1_700_000_000_000_000_010 4
    ∷ drained
    ∷ []

spool-refines_queue_example : run_spool byte [] day ≡ run_queue [] day
spool-refines_queue_example = spool-refines_queue byte day (
  omega arith,
  (omega arith, omega arith),
  (omega arith, (omega arith, omega arith), (omega arith, (omega arith, omega arith), tt)),
)

abbrev number : StateCodec ℕ
number = record { encode = λ s. s ∷ []; decode = decode_byte; empty = 0; decode_encode = λ s. refl }

abbrev five : StateFiles
five = record { state = some (5 ∷ []); tmp = none }

abbrev no_rename : SaveAnswers
no_rename = record { dir_made = true; written = true; part = []; renamed = false }

save_state-WholeOrNone_example :
    WholeOrNone number five 6 (save_state number no_rename five 6)
    × ((cut : SaveAnswers) (n : ℕ) → OldOrNew number five 6 n (cut_save number cut n five 6))
save_state-WholeOrNone_example = save_state-WholeOrNone number five 6 no_rename
