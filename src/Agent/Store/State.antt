-- ===== src/Agent/Store/State.antt =====
-- agent/internal/appconfig/store.go: Load and Save of the agent's state file.
pub mod Atomic
use breakerbox.Prelude.{
  ℕ, Bool, true, false, List, [], ◌∷◌, take, Option, none, some, ◌≡◌, if◌then◌else◌,
}

-- JSON's encoding of the state (with the map of apps made, if it was missing), and the state of a fresh
-- agent.
pub record StateCodec (S : Type 0) : Type 0 where
  pub encode : S → List ℕ
  pub decode : List ℕ → Option S
  pub empty : S
  pub decode_encode : (s : S) → decode (encode s) ≡ some s

-- state.json and state.json.tmp
pub record StateFiles : Type 0 where
  pub state : Option (List ℕ)
  pub tmp : Option (List ℕ)

pub data Loaded (S : Type 0) : Type 0 where
  loaded : S → Loaded S
  unreadable corrupt : Loaded S

unfoldable pub decoded : {S : Type 0} → Option S → Loaded S
decoded none = corrupt
decoded (some s) = loaded s

unfoldable pub load_bytes : {S : Type 0} → StateCodec S → Bool → Option (List ℕ) → Loaded S
unfolding decoded
load_bytes codec readable none = loaded codec.empty
load_bytes codec true (some bytes) = decoded (codec.decode bytes)
load_bytes codec false (some bytes) = unreadable

-- Load
unfoldable pub load_state : {S : Type 0} → StateCodec S → Bool → StateFiles → Loaded S
unfolding load_bytes
load_state codec readable files = load_bytes codec readable files.state

-- What os.MkdirAll, os.WriteFile (with what it wrote before it failed) and os.Rename answer.
pub record SaveAnswers : Type 0 where
  pub dir_made : Bool
  pub written : Bool
  pub part : List ℕ
  pub renamed : Bool

pub data SaveError : Type 0 where
  no_dir not_written not_renamed : SaveError

-- The calls that Save makes.
pub data SaveStep : Type 0 where
  make_dir rename_tmp : SaveStep
  write_tmp : List ℕ → SaveStep

unfoldable pub run_step : SaveAnswers → SaveStep → StateFiles → StateFiles × Option SaveError
run_step e make_dir files = (files, if e.dir_made then none else some no_dir)
run_step e (write_tmp bytes) files =
    if e.written
    then (record files { tmp = some bytes }, none)
    else (record files { tmp = some e.part }, some not_written)
run_step e rename_tmp files =
    if e.renamed
    then (record { state = files.tmp; tmp = none }, none)
    else (files, some not_renamed)

-- One call after the other, until one fails.
unfoldable pub then_steps :
    (StateFiles → StateFiles × Option SaveError)
    → StateFiles × Option SaveError
    → StateFiles × Option SaveError
then_steps next (files, none) = next files
then_steps next (files, some error) = (files, some error)

unfoldable pub run_steps : SaveAnswers → List SaveStep → StateFiles → StateFiles × Option SaveError
unfolding run_step then_steps
run_steps e [] files = (files, none)
run_steps e (step ∷ steps) files = then_steps (run_steps e steps) (run_step e step files)

unfoldable pub save_program : {S : Type 0} → StateCodec S → S → List SaveStep
save_program codec s = make_dir ∷ write_tmp (codec.encode s) ∷ rename_tmp ∷ []

-- Save
unfoldable pub save_state :
    {S : Type 0} → StateCodec S → SaveAnswers → StateFiles → S → StateFiles × Option SaveError
unfolding run_steps save_program
save_state codec e files s = run_steps e (save_program codec s) files

-- The files after a Save that is cut off when it has made `n` of its calls. One that is cut off
-- within the write leaves what a write that fails at the same byte does.
unfoldable pub cut_save :
    {S : Type 0} → StateCodec S → SaveAnswers → ℕ → StateFiles → S → StateFiles
unfolding run_steps save_program
cut_save codec e n files s = (run_steps e (take n (save_program codec s)) files).0
