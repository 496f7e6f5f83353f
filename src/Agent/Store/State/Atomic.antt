-- ===== src/Agent/Store/State/Atomic.antt =====
-- A save of the agent's state happens whole or not at all.
use breakerbox.Prelude.{
  ℕ, zero, suc, ◌≤◌, Bool, true, none, Option, some, ◌≡◌, refl, subst, sym, Bool-cases, inl, inr,
  ◌⊎◌, arith,
}
use breakerbox.Agent.Store.State.{
  SaveAnswers, SaveError, StateCodec, StateFiles, cut_save, load_state, loaded, save_state,
  run_steps, save_program,
}

module _ {S : Type 0} (codec : StateCodec S) (files : StateFiles) (s : S) where
  abbrev LoadsOld : StateFiles → Type 0
  LoadsOld after =
      (readable : Bool) → load_state codec readable after ≡ load_state codec readable files

  -- A save was successful, or its error was returned and nothing changed for Load.
  abbrev pub WholeOrNone : StateFiles × Option SaveError → Type 0
  WholeOrNone (after, none) = load_state codec true after ≡ loaded s
  WholeOrNone (after, some error) = LoadsOld after

  -- After `n` calls Load reads the old state, or all three were made and it reads the new one.
  abbrev pub OldOrNew : ℕ → StateFiles → Type 0
  OldOrNew n after = LoadsOld after ⊎ ((3 ≤ n) × (load_state codec true after ≡ loaded s))

  saved-WholeOrNone : (e : SaveAnswers) → WholeOrNone (save_state codec e files s)
  unfolding save_state load_state run_steps save_program
  saved-WholeOrNone e = elim (Bool-cases e.dir_made) [
    | inr fails ↦ rw fails (λ readable. refl)
    | inl made ↦ rw made (elim (Bool-cases e.written) [
      | inr fails ↦ rw fails (λ readable. refl)
      | inl written ↦ rw written (elim (Bool-cases e.renamed) [
        | inr fails ↦ rw fails (λ readable. refl)
        | inl renamed ↦ rw (renamed, codec.decode_encode) refl
      ])
    ])
  ]

  -- A save that returns no error has made all its calls.
  whole-OldOrNew :
      (n : ℕ) (r : StateFiles × Option SaveError) → 3 ≤ n → WholeOrNone r → OldOrNew n r.0
  whole-OldOrNew n (after, none) made h = inr (made, h)
  whole-OldOrNew n (after, some error) made h = inl h

  uncut :
      (e : SaveAnswers) (n : ℕ)
      → cut_save codec e (suc (suc (suc n))) files s ≡ (save_state codec e files s).0
  unfolding cut_save save_state save_program
  uncut e zero = refl
  uncut e (suc n) = refl

  cut-OldOrNew : (e : SaveAnswers) (n : ℕ) → OldOrNew n (cut_save codec e n files s)
  unfolding cut_save load_state run_steps save_program save_state
  cut-OldOrNew e zero = inl (λ readable. refl)
  cut-OldOrNew e (suc zero) = elim (Bool-cases e.dir_made) [
    | inr fails ↦ rw fails (inl (λ readable. refl))
    | inl made ↦ rw made (inl (λ readable. refl))
  ]
  cut-OldOrNew e (suc (suc zero)) = elim (Bool-cases e.dir_made) [
    | inr fails ↦ rw fails (inl (λ readable. refl))
    | inl made ↦ rw made (elim (Bool-cases e.written) [
      | inr fails ↦ rw fails (inl (λ readable. refl))
      | inl written ↦ rw written (inl (λ readable. refl))
    ])
  ]
  cut-OldOrNew e (suc (suc (suc n))) = subst (OldOrNew (suc (suc (suc n)))) (sym (uncut e n)) (
      whole-OldOrNew (suc (suc (suc n))) (save_state codec e files s) (omega arith)
        (saved-WholeOrNone e))

  -- Load reads the new state after a save that succeeds, and what it read before after one that
  -- returns an error. One that is cut off after `n` of its three calls, or within the write, leaves
  -- the state that Load read before, or, if the rename was made, the new one.
  pub save_state-WholeOrNone :
      (e : SaveAnswers)
      → WholeOrNone (save_state codec e files s)
        × ((cut : SaveAnswers) (n : ℕ) → OldOrNew n (cut_save codec cut n files s))
  save_state-WholeOrNone e = (saved-WholeOrNone e, cut-OldOrNew)
