-- ===== src/Agent/LogStream/Registry/Contexts.antt =====
-- Goroutines with their contexts and the map of streams.
use breakerbox.Prelude.{
  ℕ, String, true, false, List, [], ◌∷◌, ◌++◌, some, ◌≡◌, ◌⊎◌, inl, inr, subst, arith, ◌==◌, str_eq,
  eq_iff, Bool-cases, All, if_rule,
}
use breakerbox.Prelude.Dict
use breakerbox.Prelude.Dict.{Dict, get-put, get-put_self, get-remove}
use breakerbox.Agent.LogStream.Registry.{contexts, is_cancelled, leave, stream_of}

-- The goroutine's context is cancelled, or the map has it under its stream.
abbrev pub Live : Dict ℕ → List ℕ → ℕ × String → Type 0
Live streams cancelled g = (is_cancelled cancelled g.0 ≡ true) ⊎ (Dict.get streams g.1 ≡ some g.0)

abbrev pub Other : String → ℕ × String → Type 0
Other stream_id g = str_eq g.1 stream_id ≡ false

-- No two goroutines serve the same stream.
abbrev pub Apart : List (ℕ × String) → Type 0
Apart [] = Unit
Apart (g ∷ running) = All (Other g.1) running × Apart running

pub cancelled-more :
    (c d : ℕ) (cs : List ℕ) → is_cancelled cs d ≡ true → is_cancelled (c ∷ cs) d ≡ true
unfolding is_cancelled
cancelled-more c d cs h = ground arith

cancelled_self : (c : ℕ) (cs : List ℕ) → is_cancelled (c ∷ cs) c ≡ true
unfolding is_cancelled
cancelled_self c cs = ground arith

pub cancelled-append :
    (ds cs : List ℕ) (d : ℕ) → is_cancelled cs d ≡ true → is_cancelled (ds ++ cs) d ≡ true
unfolding is_cancelled
cancelled-append [] cs d h = h
cancelled-append (c ∷ ds) cs d h = ground (arith, cancelled-append ds cs d h)

pub contexts-cancelled :
    (streams : Dict ℕ) (cs : List ℕ) (id : String) (c : ℕ)
    → Dict.get streams id ≡ some c
    → is_cancelled (contexts streams ++ cs) c ≡ true
unfolding is_cancelled contexts Dict.get
contexts-cancelled [] cs id c h = cc
contexts-cancelled ((j, d) ∷ streams) cs id c h = elim (Bool-cases (str_eq j id)) [
  | inl hit ↦ let same : d ≡ c = ground arith in ground arith
  | inr miss ↦ ground (arith, contexts-cancelled streams cs id c (ground arith))
]

stream_of-All :
    (P : ℕ × String → Type 0) (c : ℕ) (running : List (ℕ × String)) (id : String)
    → stream_of c running ≡ some id
    → All P running
    → P (c, id)
unfolding stream_of
stream_of-All P c [] id e h = cc
stream_of-All P c ((d, j) ∷ running) id e h = elim (Bool-cases (d == c)) [
  | inl hit ↦
      let same : d ≡ c = ground arith in
      let stream : j ≡ id = ground arith in
      subst (λ i. P (c, i)) stream (subst (λ k. P (k, j)) same h.0)
  | inr miss ↦ stream_of-All P c running id (ground arith) h.1
]

pub leave-All :
    (P : ℕ × String → Type 0) (c : ℕ) (running : List (ℕ × String))
    → All P running
    → All P (leave c running)
unfolding leave
leave-All P c [] h = h
leave-All P c ((d, j) ∷ running) h =
    if_rule (All P) (d == c) {x = running} (λ hit. h.1) (λ miss. (h.0, leave-All P c running h.1))

pub leave-Apart : (c : ℕ) (running : List (ℕ × String)) → Apart running → Apart (leave c running)
unfolding leave
leave-Apart c [] h = h
leave-Apart c ((d, j) ∷ running) h =
    if_rule Apart (d == c) {x = running} (λ hit. h.1)
      (λ miss. (leave-All (Other j) c running h.0, leave-Apart c running h.1))

-- The goroutines that are left serve other streams than the one that ended.
pub leave-Other :
    (c : ℕ) (running : List (ℕ × String)) (id : String)
    → stream_of c running ≡ some id
    → Apart running
    → All (Other id) (leave c running)
unfolding stream_of leave
leave-Other c [] id e h = tt
leave-Other c ((d, j) ∷ running) id e h = elim (Bool-cases (d == c)) [
  | inl hit ↦
      let stream : j ≡ id = ground arith in rw hit (subst (λ i. All (Other i) running) stream h.0)
  | inr miss ↦
      let later : stream_of c running ≡ some id = ground arith in
      let other : str_eq id j ≡ false = stream_of-All (Other j) c running id later h.0 in
      rw miss (ground (arith, eq_iff j id, eq_iff id j), leave-Other c running id later h.1)
]
