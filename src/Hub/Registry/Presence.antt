-- ===== src/Hub/Registry/Presence.antt =====
-- The status of a system follows its connections, in registry.go and hub.go.
use breakerbox.Prelude.{
  ℕ, String, true, false, List, [], ◌∷◌, ◌++◌, Option, none, some, ◌≡◌, ◌⊎◌, refl, arith, inl, inr,
  Bool-cases, eq_iff, str_eq, All, Any, subst, ap, ◌∙◌, sym,
}
use breakerbox.Prelude.Dict
use breakerbox.Prelude.Dict.{Dict, get-put, get-put_self, get-remove, get-remove_self}
use breakerbox.Hub.State.{Hub, HubEnv, System, SystemStatus, save_system}
use breakerbox.Hub.Registry.{
  WsState, WsStep, add, adds, is_current, remove, removed, removes, set_found_status,
  set_system_status, writes, written, ws_step,
}

-- Online with a connection, or offline without one.
abbrev IsPresence : SystemStatus → Option ℕ → Type 0
IsPresence SystemStatus.online (some c) = Unit
IsPresence SystemStatus.offline none = Unit
IsPresence _ _ = ⊥

-- The record of the system, if there is one, tells whether it has a connection.
abbrev pub Matches : String → Hub → Type 0
Matches id h =
    (s : System) → Dict.get h.systems id ≡ some s → IsPresence s.status (Dict.get h.conns id)

abbrev latest : List SystemStatus → Option SystemStatus
latest [] = none
latest (status ∷ []) = some status
latest (status ∷ next ∷ rest) = latest (next ∷ rest)

latest-append :
    (due : List SystemStatus) (status : SystemStatus) → latest (due ++ (status ∷ [])) ≡ some status
latest-append [] status = refl
latest-append (x ∷ []) status = refl
latest-append (x ∷ y ∷ rest) status = latest-append (y ∷ rest) status

latest-some :
    (status : SystemStatus) (rest : List SystemStatus)
    → (last : SystemStatus) × (latest (status ∷ rest) ≡ some last)
latest-some status [] = (status, refl)
latest-some status (next ∷ rest) = latest-some next rest

abbrev with_status : HubEnv → SystemStatus → System → System
with_status e status s = record s { status = status; last_seen = e.now }

stored :
    (e : HubEnv) (h : Hub) (id : String) (status : SystemStatus) (s : System)
    → ((x : System) → e.system_saved x ≡ true)
    → set_found_status e h id status (some s)
      ≡ record h { systems = Dict.put h.systems id (with_status e status s) }
unfolding set_found_status save_system
stored e h id status s saves = ground (arith, saves (with_status e status s))

set_status-conns :
    (e : HubEnv) (h : Hub) (id : String) (status : SystemStatus) (o : Option System)
    → (set_found_status e h id status o).conns ≡ h.conns
unfolding set_found_status save_system
set_status-conns e h id status none = refl
set_status-conns e h id status (some s) = ground arith

set_status-others :
    (e : HubEnv) (h : Hub) (id j : String) (status : SystemStatus) (o : Option System)
    → str_eq id j ≡ false
    → Dict.get (set_found_status e h id status o).systems j ≡ Dict.get h.systems j
unfolding set_found_status save_system
set_status-others e h id j status none other = refl
set_status-others e h id j status (some s) other =
    ground (arith, get-put h.systems id j (record s { status = status; last_seen = e.now }))

add-others :
    (h : Hub) (j : String) (c : ℕ) (id : String)
    → str_eq j id ≡ false
    → Dict.get (add h j c).conns id ≡ Dict.get h.conns id
unfolding add
add-others h j c id other = ground (arith, get-put h.conns j id c)

add-systems :
    (h : Hub) (j : String) (c : ℕ) (id : String)
    → Dict.get (add h j c).systems id ≡ Dict.get h.systems id
unfolding add
add-systems h j c id = refl

-- a hub whose handlers have nothing left to write
abbrev pub begun : Hub → WsState
begun h = record { hub = h; due = λ id. [] }

unfoldable pub run_ws : WsState → List WsStep → WsState
run_ws w [] = w
run_ws w (step ∷ steps) = run_ws (ws_step w step) steps

module _ (id : String) where
  -- What the writes that are still due come to.
  abbrev Owed : Option SystemStatus → Hub → Type 0
  Owed none h = Matches id h
  Owed (some status) h = IsPresence status (Dict.get h.conns id)

  abbrev Promised : WsState → Type 0
  Promised w = Owed (latest (w.due id)) w.hub

  -- Only the registry and the record of the system matter.
  same-Owed :
      (o : Option SystemStatus) (h h' : Hub)
      → Dict.get h'.conns id ≡ Dict.get h.conns id
      → Dict.get h'.systems id ≡ Dict.get h.systems id
      → Owed o h
      → Owed o h'
  same-Owed none h h' c s m = λ x there. rw c (m x (sym s ∙ there))
  same-Owed (some status) h h' c s m = rw c m

  set_status-Matches :
      (e : HubEnv) (h : Hub) (status : SystemStatus) (o : Option System)
      → ((x : System) → e.system_saved x ≡ true)
      → Dict.get h.systems id ≡ o
      → IsPresence status (Dict.get h.conns id)
      → Matches id (set_found_status e h id status o)
  unfolding set_found_status save_system
  set_status-Matches e h status none saves q here = λ s there. absurd (ground arith)
  set_status-Matches e h status (some x) saves q here =
      let y = with_status e status x in
      subst (Matches id) (sym (stored e h id status x saves)) (λ s there.
        let found : y ≡ s = ground (arith, get-put_self h.systems id y) in
        subst (λ (z : System). IsPresence z.status (Dict.get h.conns id)) found here)

  -- A beginning is owed a write, whatever was before.
  adds-Promised : (w : WsState) (c : ℕ) → Promised (ws_step w (adds id c))
  unfolding ws_step add
  adds-Promised w c =
      rw ((eq_iff id id).1 refl, latest-append (w.due id) SystemStatus.online)
        (subst (IsPresence SystemStatus.online) (sym (get-put_self w.hub.conns id c)) tt)

  removes-Promised :
      (w : WsState) (j : String) (c : ℕ) → Promised w → Promised (ws_step w (removes j c))
  unfolding ws_step remove removed
  removes-Promised w j c m = elim (Bool-cases (is_current (Dict.get w.hub.conns j) c)) [
    | inr old ↦ rw old m
    | inl current ↦ rw current (elim (Bool-cases (str_eq j id)) [
      | inl same ↦
          rw (same, latest-append (w.due j) SystemStatus.offline)
            (subst (λ k. IsPresence SystemStatus.offline (Dict.get (Dict.remove w.hub.conns k) id))
              (sym ((eq_iff j id).0 same))
              (subst (IsPresence SystemStatus.offline) (sym (get-remove_self w.hub.conns id)) tt))
      | inr other ↦ rw other (
          same-Owed (latest (w.due id)) w.hub (record w.hub { conns = Dict.remove w.hub.conns j })
            (ground (arith, get-remove w.hub.conns j id)) refl m)
    ])
  ]

  -- One that the record of the system can be stored in.
  abbrev pub Saves : WsStep → Type 0
  Saves (writes e j) = (x : System) → e.system_saved x ≡ true
  Saves _ = Unit

  abbrev pub Adds : WsStep → Type 0
  Adds (adds j c) = j ≡ id
  Adds _ = ⊥

  written-Promised :
      (e : HubEnv) (w : WsState) (due : List SystemStatus)
      → ((x : System) → e.system_saved x ≡ true)
      → Owed (latest due) w.hub
      → w.due id ≡ due
      → Promised (written e w id due)
  unfolding written set_system_status
  written-Promised e w [] saves m q = rw q m
  written-Promised e w (status ∷ []) saves m q =
      rw ((eq_iff id id).1 refl)
        (set_status-Matches e w.hub status (Dict.get w.hub.systems id) saves refl m)
  written-Promised e w (status ∷ next ∷ rest) saves m q =
      let (last, is_last) = latest-some next rest in
      let kept = set_status-conns e w.hub id status (Dict.get w.hub.systems id) in
      let before : IsPresence last (Dict.get w.hub.conns id) =
        subst (λ o. Owed o w.hub) is_last m in
      rw ((eq_iff id id).1 refl, is_last) (rw kept before)

  written-others :
      (e : HubEnv) (w : WsState) (j : String) (due : List SystemStatus)
      → str_eq j id ≡ false
      → Promised w
      → Promised (written e w j due)
  unfolding written set_system_status
  written-others e w j [] other m = m
  written-others e w j (status ∷ later) other m = rw other (
      same-Owed (latest (w.due id)) w.hub
        (set_found_status e w.hub j status (Dict.get w.hub.systems j))
        (ap (λ conns. Dict.get conns id)
          (set_status-conns e w.hub j status (Dict.get w.hub.systems j)))
        (set_status-others e w.hub j id status (Dict.get w.hub.systems j) other) m)

  step-Promised :
      (w : WsState) (step : WsStep)
      → Saves step
      → Promised w ⊎ Adds step
      → Promised (ws_step w step)
  unfolding ws_step
  step-Promised w (adds j c) saves m = elim (Bool-cases (str_eq j id)) [
    | inl same ↦
        subst (λ k. Promised (ws_step w (adds k c))) (sym ((eq_iff j id).0 same))
          (adds-Promised w c)
    | inr other ↦ elim m [
      | inr here ↦ absurd (ground (arith, (eq_iff j id).1 here, other))
      | inl m ↦ rw other (
          same-Owed (latest (w.due id)) w.hub (add w.hub j c) (add-others w.hub j c id other)
            (add-systems w.hub j c id) m)
    ]
  ]
  step-Promised w (removes j c) saves (inl m) = removes-Promised w j c m
  step-Promised w (removes j c) saves (inr h) = absurd h
  step-Promised w (writes e j) saves (inr h) = absurd h
  step-Promised w (writes e j) saves (inl m) = elim (Bool-cases (str_eq j id)) [
    | inl same ↦
        subst (λ k. Promised (written e w k (w.due k))) (sym ((eq_iff j id).0 same))
          (written-Promised e w (w.due id) saves m refl)
    | inr other ↦ written-others e w j (w.due j) other m
  ]

  run-Promised :
      (w : WsState) (steps : List WsStep)
      → All Saves steps
      → Promised w ⊎ Any Adds steps
      → Promised (run_ws w steps)
  unfolding run_ws
  run-Promised w [] saves (inl m) = m
  run-Promised w [] saves (inr h) = absurd h
  run-Promised w (step ∷ steps) saves (inl m) =
      run-Promised (ws_step w step) steps saves.1 (inl (step-Promised w step saves.0 (inl m)))
  run-Promised w (step ∷ steps) saves (inr (inl now)) =
      run-Promised (ws_step w step) steps saves.1 (inl (step-Promised w step saves.0 (inr now)))
  run-Promised w (step ∷ steps) saves (inr (inr later)) =
      run-Promised (ws_step w step) steps saves.1 (inr later)

  -- Connections of any systems begin and end in any order, and the statuses are written any time
  -- later, those of one system in the order of the changes of the registry that they follow. If the
  -- records can be stored, and the record of a system told at the start whether it has a connection,
  -- or a connection of it began since, then, whenever no write of its status is due, its record
  -- is online exactly while the registry has a connection of it.
  pub run_ws-Matches :
      (h : Hub) (steps : List WsStep)
      → All Saves steps
      → Matches id h ⊎ Any Adds steps
      → (run_ws (begun h) steps).due id ≡ []
      → Matches id (run_ws (begun h) steps).hub
  run_ws-Matches h steps saves start settled =
      subst (λ due. Owed (latest due) (run_ws (begun h) steps).hub) settled
        (run-Promised (begun h) steps saves start)
