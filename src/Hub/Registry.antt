-- ===== src/Hub/Registry.antt =====
-- hub/internal/agenthub: the registry of registry.go, and what serveWS of hub.go does when a
-- connection begins and ends. A connection is a number.
pub mod Presence
use breakerbox.Prelude.{
  ℕ, String, Bool, true, false, List, [], ◌∷◌, ◌++◌, Option, none, some, ◌==◌, if◌then◌else◌,
  str_eq,
}
use breakerbox.Prelude.Dict
use breakerbox.Prelude.Dict.{Dict}
use breakerbox.Protocol.{Cmd}
use breakerbox.Hub.State.{
  Hub, HubEnv, HubFrame, HubError, Reply, System, SystemStatus, cmd, not_connected, save_system,
  write,
}

-- `if old != nil { old.cancel(); … }`
unfoldable pub supersede : Option ℕ → List ℕ → List ℕ
supersede none closed = closed
supersede (some old) closed = old ∷ closed

unfoldable pub add : Hub → String → ℕ → Hub
unfolding supersede
add h system_id c = record h {
  conns = Dict.put h.conns system_id c;
  closed = supersede (Dict.get h.conns system_id) h.closed;
}

-- `r.conns[c.systemID] == c`
unfoldable pub is_current : Option ℕ → ℕ → Bool
is_current none c = false
is_current (some d) c = d == c

unfoldable pub remove : Hub → String → ℕ → Hub × Bool
unfolding is_current
remove h system_id c =
    if is_current (Dict.get h.conns system_id) c
    then (record h { conns = Dict.remove h.conns system_id }, true)
    else (h, false)

-- setSystemStatus
unfoldable pub set_found_status : HubEnv → Hub → String → SystemStatus → Option System → Hub
unfolding save_system
set_found_status e h id status none = h
set_found_status e h id status (some s) =
    (save_system e h id (record s { status = status; last_seen = e.now })).0

unfoldable pub set_system_status : HubEnv → Hub → String → SystemStatus → Hub
unfolding set_found_status
set_system_status e h id status = set_found_status e h id status (Dict.get h.systems id)

-- The hub, and for each system the statuses that its handlers still have to write: a handler changes
-- the registry first, and then calls setSystemStatus, with no lock around the two. Oldest first.
pub record WsState : Type 0 where
  pub hub : Hub
  pub due : String → List SystemStatus

pub data WsStep : Type 0 where
  adds removes : String → ℕ → WsStep
  writes : HubEnv → String → WsStep

abbrev pub set_due :
    String → List SystemStatus → (String → List SystemStatus) → String → List SystemStatus
set_due id statuses due j = if str_eq id j then statuses else due j

unfoldable pub removed : WsState → String → Hub × Bool → WsState
removed w system_id (h, false) = w
removed w system_id (h, true) = record {
  hub = h;
  due = set_due system_id (w.due system_id ++ (SystemStatus.offline ∷ [])) w.due;
}

unfoldable pub written : HubEnv → WsState → String → List SystemStatus → WsState
unfolding set_system_status
written e w system_id [] = w
written e w system_id (status ∷ later) = record {
  hub = set_system_status e w.hub system_id status;
  due = set_due system_id later w.due;
}

-- The steps of serveWS once the signature is verified: h.reg.add, the h.reg.remove of its deferred
-- function, and a call of setSystemStatus, which follows the first, and the second if it removed.
unfoldable pub ws_step : WsState → WsStep → WsState
unfolding add remove removed written
ws_step w (adds system_id c) = record {
  hub = add w.hub system_id c;
  due = set_due system_id (w.due system_id ++ (SystemStatus.online ∷ [])) w.due;
}
ws_step w (removes system_id c) = removed w system_id (remove w.hub system_id c)
ws_step w (writes e system_id) = written e w system_id (w.due system_id)

-- Dispatch
unfoldable pub dispatch_to : HubEnv → Hub → Cmd → Option ℕ → Reply
unfolding write
dispatch_to e h c none = (h, some not_connected)
dispatch_to e h c (some conn) = write e h conn (cmd c)

unfoldable pub dispatch : HubEnv → Hub → String → Cmd → Reply
unfolding dispatch_to
dispatch e h system_id c = dispatch_to e h c (Dict.get h.conns system_id)
