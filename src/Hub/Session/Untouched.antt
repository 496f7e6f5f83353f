-- ===== src/Hub/Session/Untouched.antt =====
-- Handlers that leave the systems and the connections as they are.
use breakerbox.Prelude.{
  ℕ, String, List, [], ◌∷◌, Option, none, some, ◌≡◌, refl, ◌∙◌, str_eq, if_rule,
}
use breakerbox.Prelude.Dict
use breakerbox.Prelude.Dict.{get-put, get-put_self}
use breakerbox.Protocol.{AppDefinition, AppEvent, ApprovalEvent}
use breakerbox.Protocol.Validate.{Problem}
use breakerbox.Hub.State.{
  AppRecord, Command, CommandResult, Hub, HubEnv, HubFrame, Reply, save_app, save_command, write,
}
use breakerbox.Hub.Apps.{
  approve_found, event_found, is_registered, register_checked, send_app_sync, then_sync,
}
use breakerbox.Hub.Commands.{acked, resulted}

pub record Untouched (h : Hub) (r : Reply) : Type 0 where
  pub systems : r.0.systems ≡ h.systems
  pub conns : r.0.conns ≡ h.conns

pub Untouched-trans : {h : Hub} {r q : Reply} → Untouched h r → Untouched r.0 q → Untouched h q
Untouched-trans a b = record { systems = b.systems ∙ a.systems; conns = b.conns ∙ a.conns }

pub write-Untouched : (e : HubEnv) (h : Hub) (c : ℕ) (f : HubFrame) → Untouched h (write e h c f)
unfolding write
write-Untouched e h c f =
    if_rule (Untouched h) (e.write_ok c) {x = (record h { sent = (c, f) ∷ h.sent }, none)}
      (λ _. record { systems = refl; conns = refl }) (λ _. record { systems = refl; conns = refl })

pub save_app-Untouched :
    (e : HubEnv) (h : Hub) (id : String) (a : AppRecord) → Untouched h (save_app e h id a)
unfolding save_app
save_app-Untouched e h id a =
    if_rule (Untouched h) (e.app_saved a) {x = (record h { apps = Dict.put h.apps id a }, none)}
      (λ _. record { systems = refl; conns = refl }) (λ _. record { systems = refl; conns = refl })

pub save_command-Untouched :
    (e : HubEnv) (h : Hub) (id : String) (k : Command) → Untouched h (save_command e h id k)
unfolding save_command
save_command-Untouched e h id k =
    if_rule (Untouched h) (e.command_saved k)
      {x = (record h { commands = Dict.put h.commands id (record k { updated = e.now }) }, none)}
      (λ _. record { systems = refl; conns = refl }) (λ _. record { systems = refl; conns = refl })

pub sync-Untouched :
    (e : HubEnv) (h : Hub) (system : String) (c : ℕ) → Untouched h (send_app_sync e h system c)
unfolding send_app_sync
sync-Untouched e h system c = write-Untouched e h c _

pub event-Untouched :
    (e : HubEnv) (h : Hub) (ev : AppEvent) (a : Option AppRecord)
    → Untouched h (event_found e h ev a)
unfolding event_found
event-Untouched e h ev none = record { systems = refl; conns = refl }
event-Untouched e h ev (some a) = save_app-Untouched e h ev.app_id _

pub approval-Untouched :
    (e : HubEnv) (h : Hub) (ev : ApprovalEvent) (a : Option AppRecord)
    → Untouched h (approve_found e h ev a)
unfolding approve_found
approval-Untouched e h ev none = record { systems = refl; conns = refl }
approval-Untouched e h ev (some a) =
    if_rule (Untouched h) (str_eq a.definition_hash ev.definition_hash)
      {x = save_app e h ev.app_id (record a { approval = ev.approval })}
      (λ _. save_app-Untouched e h ev.app_id _) (λ _. record { systems = refl; conns = refl })

pub ack-Untouched :
    (e : HubEnv) (h : Hub) (id : String) (k : Option Command) → Untouched h (acked e h id k)
unfolding acked
ack-Untouched e h id none = record { systems = refl; conns = refl }
ack-Untouched e h id (some k) = save_command-Untouched e h id _

pub result-Untouched :
    (e : HubEnv) (h : Hub) (id : String) (res : CommandResult) (k : Option Command)
    → Untouched h (resulted e h id res k)
unfolding resulted
result-Untouched e h id res none = record { systems = refl; conns = refl }
result-Untouched e h id res (some k) = save_command-Untouched e h id _

pub then_sync-Untouched :
    (e : HubEnv) (h : Hub) (system : String) (c : ℕ) (r : Reply)
    → Untouched h r
    → Untouched h (then_sync e system c r)
unfolding then_sync
then_sync-Untouched e h system c (g, none) u = Untouched-trans u (sync-Untouched e g system c)
then_sync-Untouched e h system c (g, some why) u = u

pub register-Untouched :
    (hash : AppDefinition → String) (e : HubEnv) (h : Hub) (system : String) (c : ℕ)
    (def : AppDefinition) (problems : List Problem)
    → Untouched h (register_checked hash e h system c def problems)
unfolding register_checked
register-Untouched hash e h system c def (p ∷ ps) = record { systems = refl; conns = refl }
register-Untouched hash e h system c def [] =
    if_rule (Untouched h) (is_registered system (hash def) h.apps) {x = send_app_sync e h system c}
      (λ _. sync-Untouched e h system c)
      (λ _. then_sync-Untouched e h system c _ (save_app-Untouched e h e.new_id _))
