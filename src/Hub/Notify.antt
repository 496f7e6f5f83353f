-- ===== src/Hub/Notify.antt =====
-- hub/internal/notify/notify.go: the alerts about apps, with their debounce. Times are milliseconds. A
-- send that fails is only logged, so an alert stands for the call.
pub mod Debounce
pub mod Offline
use breakerbox.Prelude.{
  ℕ, ◌+◌, ◌*◌, String, Bool, true, false, not, ◌&&◌, ◌||◌, List, [], ◌∷◌, Option, none, some, ltb,
  if◌then◌else◌, str_eq,
}
use breakerbox.Prelude.Dict
use breakerbox.Prelude.Dict.{Dict}
use breakerbox.Protocol.{AppStatus, status_eq}

-- appAlertDebounce
abbrev pub app_alert_debounce : ℕ
app_alert_debounce = 5 * 60_000

pub record AppAlert : Type 0 where
  pub app : String
  pub at : ℕ
  pub status : AppStatus

pub record Notifier : Type 0 where
  pub last_app_sent : Dict ℕ
  pub alerts : List AppAlert  -- newest first

-- The settings record, as far as the alerts need it.
pub record AlertSettings : Type 0 where
  pub ntfy_endpoint : String
  pub notify_app_errors : Bool
  pub notify_system_offline : Bool

-- enabled("notify_app_errors")
unfoldable pub alerts_enabled : Option AlertSettings → Bool
alerts_enabled none = false
alerts_enabled (some s) = not (str_eq s.ntfy_endpoint "") && s.notify_app_errors

unfoldable pub is_failure : AppStatus → Bool
unfolding status_eq
is_failure status = status_eq status AppStatus.errored || status_eq status AppStatus.backoff

-- `seen && time.Since(last) < appAlertDebounce`
unfoldable pub is_recent : ℕ → Option ℕ → Bool
is_recent now none = false
is_recent now (some last) = ltb now (last + app_alert_debounce)

unfoldable pub alert : Notifier → ℕ → String → AppStatus → Notifier
alert n now app status = record {
  last_app_sent = Dict.put n.last_app_sent app now;
  alerts = record { app = app; at = now; status = status } ∷ n.alerts;
}

-- onAppUpdate
unfoldable pub on_app_update : Notifier → ℕ → Option AlertSettings → String → AppStatus → Notifier
unfolding is_failure alerts_enabled is_recent alert status_eq
on_app_update n now settings app status =
    if is_failure status
    then (if alerts_enabled settings && not (is_recent now (Dict.get n.last_app_sent app))
        then alert n now app status
        else n)
    else if status_eq status AppStatus.running
    then record n { last_app_sent = Dict.remove n.last_app_sent app }
    else n
