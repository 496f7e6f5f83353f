-- ===== src/Hub/Notify/Offline.antt =====
-- hub/internal/notify/notify.go: the alerts about systems that go offline and come back. Times are
-- milliseconds; a notice stands for the call of send.
pub mod Answers
use breakerbox.Prelude.{
  ℕ, ◌+◌, ◌*◌, String, Bool, true, false, List, [], ◌∷◌, Option, none, some, not, ◌&&◌, str_eq,
  if◌then◌else◌,
}
use breakerbox.Prelude.Dict
use breakerbox.Prelude.Dict.{Dict}
use breakerbox.Hub.State.{SystemStatus}
use breakerbox.Hub.Notify.{AlertSettings}

-- offlineGrace
abbrev pub offline_grace : ℕ
offline_grace = 2 * 60_000

-- Which of the two messages is sent.
pub data Notice : Type 0 where
  went_offline back_online : Notice

pub record Watch : Type 0 where
  pub offline_at : Dict ℕ  -- the pending grace timers, with the time they are due
  pub notified : Dict Bool
  pub notices : List (String × Notice)  -- newest first

-- `n.notified[id]`
unfoldable pub is_set : Option Bool → Bool
is_set none = false
is_set (some b) = b

-- enabled("notify_system_offline")
unfoldable pub offline_enabled : Option AlertSettings → Bool
offline_enabled none = false
offline_enabled (some s) = not (str_eq s.ntfy_endpoint "") && s.notify_system_offline

-- case "online"
unfoldable pub came_online : Watch → String → Watch
unfolding is_set
came_online w id =
    if is_set (Dict.get w.notified id)
    then record {
      offline_at = Dict.remove w.offline_at id;
      notified = Dict.remove w.notified id;
      notices = (id, Notice.back_online) ∷ w.notices;
    }
    else record w { offline_at = Dict.remove w.offline_at id }

-- case "offline"
unfoldable pub arm : Watch → ℕ → Option AlertSettings → String → Option ℕ → Watch
unfolding offline_enabled
arm w now settings id (some due) = w
arm w now settings id none =
    if offline_enabled settings
    then record w { offline_at = Dict.put w.offline_at id (now + offline_grace) }
    else w

-- onSystemUpdate
unfoldable pub on_system_update : Watch → ℕ → Option AlertSettings → String → SystemStatus → Watch
unfolding came_online arm
on_system_update w now settings id SystemStatus.online = came_online w id
on_system_update w now settings id SystemStatus.offline =
    arm w now settings id (Dict.get w.offline_at id)
on_system_update w now settings id SystemStatus.paused = w

-- The grace timer's function, first part
unfoldable pub grace_over : Watch → String → Watch
grace_over w id = record w { offline_at = Dict.remove w.offline_at id }

-- The grace timer's function after it read the record: `none` if it cannot be read. The notice is sent
-- after the lock that `notified` is set under; here the two are one.
unfoldable pub confirm : Watch → String → Option SystemStatus → Watch
confirm w id (some SystemStatus.offline) = record w {
  notified = Dict.put w.notified id true;
  notices = (id, Notice.went_offline) ∷ w.notices;
}
confirm w id (some SystemStatus.online) = w
confirm w id (some SystemStatus.paused) = w
confirm w id none = w

-- What reaches the notifier. The two parts of a timer's function hold the lock separately, and it may
-- run even after Stop, so no condition ties them to a pending timer or to each other, and the status
-- that was read may be an old one.
pub data WatchEvent : Type 0 where
  updated : ℕ → Option AlertSettings → String → SystemStatus → WatchEvent
  expired : String → WatchEvent
  confirmed : String → Option SystemStatus → WatchEvent

unfoldable pub on_watch_event : Watch → WatchEvent → Watch
unfolding on_system_update grace_over confirm
on_watch_event w (updated now settings id status) = on_system_update w now settings id status
on_watch_event w (expired id) = grace_over w id
on_watch_event w (confirmed id status) = confirm w id status

unfoldable pub watch_all : Watch → List WatchEvent → Watch
unfolding on_watch_event
watch_all w [] = w
watch_all w (e ∷ rest) = watch_all (on_watch_event w e) rest
