-- ===== src/Hub/Notify/Offline/Answers.antt =====
-- Each message that a system is back answers one that it went offline.
use breakerbox.Prelude.{
  ℕ, String, true, false, List, [], ◌∷◌, Option, none, some, ◌≡◌, refl, sym, ap, ◌∙◌, arith,
  if_rule, if◌then◌else◌, str_eq, eq_iff,
}
use breakerbox.Prelude.Dict
use breakerbox.Prelude.Dict.{Dict, get-put, get-remove}
use breakerbox.Hub.State.{SystemStatus}
use breakerbox.Hub.Notify.{AlertSettings}
use breakerbox.Hub.Notify.Offline.{
  Notice, Watch, WatchEvent, expired, updated, is_set, came_online, arm, on_system_update,
  grace_over, confirm, confirmed, on_watch_event, watch_all, offline_enabled,
}

-- The newest message about the system.
unfoldable pub latest_notice : String → List (String × Notice) → Option Notice
latest_notice id [] = none
latest_notice id ((i, k) ∷ rest) =
    let older = latest_notice id rest in if str_eq i id then some k else older

-- The newest message before each `back_online` about the system is a `went_offline`.
abbrev pub Answers : String → List (String × Notice) → Type 0
Answers id [] = Unit
Answers id ((i, Notice.went_offline) ∷ rest) = Answers id rest
Answers id ((i, Notice.back_online) ∷ rest) =
    (str_eq i id ≡ true → latest_notice id rest ≡ some Notice.went_offline) × Answers id rest

record Told (id : String) (w : Watch) : Type 0 where
  pub told :
      is_set (Dict.get w.notified id) ≡ true → latest_notice id w.notices ≡ some Notice.went_offline
  pub answers : Answers id w.notices

came_online-Told : (id : String) (w : Watch) (i : String) → Told id w → Told id (came_online w i)
unfolding came_online latest_notice is_set
came_online-Told id w i t =
    if_rule (Told id) (is_set (Dict.get w.notified i))
      {x = record {
        offline_at = Dict.remove w.offline_at i;
        notified = Dict.remove w.notified i;
        notices = (i, Notice.back_online) ∷ w.notices;
      }}
      (λ seen. record {
        told = λ h. ground (arith, h, get-remove w.notified i id, eq_iff i id, t.told);
        answers = (
          λ same.
              t.told (ap (λ k. is_set (Dict.get w.notified k)) (sym ((eq_iff i id).0 same)) ∙ seen),
          t.answers,
        );
      })
      (λ _. record { told = t.told; answers = t.answers })

arm-Told :
    (id : String) (w : Watch) (now : ℕ) (settings : Option AlertSettings) (i : String)
    (timer : Option ℕ)
    → Told id w
    → Told id (arm w now settings i timer)
unfolding arm
arm-Told id w now settings i (some due) t = t
arm-Told id w now settings i none t =
    if_rule (Told id) (offline_enabled settings)
      (λ _. record { told = t.told; answers = t.answers }) (λ _. t)

confirm-Told :
    (id : String) (w : Watch) (i : String) (status : Option SystemStatus)
    → Told id w
    → Told id (confirm w i status)
unfolding confirm latest_notice is_set
confirm-Told id w i (some SystemStatus.offline) t = record {
  told = λ h. ground (arith, h, get-put w.notified i id true, eq_iff i id, t.told);
  answers = t.answers;
}
confirm-Told id w i (some SystemStatus.online) t = t
confirm-Told id w i (some SystemStatus.paused) t = t
confirm-Told id w i none t = t

on_watch_event-Told :
    (id : String) (w : Watch) (e : WatchEvent) → Told id w → Told id (on_watch_event w e)
unfolding on_watch_event on_system_update grace_over
on_watch_event-Told id w (updated now settings i SystemStatus.online) t = came_online-Told id w i t
on_watch_event-Told id w (updated now settings i SystemStatus.offline) t =
    arm-Told id w now settings i (Dict.get w.offline_at i) t
on_watch_event-Told id w (updated now settings i SystemStatus.paused) t = t
on_watch_event-Told id w (expired i) t = record { told = t.told; answers = t.answers }
on_watch_event-Told id w (confirmed i status) t = confirm-Told id w i status t

watch_all-Told :
    (events : List WatchEvent) (id : String) (w : Watch) → Told id w → Told id (watch_all w events)
unfolding watch_all
watch_all-Told [] id w t = t
watch_all-Told (e ∷ rest) id w t =
    watch_all-Told rest id (on_watch_event w e) (on_watch_event-Told id w e t)

nothing_told : (id : String) → is_set (Dict.get [] id) ≡ false
unfolding is_set Dict.get
nothing_told id = refl

-- From a fresh notifier, whatever updates and timers it sees, the newest message before each
-- "is back online" about a system is one that it went offline.
pub watch_all-Answers :
    (events : List WatchEvent) (id : String)
    → Answers id
        (watch_all (record { offline_at = []; notified = []; notices = [] }) events).notices
watch_all-Answers events id =
    (watch_all-Told events id (record { offline_at = []; notified = []; notices = [] })
      (record { told = λ h. ground (arith, h, nothing_told id); answers = tt })).answers
