-- ===== src/Hub/Notify/Debounce.antt =====
-- Alerts about one app keep their distance.
use breakerbox.Prelude.{
  ℕ, ◌+◌, ◌≤◌, ◌⊎◌, inl, inr, Bool-cases, String, true, false, not, ◌&&◌, List, [], ◌∷◌, Option,
  none, some, ◌≡◌, refl, sym, ap, ◌∙◌, arith, if_rule, if◌then◌else◌, str_eq, eq_iff, All, length,
}
use breakerbox.Prelude.Dict
use breakerbox.Prelude.Dict.{Dict, get-put, get-remove, get-remove_self}
use breakerbox.Protocol.{AppStatus, status_eq}
use breakerbox.Hub.Notify.{
  AlertSettings, AppAlert, Notifier, alert, alerts_enabled, is_failure, is_recent, on_app_update,
}

-- The time of the newest alert about the app.
pub latest : String → List AppAlert → Option ℕ
latest app [] = none
latest app (a ∷ rest) = let older = latest app rest in if str_eq a.app app then some a.at else older

-- At least five minutes, of 60,000 milliseconds, after a time, if there is one.
abbrev pub FiveMinutesAfter : Option ℕ → ℕ → Type 0
FiveMinutesAfter none now = Unit
FiveMinutesAfter (some last) now = last + 300_000 ≤ now

-- Each alert about the app is at least five minutes after the one before.
abbrev pub Spaced : String → List AppAlert → Type 0
Spaced app [] = Unit
Spaced app (a ∷ rest) =
    ((str_eq a.app app ≡ false) ⊎ FiveMinutesAfter (latest app rest) a.at) × Spaced app rest

due-FiveMinutesAfter :
    (last : Option ℕ) (now : ℕ) → is_recent now last ≡ false → FiveMinutesAfter last now
unfolding is_recent
due-FiveMinutesAfter none now due = tt
due-FiveMinutesAfter (some last) now due = ground arith

none_yet : (app : String) → Dict.get [] app ≡ latest app []
unfolding Dict.get latest
none_yet app = refl

record Linked (app : String) (n : Notifier) : Type 0 where
  pub link : Dict.get n.last_app_sent app ≡ latest app n.alerts
  pub spaced : Spaced app n.alerts

alert-Linked :
    (app : String) (n : Notifier) (now : ℕ) (id : String) (status : AppStatus)
    → is_recent now (Dict.get n.last_app_sent id) ≡ false
    → Linked app n
    → Linked app (alert n now id status)
unfolding alert latest
alert-Linked app n now id status due s = record {
  link = ground (arith, get-put n.last_app_sent id app now, s.link);
  spaced = (
    elim (Bool-cases (str_eq id app)) [
      | inr other ↦ inl other
      | inl same ↦
          let e = (eq_iff id app).0 same in
          inr (
            due-FiveMinutesAfter (latest app n.alerts) now
              (ap (is_recent now) (sym s.link ∙ ap (Dict.get n.last_app_sent) (sym e)) ∙ due))
    ],
    s.spaced,
  );
}

-- A status of another app, or one of this app that is not `running`.
abbrev pub NotRestored : String → String × AppStatus → Type 0
NotRestored app (id, status) = (str_eq id app && status_eq status AppStatus.running) ≡ false

update-Linked :
    (app : String) (n : Notifier) (now : ℕ) (settings : Option AlertSettings) (id : String)
    (status : AppStatus)
    → NotRestored app (id, status)
    → Linked app n
    → Linked app (on_app_update n now settings id status)
unfolding on_app_update
update-Linked app n now settings id status kept s =
    if_rule (Linked app) (is_failure status)
      {x = if alerts_enabled settings && not (is_recent now (Dict.get n.last_app_sent id))
        then alert n now id status
        else n}
      (λ _.
        if_rule (Linked app)
          (alerts_enabled settings && not (is_recent now (Dict.get n.last_app_sent id)))
          {x = alert n now id status}
          (λ due. alert-Linked app n now id status (ground (arith, due)) s) (λ _. s))
      (λ _.
        if_rule (Linked app) (status_eq status AppStatus.running)
          {x = record n { last_app_sent = Dict.remove n.last_app_sent id }}
          (λ up. record {
            link = ground (arith, up, kept, get-remove n.last_app_sent id app) ∙ s.link;
            spaced = s.spaced;
          })
          (λ _. s))

-- The updates one after the other, with their times and the settings then.
pub updates : Notifier → List (ℕ × Option AlertSettings × String × AppStatus) → Notifier
updates n [] = n
updates n ((now, settings, id, status) ∷ rest) =
    updates (on_app_update n now settings id status) rest

updates-Linked :
    (xs : List (ℕ × Option AlertSettings × String × AppStatus)) (app : String) (n : Notifier)
    → All (λ x. NotRestored app (x.2, x.3)) xs
    → Linked app n
    → Linked app (updates n xs)
unfolding updates
updates-Linked [] app n kept s = s
updates-Linked ((now, settings, id, status) ∷ rest) app n kept s =
    updates-Linked rest app (on_app_update n now settings id status) kept.1
      (update-Linked app n now settings id status kept.0 s)

-- From a fresh notifier, as long as no update says that the app is running again, its alerts are at
-- least five minutes apart, whatever other apps do.
pub updates-Spaced :
    (xs : List (ℕ × Option AlertSettings × String × AppStatus)) (app : String)
    → All (λ x. NotRestored app (x.2, x.3)) xs
    → Spaced app (updates (record { last_app_sent = []; alerts = [] }) xs).alerts
updates-Spaced xs app kept =
    (updates-Linked xs app (record { last_app_sent = []; alerts = [] }) kept
      (record { link = none_yet app; spaced = tt })).spaced

-- One round of a crash loop: the app backs off, is restarted and runs.
pub rounds : Option AlertSettings → String → Notifier → List ℕ → Notifier
rounds settings app n [] = n
rounds settings app n (now ∷ rest) =
    rounds settings app
      (on_app_update
        (on_app_update (on_app_update n now settings app AppStatus.backoff) now settings app
          AppStatus.starting)
        now settings app AppStatus.running)
      rest

round_alerts :
    (settings : Option AlertSettings) (app : String) (n : Notifier) (now : ℕ)
    → alerts_enabled settings ≡ true
    → Dict.get n.last_app_sent app ≡ none
    → on_app_update n now settings app AppStatus.backoff ≡ alert n now app AppStatus.backoff
unfolding on_app_update is_failure status_eq is_recent
round_alerts settings app n now on clear = rw (on, clear) refl

one_round :
    (settings : Option AlertSettings) (app : String) (n : Notifier) (now : ℕ)
    → alerts_enabled settings ≡ true
    → Dict.get n.last_app_sent app ≡ none
    → on_app_update
        (on_app_update
          (on_app_update n now settings app AppStatus.backoff)
          now
          settings
          app
          AppStatus.starting)
        now
        settings
        app
        AppStatus.running
      ≡ record {
        last_app_sent = Dict.remove (Dict.put n.last_app_sent app now) app;
        alerts = record { app = app; at = now; status = AppStatus.backoff } ∷ n.alerts;
      }
unfolding on_app_update is_failure status_eq alert
one_round settings app n now on clear =
    ap
      (λ m.
        on_app_update (on_app_update m now settings app AppStatus.starting) now settings app
          AppStatus.running)
      (round_alerts settings app n now on clear)

-- The debounce does not hold in a crash loop: each restart reports the app as running, which clears
-- it, so with alerts enabled, and no alert of the app remembered at the start, every round of the loop
-- alerts, however short the rounds are.
pub rounds-alerts :
    (times : List ℕ) (settings : Option AlertSettings) (app : String) (n : Notifier)
    → alerts_enabled settings ≡ true
    → Dict.get n.last_app_sent app ≡ none
    → length (rounds settings app n times).alerts ≡ length n.alerts + length times
unfolding rounds
rounds-alerts [] settings app n on clear = omega arith
rounds-alerts (now ∷ rest) settings app n on clear =
    let after : Notifier = record {
      last_app_sent = Dict.remove (Dict.put n.last_app_sent app now) app;
      alerts = record { app = app; at = now; status = AppStatus.backoff } ∷ n.alerts;
    } in
    ap (λ m. length (rounds settings app m rest).alerts) (one_round settings app n now on clear)
    ∙ rounds-alerts rest settings app after on
        (get-remove_self (Dict.put n.last_app_sent app now) app)
    ∙ omega arith
