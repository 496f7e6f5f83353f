-- ===== src/Hub/Tests.antt =====
-- Runs of the hub's parts on small inputs.
use breakerbox.Prelude.{
  ℕ, ◌+◌, suc, ◌≤◌, ◌*◌, String, Bool, true, false, inl, inr, List, [], ◌∷◌, Option, none, some,
  ◌≡◌, refl, All, length, arith, eq_iff,
}
use breakerbox.Prelude.Int.{ℤ, pos, ltb_ℤ, ◌+ℤ◌, ◌*ℤ◌}
use breakerbox.Prelude.Dict
use breakerbox.Prelude.Dict.{Dict}
use breakerbox.Protocol.{
  AppDefinition, AppKind, AppStatus, Approval, DesiredState, TokenUsageRow, Verb, status_eq,
}
use breakerbox.Hub.State.{
  AppRecord, Command, CommandStatus, Hub, HubEnv, System, SystemStatus, no_error,
}
use breakerbox.Hub.Registry.{WsStep, add, adds, remove, removes, set_system_status, writes, ws_step}
use breakerbox.Hub.Registry.Presence.{Matches, begun, run_ws, run_ws-Matches}
use breakerbox.Hub.Apps.{AppRequest, put_app}
use breakerbox.Hub.Apps.Labels.{HonestHub, changes, changes-HonestHub, registers, requests}
use breakerbox.Hub.Apps.Approvals.{NoNewApproval, put_app-NoNewApproval}
use breakerbox.Hub.Commands.{CommandRequest, create_command}
use breakerbox.Hub.Commands.Lifecycle.{Verdict, create_command-Verdict}
use breakerbox.Hub.Tokens.Pricing.{Floats, ModelPrice, join_dash, lookup}
use breakerbox.Hub.Tokens.Prefixes.{IsLookup, lookup-IsLookup}
use breakerbox.Hub.Tokens.Ingest.{Usage, ingest_rows}
use breakerbox.Hub.Tokens.Dedup.{Covered, HasAtLeast, ingest_rows-grow, ingest_twice}
use breakerbox.Hub.Tokens.Spend.{Service, SpendSettings}
use breakerbox.Hub.Tokens.Alerts.{alert_once, ingest_all}
use breakerbox.Hub.Enroll.{EnrollEnv, EnrollRequest, Enrollment}
use breakerbox.Hub.Enroll.Once.{Used, redeem_once, successes}
use breakerbox.Hub.Notify.{AlertSettings, Notifier, alerts_enabled}
use breakerbox.Hub.Notify.Debounce.{Spaced, rounds, rounds-alerts, updates, updates-Spaced}
use breakerbox.Hub.Notify.Offline.{WatchEvent, confirmed, expired, updated, watch_all}
use breakerbox.Hub.Notify.Offline.Answers.{Answers, watch_all-Answers}
use breakerbox.Hub.Signature.{Crypto, verify_signature}
use breakerbox.Hub.Signature.Replay.{replay_window}
use breakerbox.Hub.Metrics.Downsample.{Database, Row, Series, Tier, hour_ms}
use breakerbox.Hub.Metrics.Rollup.{ComesToOne, aggregate_tier_idempotent}

abbrev server : AppDefinition
server = record {
  schema_version = pos 1;
  name = "web";
  kind = AppKind.process;
  cmd = "node";
  args = [];
  cwd = "/srv";
  env = [];
  ports = [];
  health_check = none;
  stop = none;
  restart_policy = none;
  container_id = "";
  compose_project = "";
  compose_file = "";
}

abbrev base : HubEnv
base = record {
  now = 100_000;
  new_id = "n";
  system_saved = λ s. true;
  app_saved = λ a. true;
  command_saved = λ c. true;
  write_ok = λ c. true;
}

abbrev laptop : System
laptop = record {
  name = "laptop";
  public_key = "k";
  status = SystemStatus.offline;
  last_seen = 0;
  agent_version = "";
  os = "";
  arch = "";
  hostname = "";
  capabilities = [];
}

abbrev quiet : Hub
quiet = record {
  conns = [];
  closed = [];
  systems = ("s", laptop) ∷ [];
  apps = [];
  commands = [];
  sent = [];
}

-- An agent connects again before its first connection ends, and that one's status is written last.
abbrev reconnects : List WsStep
reconnects = adds "s" 1 ∷ adds "s" 2 ∷ writes base "s" ∷ removes "s" 1 ∷ writes base "s" ∷ []

run_ws-Matches_example : Matches "s" (run_ws (begun quiet) reconnects).hub
unfolding run_ws ws_step Dict.get Dict.put
run_ws-Matches_example =
    run_ws-Matches "s" quiet reconnects (tt, (tt, (λ _. refl, (tt, (λ _. refl, tt)))))
      (inr (inl refl)) refl

-- The old handler removes its connection, the new one adds its own and writes, and then the old one
-- writes: offline, with a connection.
offline_with_connection :
    Dict.get
      (set_system_status base
        (set_system_status base
          (add (remove (add quiet "s" 1) "s" 1).0 "s" 2)
          "s"
          SystemStatus.online)
        "s"
        SystemStatus.offline).systems
      "s"
    ≡ some (record laptop { last_seen = base.now })
unfolding add remove set_system_status Dict.get Dict.put Dict.remove
offline_with_connection = refl

abbrev hash : AppDefinition → String
hash def = def.name

abbrev web_request : AppRequest
web_request = record { system = "s"; app_id = ""; definition = server }

changes-HonestHub_example :
    HonestHub hash
      (changes hash quiet ((base, registers "s" 1 server) ∷ (base, requests true web_request) ∷ []))
changes-HonestHub_example =
    changes-HonestHub hash ((base, registers "s" 1 server) ∷ (base, requests true web_request) ∷ [])
      quiet (record { labels = tt; frames = tt })

put_app-NoNewApproval_example :
    NoNewApproval quiet.apps (put_app hash base quiet true web_request).0.apps
put_app-NoNewApproval_example = put_app-NoNewApproval hash base quiet true web_request

abbrev web : AppRecord
web = record {
  system = "s";
  name = "web";
  kind = AppKind.process;
  definition = some server;
  definition_hash = "web";
  approval = Approval.approved;
  desired_state = DesiredState.stopped;
  status = AppStatus.stopped;
  pid = 0;
  started_at = none;
  ports = [];
  restart_policy = none;
  token_tracking = "";
}

abbrev finished_command : Command
finished_command = record {
  system = "s";
  app = "a";
  verb = Verb.start;
  status = CommandStatus.done;
  requested_by = "u";
  error = no_error;
  result = none;
  updated = 10;
}

abbrev busy : Hub
busy = record quiet { apps = ("a", web) ∷ []; commands = ("c", finished_command) ∷ [] }

abbrev start_request : CommandRequest
start_request = record {
  app = "a";
  verb = Verb.start;
  auth = some "u";
  requested_by = "";
  error = no_error;
  result = none;
}

create_command-Verdict_example :
    Verdict base busy start_request (create_command base busy start_request)
create_command-Verdict_example = create_command-Verdict base busy start_request

abbrev prices : Dict (ModelPrice ℤ)
prices =
    (
      "claude-fable-5",
      record { input = pos 3; output = pos 5; cache_creation = pos 1; cache_read = pos 1 },
    )
    ∷ []

lookup-IsLookup_example :
    IsLookup prices "claude-fable-5-20260301" (lookup prices "claude-fable-5-20260301")
lookup-IsLookup_example = lookup-IsLookup prices "claude-fable-5-20260301"

dated_names_are_priced :
    lookup prices "claude-fable-5-20260301"
    ≡ some (record { input = pos 3; output = pos 5; cache_creation = pos 1; cache_read = pos 1 })
unfolding lookup Dict.get join_dash
dated_names_are_priced = refl

abbrev integers : Floats ℤ
integers = record { of_int = λ n. n; plus = ◌+ℤ◌; times = ◌*ℤ◌; less = ltb_ℤ; nil = pos 0 }

abbrev usage : TokenUsageRow
usage = record {
  dedup_key = "k";
  app_id = "a";
  source = "claude";
  model = "m";
  input_tokens = pos 1;
  output_tokens = pos 2;
  cache_creation_tokens = pos 0;
  cache_read_tokens = pos 0;
  session_id = "s";
  occurred_at_ms = pos 5;
}

abbrev free : TokenUsageRow → ℤ × Bool
free row = (pos 0, true)

abbrev stored_usage : Usage ℤ
stored_usage = record {
  system = "s";
  app = "a";
  source = "claude";
  model = "m";
  input_tokens = pos 1;
  output_tokens = pos 2;
  cache_creation_tokens = pos 0;
  cache_read_tokens = pos 0;
  cost_usd = pos 0;
  session_id = "s";
  occurred_at_ms = pos 5;
}

abbrev usage_table : Dict (Usage ℤ)
usage_table = ("k", stored_usage) ∷ []

first_batch : ingest_rows (λ u. true) free "s" (usage ∷ []) [] ≡ some usage_table
unfolding ingest_rows Dict.get Dict.put
first_batch = refl

ingest_twice_example : ingest_rows (λ u. true) free "s" (usage ∷ []) usage_table ≡ some usage_table
ingest_twice_example = ingest_twice (λ u. true) free "s" (usage ∷ []) [] usage_table first_batch

ingest_rows-grow_example :
    All (Covered (λ u. true) free "s" usage_table) (usage ∷ [])
    × ((k : String) (u : Usage ℤ)
        → Dict.get [] k ≡ some u
        → HasAtLeast (λ u. true) free "s" usage_table k u.output_tokens)
ingest_rows-grow_example =
    ingest_rows-grow (λ u. true) free "s" (usage ∷ []) [] usage_table first_batch

abbrev service : Service ℤ
service = record {
  models = prices;
  table = [];
  unpriced_seen = [];
  last_alert_day = none;
  alerts = [];
}

abbrev alarm : Option (SpendSettings ℤ)
alarm = some (record { threshold = pos 1; notify_spend = true })

alert_once_example :
    (length
        (ingest_all integers
          (λ u. true)
          0
          ((alarm, "s", usage ∷ []) ∷ (alarm, "s", usage ∷ []) ∷ [])
          service).alerts
      ≤ suc (length service.alerts))
    × (service.last_alert_day ≡ some 0
        → (ingest_all integers
            (λ u. true)
            0
            ((alarm, "s", usage ∷ []) ∷ (alarm, "s", usage ∷ []) ∷ [])
            service).alerts
          ≡ service.alerts)
alert_once_example =
    alert_once integers (λ u. true) 0 ((alarm, "s", usage ∷ []) ∷ (alarm, "s", usage ∷ []) ∷ [])
      service

abbrev counting : Database ℤ
counting = record { avg = λ xs. pos 0; most = λ xs. pos 0; absent = pos 0; save_ok = λ r. true }

abbrev cpu : Series
cpu = record { collection = "app_metrics"; avg_fields = "cpu" ∷ []; max_fields = [] }

abbrev ten_minutes : Tier
ten_minutes = record { from_tier = "1m"; to_tier = "10m"; width = 600_000; retain = 48 * hour_ms }

abbrev samples : List (Row ℤ)
samples = record { key = "a"; tier = "1m"; created = 60_000; field = λ f. pos 1 } ∷ []

abbrev refusing : Database ℤ
refusing = record counting { save_ok = λ r. false }

-- the first pass cannot store its row, and the second can
aggregate_tier_idempotent_example : ComesToOne refusing counting cpu ten_minutes 900_000 samples
aggregate_tier_idempotent_example =
    aggregate_tier_idempotent refusing counting cpu ten_minutes 900_000 samples
      (λ same. ground (arith, same, eq_iff "1m" "10m"))

abbrev key_32 : List ℕ
key_32 =
    0 ∷ 0 ∷ 0 ∷ 0 ∷ 0 ∷ 0 ∷ 0 ∷ 0 ∷ 0 ∷ 0 ∷ 0 ∷ 0 ∷ 0 ∷ 0 ∷ 0 ∷ 0 ∷ 0 ∷ 0 ∷ 0 ∷ 0 ∷ 0 ∷ 0 ∷ 0 ∷ 0
    ∷ 0 ∷ 0 ∷ 0 ∷ 0 ∷ 0 ∷ 0 ∷ 0 ∷ 0 ∷ []

abbrev enroll_host : EnrollEnv
enroll_host = record {
  now = 10;
  new_id = "n";
  token_saved = λ t. true;
  system_saved = λ s. true;
  hash = λ s. s;
  trim = λ s. s;
  key_bytes = λ s. some key_32;
  hex = λ b. "00";
}

abbrev enrolling : Enrollment
enrolling = record {
  tokens = ("t", record { expires_at = 20; used_at = none; created_by = "u" }) ∷ [];
  systems = [];
}

abbrev redeem_t : EnrollRequest
redeem_t = record { token = "t"; public_key = "k"; name = "laptop" }

redeem_once_example :
    (successes "t" enrolling ((enroll_host, redeem_t) ∷ (enroll_host, redeem_t) ∷ []) ≤ 1)
    × (Used "t" enrolling
        → successes "t" enrolling ((enroll_host, redeem_t) ∷ (enroll_host, redeem_t) ∷ []) ≡ 0)
redeem_once_example =
    redeem_once "t" ((enroll_host, redeem_t) ∷ (enroll_host, redeem_t) ∷ []) enrolling

abbrev lenient : Crypto
lenient = record {
  decode = λ s. some key_32;
  parse_int = λ s. some (pos 0);
  verify = λ k m s. true;
}

replay_window_example : 300_000_000_000 ≤ 0 + 600_000_000_000
unfolding verify_signature
replay_window_example = replay_window lenient 0 300_000_000_000 "k" "s" "0" "x" refl refl

abbrev loud : Option AlertSettings
loud = some (record {
  ntfy_endpoint = "http://ntfy";
  notify_app_errors = true;
  notify_system_offline = true;
})

abbrev two_failures : List (ℕ × Option AlertSettings × String × AppStatus)
two_failures = (0, loud, "a", AppStatus.backoff) ∷ (5_000, loud, "a", AppStatus.errored) ∷ []

abbrev fresh_notifier : Notifier
fresh_notifier = record { last_app_sent = []; alerts = [] }

updates-Spaced_example : Spaced "a" (updates fresh_notifier two_failures).alerts
unfolding status_eq
updates-Spaced_example = updates-Spaced two_failures "a" (refl, (refl, tt))

rounds-alerts_example :
    length (rounds loud "a" fresh_notifier (0 ∷ 1_000 ∷ 3_000 ∷ [])).alerts ≡ 0 + 3
unfolding Dict.get alerts_enabled
rounds-alerts_example = rounds-alerts (0 ∷ 1_000 ∷ 3_000 ∷ []) loud "a" fresh_notifier refl refl

abbrev down_and_up : List WatchEvent
down_and_up =
    updated 0 loud "h" SystemStatus.offline
    ∷ expired "h"
    ∷ confirmed "h" (some SystemStatus.offline)
    ∷ updated 130_000 loud "h" SystemStatus.online
    ∷ []

watch_all-Answers_example :
    Answers "h"
      (watch_all (record { offline_at = []; notified = []; notices = [] }) down_and_up).notices
watch_all-Answers_example = watch_all-Answers down_and_up "h"
