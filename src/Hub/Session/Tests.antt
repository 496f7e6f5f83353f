-- ===== src/Hub/Session/Tests.antt =====
-- Frames of an agent on a new connection.
use breakerbox.Prelude.{
  ℕ, ◌+◌, ◌*◌, String, true, false, [], ◌∷◌, none, some, ◌≡◌, refl, inl, ◌⊎◌, ◌==◌, ltb,
}
use breakerbox.Prelude.Int.{pos}
use breakerbox.Prelude.Dict
use breakerbox.Protocol.{Hello, HostSample}
use breakerbox.Hub.State.{Hub, HubEnv, System, SystemStatus, app_sync, hello_ack, save_failed}
use breakerbox.Hub.Signature.{Crypto}
use breakerbox.Hub.Logs.{new_log_broker}
use breakerbox.Hub.Tokens.Pricing.{Floats}
use breakerbox.Hub.Session.{
  ConnectRefusal, RawMetrics, Server, ServerEnv, admit, cmd_ack, handle_frames, hello,
  ingest_metrics, on_hello,
}
use breakerbox.Hub.Session.Own.{handle_frames-own}

abbrev stale : System
stale = record {
  name = "box";
  public_key = "k";
  status = SystemStatus.offline;
  last_seen = 1;
  agent_version = "";
  os = "";
  arch = "";
  hostname = "";
  capabilities = [];
}

abbrev one_system : Hub
one_system = record {
  conns = ("s", 3) ∷ [];
  closed = [];
  systems = ("s", stale) ∷ [];
  apps = [];
  commands = [];
  sent = [];
}

abbrev all_saved : HubEnv
all_saved = record {
  now = 9;
  new_id = "n";
  system_saved = λ s. true;
  app_saved = λ a. true;
  command_saved = λ c. true;
  write_ok = λ c. true;
}

abbrev first_hello : Hello
first_hello = record {
  agent_version = "1";
  protocol_version = pos 1;
  os = "linux";
  arch = "amd64";
  hostname = "h";
  capabilities = "tokenwatch" ∷ [];
  apps = [];
}

greeted :
    (on_hello all_saved one_system "s" 3 stale first_hello).0.sent
    ≡ (3, app_sync []) ∷ (3, hello_ack 9) ∷ []
unfolding on_hello
greeted = refl

-- A write that fails takes the app_sync with it, but the record is saved.
unanswered :
    (on_hello
      (record all_saved { write_ok = λ c. false })
      one_system
      "s"
      3
      stale
      first_hello).0.systems
    ≡ (
      "s",
      record stale {
        status = SystemStatus.online;
        agent_version = "1";
        os = "linux";
        arch = "amd64";
        hostname = "h";
        last_seen = 9;
        capabilities = "tokenwatch" ∷ [];
      },
    )
      ∷ []
unfolding on_hello Dict.put
unanswered = refl

abbrev no_crypto : Crypto
no_crypto = record { decode = λ s. none; parse_int = λ s. none; verify = λ k m s. false }

no_signature :
    admit no_crypto 0 one_system (record { system_id = "s"; timestamp = "1"; signature = "" })
    ≡ inl ConnectRefusal.missing_headers
unfolding admit
no_signature = refl

abbrev no_raw : RawMetrics ℕ
no_raw = record { hosts = []; samples = [] }

abbrev one_sample : HostSample ℕ
one_sample = record {
  ts = 1;
  cpu_pct = 2;
  mem_pct = 3;
  mem_used = 4;
  disk_pct = 5;
  net_sent = 6;
  net_recv = 7;
}

-- A batch of which one sample cannot be stored is not stored at all.
rolled_back :
    ingest_metrics
      (λ s. s.ts == 1)
      (λ s. true)
      no_raw
      "s"
      (record { host = one_sample ∷ record one_sample { ts = 2 } ∷ []; apps = [] })
    ≡ (no_raw, some save_failed)
unfolding ingest_metrics
rolled_back = refl

abbrev naturals : Floats ℕ
naturals = record {
  of_int = λ n. 0;
  plus = λ x y. x + y;
  times = λ x y. x * y;
  less = ltb;
  nil = 0;
}

abbrev server_env : ServerEnv ℕ ℕ
server_env = record {
  hub_env = all_saved;
  hash = λ d. "x";
  floats = naturals;
  usage_ok = λ u. true;
  spend_settings = none;
  today = 0;
  host_ok = λ s. true;
  app_ok = λ s. true;
}

abbrev one_server : Server ℕ ℕ
one_server = record { hub = one_system; broker = new_log_broker; tokens = none; raw = no_raw }

handle_frames-own_example :
    let after =
      (handle_frames server_env "s" 3 one_server stale
        (hello first_hello ∷ cmd_ack "k" ∷ [])).hub in
    (after.conns ≡ one_system.conns)
    × ((j : String) → ("s" ≡ j) ⊎ (Dict.get after.systems j ≡ Dict.get one_system.systems j))
    × ((Dict.get after.systems "s" ≡ Dict.get one_system.systems "s")
        ⊎ (t : System) × (Dict.get after.systems "s" ≡ some t)
          × (t.public_key ≡ "k")
          × (t.name ≡ "box")
          × (t.status ≡ SystemStatus.online))
handle_frames-own_example =
    handle_frames-own server_env "s" 3 one_server stale (hello first_hello ∷ cmd_ack "k" ∷ [])
