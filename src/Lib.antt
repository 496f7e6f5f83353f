-- ===== src/Lib.antt =====
-- BreakerBox: a hub that shows and steers apps on other machines, and the agents that run there.
--
-- The agent (agent/) holds a WebSocket to the hub (hub/). The hub sends the list of apps that the
-- host should have and commands from a fixed set of verbs; the agent checks them against what the
-- host itself approved, runs the apps, restarts them when they crash, and reports events, metrics,
-- log lines and LLM token usage. pkg/protocol is the contract of both sides.
--
-- Files (paths are from the repository's root):
--   Prelude: shared tests, lists, integers and maps; models no code of the repository.
--   Protocol: pkg/protocol. Words has the verbs, statuses and kinds, AppDef and Messages the
--     payloads, Validate AppDefinition.Validate.
--   Agent/Daemon: agent/internal/daemon. State has the daemon's fields and what the host answers;
--     Apps is startApp and startDockerApp, Stops stopApp, stopDockerApp and cancelRestart, Restart
--     handleUnexpectedExit and reconcile, Sync applyAppSync, execute and applySpoolOp, Poll
--     pollDockerApps, Buffers sendMetrics and the proxy rows, Attribution resolveAppByCwd (with the
--     separator of Unix), Greeting sendHello, Boot the start of Run. Step composes
--     them. Consent, Gate, Crashes (the delays of restarts, and below it the rounds of an app that
--     keeps crashing), Timers, Sync/Known and Buffers/Bounds hold theorems.
--   Agent/Transport: agent/internal/transport, the send queue and the reconnect delays.
--   Agent/TokenProxy: agent/internal/tokenproxy: parse.go in Rows and Sse, proxy.go in Proxy, with
--     theorems in Chunks, Proxy/Route and Proxy/Relay.
--   Agent/TokenWatch: agent/internal/tokenwatch, in Codex, Claude and Watcher. Watcher/Rows, Lines,
--     Tail, Scan and Harvest follow a transcript through the scans, Run has the loop of Run, and
--     Stop, Advances and Crash say what its end and a crash keep.
--   Agent/Store: agent/internal/appconfig/store.go: the command spool in Spool, its names, files and
--     the queue that it refines below it; the state file in State and State/Atomic.
--   Agent/Supervisor: agent/internal/supervisor, Stop and ReapOrphan with the process groups of
--     proc_unix.go; Stopping and Escalation hold theorems.
--   Agent/LogStream: agent/internal/daemon/logstream.go: Tail is followFile, with the chunks in
--     Tail/Cut and the lines in Tail/Follows and Tail/Lines; Registry has the streams and their
--     goroutines, with theorems in Registry/Cancels.
--   Agent/Docker/Follow: agent/internal/dockerapp/follow.go, on fuel for the number of frames.
--   Hub: hub/internal. State has the records and tables, Registry the connections of agenthub,
--     Apps the app handlers of agenthub and appsapi, Commands the commands package with onCmdUpdate
--     and the dispatch, Tokens (Pricing, Ingest, Spend) the tokens package, Metrics/Downsample the
--     metrics package. Registry/Presence, Apps/Labels, Apps/Approvals, Commands/Lifecycle,
--     Tokens/Prefixes, Tokens/Dedup, Tokens/Alerts and Metrics/Rollup hold theorems.
--     Enroll is the enroll package, Signature verifySignature of agenthub. Notify is the notify
--     package: the alerts about apps, and in Notify/Offline those about systems. Notify/Debounce,
--     Notify/Offline/Answers, Enroll/Once and Signature/Replay hold theorems.
--     Logs is logs.go of agenthub: the broker, with theorems in Logs/Broker, and the log handler.
--     Session has serveWS, handleFrame and onHello of agenthub, which put these parts together, and
--     ingestMetrics; Session/Untouched and Session/Own hold theorems.
--   The modules named Tests run the definitions on small inputs.
-- Agent and hub meet in Hub/Apps/Labels: it shows of the hub's app_sync frames what Agent/Daemon/Consent
-- asks of them.
--
-- How state is modelled: a critical section is a function from the state to the state, and a handler
-- that gives up the lock in between is one function here, so a run is a sequence of whole handlers, and
-- what happens when two handlers interleave is not covered. There are two exceptions, whose parts are
-- steps of their own: the grace timer of Hub/Notify/Offline, and the registry entry and the status of a
-- connection in Hub/Registry. A run of Agent/Daemon/Step is one life of the agent's process: the state
-- that it loads is what the run starts with. Calls to the operating system, the Docker engine and the
-- network are logged in the state, and their answers are arguments.
-- Numbers: Go's int is an integer; 64-bit arithmetic is written out where the source multiplies or
-- shifts. Percentages and prices are a type parameter, since Go computes them in float64.
-- Every loop is over a list, except these, which run on fuel: Agent/Docker/Follow, where one unit more
-- than the stream has frames is enough; the polling of Agent/Supervisor, where each wait needs a unit
-- for every poll interval up to its deadline and one more; the digits of a spool file's name, of which
-- a 64-bit time has at most 19; and the chunks of Agent/LogStream/Tail, one unit for each line.
--
-- Not modelled: the user interface, the PocketBase server and its database engine (the hub's
-- handlers see it as a table), JSON, signatures and hashes (parameters), and the parts of the agent
-- and the hub that only move bytes: the installer, web assets, the Docker
-- client and the job objects of Windows.
pub mod Prelude
pub mod Protocol
pub mod Agent
pub mod Hub
