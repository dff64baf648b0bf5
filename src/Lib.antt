-- ===== src/Lib.antt =====
-- Verification of the core of ovpn, a tool that deploys and runs Xray servers.
--
-- The program has an operator's side (cmd/ovpn, internal/cli, internal/store/local) and an agent on
-- each server (cmd/ovpn-agent). The agent reads the counters of Xray's users in cycles
-- (internal/stats/collector.go), adds the differences to its database (internal/store/remote), takes
-- users over their quota out of the live inbounds and brings them back (internal/stats/quota.go), and
-- takes out the disabled and the expired ones (internal/stats/expiry.go). Both sides share the records
-- of internal/model. Modelled are the agent (its core, its HTTP routes and the tailer of Xray's access
-- log, internal/diagnostics), the operator's database, and the model.
--
-- The files:
--   Prelude   the shared names: integers with the wrap of int64, Boolean tests, texts as lists of
--             code points, results, and the passing of a state that may end in an error
--   Float     the operations on float64 that the program uses, as a parameter
--   Strings   the functions of package strings that the program uses; Strings/Split: split and join
--   Model     internal/model: Types (types.go), Role (NormalizeServerRole, proxy_preset.go), Profile
--             (transport_profile.go), Version (reality.go), Validate (validate.go), Expiry (expiry.go)
--   Sql       the statements of SQL that the store uses, on a table as the list of its rows
--   Dict      Go's maps with text keys
--   Driver    database/sql over SQLite for both stores: the outcomes of the driver's calls, statements,
--             queries and transactions; Driver/Atomic and Driver/Reads: what they leave
--   Remote    internal/store/remote: the database; Meta (counters and metadata of
--             store.go), Connections, Sessions and Reports (diagnostics.go), Traffic (AddDelta,
--             AddDeltaAndAdvanceCounter and the lists of store.go), Quota
--             and Window (quota.go), Users (users.go), Status (QuotaStatus), UserStatus (UserStatus);
--             Stored: how the tables are to hold what they were given; proofs in Atomic, Policies,
--             Accepts, Books (Books/Kept and Books/Diagnostics: the writes that leave the traffic
--             alone), Reading, and below Connections, Sessions and Reports
--   Stats     internal/stats: Delta (computeDelta), Quota and Quota/Loop (QuotaEnforcer), Expiry
--             (ExpiryEnforcer), Collector (CollectOnce, consumeCounter, and ParseUserCounters of
--             internal/xrayapi/client.go); proofs in the modules below them, what is relied on of Xray
--             in Quota/Membership and Expiry/Laws
--   Util      ParseCSV and JoinCSV of internal/util
--   Local     internal/store/local: the tables (store_migrate.go), Secrets (crypto.go), Users
--             (store_users.go), Servers and Servers/Cluster (store_servers.go and store_scan.go), Records
--             (store_backup_stats.go); proofs in Secrets/Laws, Servers/Cluster/Paired
--             (what a cluster with its pair is) and Servers/Cluster/AllOrNothing,
--             Servers/Deleted and Records/Cached
--   Daemon    cmd/ovpn-agent: requests and responses, Auth (requireAgentToken, resolveAgentToken), Sync
--             (/collect, /quota/sync, /users/sync), Runtime (/quota/reset, /runtime/user/add and
--             /runtime/user/remove), Reading (the routes that read, and the debug sessions), Reports
--             (/diagnostics/user), Serve (the table of the routes), Gauges (newMetricsRefreshFunc and
--             the setters of metrics.go), Gateway (runtime_gateway.go); proofs in Rules,
--             Serve/ReadOnly, Admission, Synced, Reset, Gauges/Quiet and Gateway/Effect
--   Diagnostics  internal/diagnostics: the parser of an access line (parser.go), Tailer and Tailer/Run
--             (tailer.go); proofs in Tailer/Conserved and Tailer/Chunks
--   Tests     runs, and the theorems at concrete inputs
--
-- The correspondence. A Go name keeps its words in another spelling: consumeCounter is
-- consume_counter. A method of the store is a function of the world: the tables, the clock, and the
-- outcomes that the driver will give to its calls, one for each call and all of them good where the
-- list is over. So a theorem that speaks of any world speaks of any pattern of failing calls. A
-- transaction puts the database back unless its commit succeeds, which is SQLite's documented
-- behaviour. A stored time is its number of seconds, where the program stores a text of RFC 3339 that
-- sorts the same. An operation that reads the clock twice reads the same time. The hooks and the
-- observer are the list of their calls. Xray is a state with two functions, and a theorem that relies
-- on its behaviour names it as a hypothesis (IsMembership, IsRemoval), which Tests/Fixtures shows to
-- hold for a concrete one. Neither says what an inbound serves after
-- an error that only speaks of a failed removal, and both tell users apart by their exact emails, where
-- Xray ignores case. The sums of the traffic tables and of a user's usage are exact, as SQLite's are
-- while they stay in int64. A query for one user's policy without an order takes the first row stored
-- of the user's inbounds, a choice that SQL leaves open. Go's maps are lists of entries, read by key; a
-- loop over the users of a cycle takes any order of them.
--
-- Loops are structural recursion over the lists they run over, so no bound or fuel is chosen.
--
-- Not modelled: the opening of the databases and their migrations of old tables; the
-- registration of the agent's metrics, the check of its certificate, and its start; of the operator's
-- database the proxy backends; the operator's commands; the rendering of Xray's
-- configuration (internal/xraycfg); deployment, SSH and backups; the Telegram bot; package time's
-- calendar, so ParseExpiryDate; the tickers of the collector and its lock, under which a cycle is one
-- step; two requests at once, as the store has one connection; log output; a nil receiver or store.
pub mod Prelude
pub mod Float
pub mod Strings
pub mod Model
pub mod Sql
pub mod Dict
pub mod Driver
pub mod Util
pub mod Local
pub mod Daemon
pub mod Diagnostics
pub mod Remote
pub mod Stats
pub mod Tests
