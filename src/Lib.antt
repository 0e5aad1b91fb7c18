-- ===== src/Lib.antt =====
-- A model of the decision layer of pg-agent-rs, the high-availability agent for PostgreSQL.
--
-- The agents of a pool replicate one small document, the cluster state: the lease that says which
-- node may run PostgreSQL as primary, a pause, a scheduled switchover, and a generation counter.
-- Each agent runs a loop that reads this document, observes its own PostgreSQL and its peers, and
-- decides; the only writes that the loop makes are a takeover (a compare-and-swap on the lease) and
-- a release. An executor turns each decision into actions on the local PostgreSQL: it promotes,
-- fences, follows, and arms quorum commit. The document is replicated by Raft, whose log, vote and
-- state machine are kept in one embedded database. Beside it, operators' orchestrations are kept in a
-- journal on disk.
--
-- Consensus.antt, Raft.antt: crates/pg-agent-core/src/consensus.rs and raftstore.rs. The document,
--   the commands and their application to it (`RedbStateMachine::apply_command`, and the loop of
--   `apply`). The generation is a `u64` that wraps; theorems about terms ask that it has room for
--   the log at hand.
-- Raft/Redb.antt, Log.antt, Storage.antt, NodeIds.antt: the rest of raftstore.rs. The library redb is a
--   parameter, given by its documented promise that a write transaction takes effect whole or not at
--   all; so are the encodings of serde_json, which can be read back, and openraft's membership. Log.antt
--   is `RedbLogStore`, Storage.antt `RedbStateMachine` with its snapshots, NodeIds.antt the conversions of
--   node ids. A failure while a transaction is built is its failure to commit.
-- Store.antt: the trait `ConsensusStore` and its documented promises as a record of laws, which the
--   loop's theorems take as a hypothesis; no write of another node falls between the calls that a
--   theorem speaks of; Store/InMemory.antt is the implementation of
--   consensus.rs with its fault switches, which keeps them. Its `check_gate` runs alone.
-- ClusterView.antt: crates/pg-agent-core/src/cluster_view.rs, WAL positions and their order.
-- Ha.antt and below: crates/pg-agent-core/src/ha.rs. Ha/Observe.antt is `observe_local` and
--   `observe_peers`; Ha/Candidacy.antt with its children Gates, Settle and Choice is
--   `consider_candidacy`; Ha/Tick.antt is `tick_once` and the rounds of `run`. A tick takes the
--   clocks, the answers of the database and of the peers, the random jitter and whether the read
--   outlived its budget as arguments, and returns the decision with the loop's and the store's new
--   states. Durations are nanoseconds. Reasons are constructors in place of texts. Logging is left
--   out.
-- RoleExec.antt and below: crates/pg-agent-core/src/roleexec.rs. RoleExec/Apply.antt is
--   `RoleExecutor::apply` with its parts in Promote, Follow, QuorumCommit and Attach. The answers of the
--   instance, the database, the peers and the journal's disk are arguments, what the executor asks of
--   them is a list of actions, and what it remembers is a record. The spawned probe of pgpool is an
--   action, and its end a step of its own.
-- Inflight.antt and below: crates/pg-agent-core/src/inflight_ops.rs. The directory of the journal is
--   the list of the operations that its files hold; each call takes what the file system answers.
--   Ids and keys are constructors in place of their texts. A file that cannot be read or parsed is
--   skipped by the calls that list the directory.
-- Maintenance.antt and below: crates/pg-agent-core/src/maintenance.rs, the queue of failed cleanups.
--   Maintenance/Queue.antt is the store on disk, Backoff.antt the delays, Worker.antt the worker with
--   its guard, which asks the journal. The answers of the database and of the peers are arguments; the
--   drops that the worker issues are kept in a list.
--   The worker's timer is left out.
-- ReplayMarkers.antt: crates/pg-agent-core/src/replay_markers.rs. A marker's file name is a constructor
--   with the hook and its key, which stands for their SHA-256 digest.
-- Orchestration.antt, Handoff.antt, Failover.antt, FollowPrimary.antt and below: the orchestrations of
--   crates/pg-agent-core/src/localserver.rs: the planned handoff of the primary's role
--   (`cluster_handoff`, `run_handoff_from_phase`, `resume_handoff`), pgpool's failover hook (`failover`,
--   with preconditions.rs), the rebasing of a standby (`drive_follow_primary`, the hook
--   `follow_primary`), and `resume_inflight_op`. A task is a function from the state, which is the
--   journal, the maintenance queue, the markers and a log of the calls that may change something, to its answer and the new
--   state. What the calls answer is an argument; a call happens at most once in a run, or in a stage of the
--   operator's reclone, whose three stages have answers of their own. A run ends early
--   where a call or the journal fails; a crash just before a phase is recorded is such a failure, other
--   crashes are not modelled. The tasks that the fan-out spawns are functions of their own, and the
--   local PostgreSQL is told apart from the peers by the node of a call. The text of a slot's name is a
--   parameter.
-- Recovery.antt, ClusterInit.antt, StartPrimary.antt and below: more of the same file. Recovery.antt is
--   the reclone of a standby, by pgpool's hook (`recovery_first_stage`) and by the operator
--   (`cluster_recover`), ClusterInit.antt the initialisation of the standbys and of the lease
--   (`cluster_init`, `init_standby`), StartPrimary.antt the start of a primary by hand
--   (`cluster_start_primary`). The two that claim the lease do so in any store of Store.antt; what the peers,
--   the files and the declaration of the members answer is an argument.
-- PeerServer.antt and below: of crates/pg-agent-core/src/peerserver.rs the handlers that judge
--   before they act, `attach_node`, `drop_slot` and `basebackup`, with the checks of crates/pgman/src/pgstandby.rs.
--   The regular expressions are parameters.
-- Healthz.antt and below: crates/pg-agent-core/src/healthz.rs, the endpoint that the load balancer asks.
--   A round of probes is a record of answers, each with its timeout; the snapshot that it leaves is
--   what a request reads. The rows of pgpool are those of Pcp.antt (pcp.rs). The router is left out.
-- Pool.antt: the pool and its look-ups (crates/pg-agent-core/src/config.rs).
-- Config.antt and below: the same file's loading of a configuration once its text is parsed: the
--   resolution of the local node's id, `Config::validate`, and the consensus timing of `RaftConfig`. What
--   the id files hold and the host name are arguments. A panic of the arithmetic of durations is a value.
-- Retry.antt: `retry_result` of crates/pg-agent-core/src/retry.rs.
-- Timeline.antt and below: `reachable` of crates/pgman/src/timeline.rs, the test that decides whether
--   an instance may follow a timeline; the texts of history files and WAL positions are left out.
-- Scenarios.antt: tests, and the theorems at concrete inputs, with a table that keeps the promises of
--   redb.
--
-- Node ids are natural numbers, since config.rs refuses a pool with a negative id; Config.antt and
-- Raft/NodeIds.antt, which model the refusals, have signed ones, as has a pool for its local id, which
-- may be unresolved. Loops recur on lists, and the one of Retry.antt on the number of attempts left,
-- which is its own. Fuel is used in PeerServer.antt alone, for the wait of `basebackup`: its deadline is
-- 30 s away and a poll takes 250 ms or more, so 121 polls are enough.
--
-- Not modelled: openraft, redb, tokio, tonic and the other libraries, the network and its clients, the
-- rest of the configuration, pgpool, systemd and the command line tools, which are third party code, glue,
-- or input and output; the opening of the database file and the codes of storage errors. Of the
-- servers, the reports of status, the pause, the quorum commit switch, the dismissal of a journalled op,
-- the restore of WAL, and the handlers that only pass a call on. Of the configuration, the
-- sections of the listeners, of pgpool and of the supervisor.

pub mod Prelude
pub mod Consensus
pub mod Raft
pub mod Store
pub mod ClusterView
pub mod Ha
pub mod Inflight
pub mod Pool
pub mod Config
pub mod ReplayMarkers
pub mod Retry
pub mod Orchestration
pub mod Handoff
pub mod Failover
pub mod FollowPrimary
pub mod Recovery
pub mod ClusterInit
pub mod StartPrimary
pub mod PeerServer
pub mod Pcp
pub mod Healthz
pub mod Maintenance
pub mod Timeline
pub mod RoleExec
pub mod Scenarios
