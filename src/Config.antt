-- ===== src/Config.antt =====
-- The configuration of an agent, as far as the pool and the consensus timing go
-- (crates/pg-agent-core/src/config.rs): its data, and the timing of `RaftConfig`. Durations are
-- nanoseconds; a `Duration` counts its seconds in a `u64`, and its arithmetic panics over that.
pub mod Ids
pub mod Load
pub mod Timing
pub mod Nodes
pub mod Accepted
pub mod Loaded
use pg_agent_rs.Prelude.{
  ℕ, ℤ, String, ◌+◌, ◌*◌, ◌/◌, ◌^◌, Bool, true, false, Option, none, some, List, [], ◌∷◌, leb, ltb,
  Result, ok, err, if◌then◌else◌,
}

-- a member of the pool before its id is checked
pub record PoolEntry : Type 0 where
  pub id : ℤ
  pub hostname : String

pub record RaftConfig : Type 0 where
  pub obsolete_enabled : Option Bool
  pub loop_wait_secs : Option ℕ
  pub retry_timeout_secs : Option ℕ
  pub leader_ttl_secs : Option ℕ
  pub election_timeout_ms : Option ℕ

-- what the node id file holds: nothing is there, a text that is no id, or an id
pub data IdFile : Type 0 where
  missing broken : IdFile
  holds : ℤ → IdFile

-- `node_id_file` and the `pgpool_files` are the files at the configured paths
pub record Config : Type 0 where
  pub node_id : Option ℤ
  pub node_id_file : Option IdFile
  pub pool : List PoolEntry
  pub sslmode : Option String
  pub raft : RaftConfig
  pub local_node_id : ℤ

pub data RaftRefusal : Type 0 where
  not_optional ttl_too_short retry_too_short : RaftRefusal

-- `panicked` is no error of the source: it stands for the panic of an addition of durations
pub data AgentError : Type 0 where
  no_pool no_local_node replication_ssl_mode id_file_broken panicked : AgentError
  negative_id duplicate_id node_not_found local_node_missing_from_pool : ℤ → AgentError
  duplicate_host : String → AgentError
  raft_config : RaftRefusal → AgentError

abbrev pub or_default : Option ℕ → ℕ → ℕ
or_default none d = d
or_default (some n) d = n

-- `Duration::from_secs` and `Duration::from_millis`
abbrev pub from_secs : ℕ → ℕ
from_secs n = n * 1000000000

abbrev pub from_millis : ℕ → ℕ
from_millis n = n * 1000000

unfoldable pub effective_loop_wait : RaftConfig → ℕ
effective_loop_wait c = from_secs (or_default c.loop_wait_secs 10)

unfoldable pub effective_retry_timeout : RaftConfig → ℕ
effective_retry_timeout c = from_secs (or_default c.retry_timeout_secs 10)

unfoldable pub effective_leader_ttl : RaftConfig → ℕ
effective_leader_ttl c = from_secs (or_default c.leader_ttl_secs 30)

unfoldable pub effective_election_timeout : RaftConfig → ℕ
effective_election_timeout c = from_millis (or_default c.election_timeout_ms 5000)

-- the end of the durations: 2^64 seconds
abbrev pub duration_end : ℕ
duration_end = from_secs (2 ^ 64)

-- `loop_wait + 2 * retry`, or `none` where a step of it panics
unfoldable pub needed : ℕ → ℕ → Option ℕ
needed loop_wait retry =
    if leb duration_end (2 * retry)
    then none
    else if leb duration_end (loop_wait + 2 * retry)
    then none
    else some (loop_wait + 2 * retry)

abbrev pub is_refused : Option Bool → Bool
is_refused (some false) = true
is_refused _ = false

unfoldable pub compare_timing : ℕ → ℕ → ℕ → ℕ → Result AgentError (Unit {0})
compare_timing bound retry ttl election =
    if ltb ttl bound
    then err (raft_config ttl_too_short)
    else if leb retry election
    then err (raft_config retry_too_short)
    else ok tt

unfoldable pub validate_timing : ℕ → ℕ → ℕ → ℕ → Result AgentError (Unit {0})
unfolding needed compare_timing
validate_timing loop_wait retry ttl election = elim (needed loop_wait retry) [
  | none ↦ err panicked
  | some bound ↦ compare_timing bound retry ttl election
]

unfoldable pub validate_raft : RaftConfig → Result AgentError (Unit {0})
unfolding validate_timing effective_loop_wait effective_retry_timeout effective_leader_ttl
    effective_election_timeout
validate_raft c =
    if is_refused c.obsolete_enabled
    then err (raft_config not_optional)
    else validate_timing (effective_loop_wait c) (effective_retry_timeout c)
        (effective_leader_ttl c) (effective_election_timeout c)
