-- ===== src/Healthz.antt =====
-- The health endpoint that the load balancer asks (crates/pg-agent-core/src/healthz.rs): the probes
-- behind it, the snapshot that they leave, and the answer to a request. What a probe answers is an
-- argument: `none` where its time is over, and an error where it failed. The texts of errors are left
-- out. Times are nanoseconds.

pub mod Readiness
use Prim.Native.Char.{code}
use Prim.Native.String
use text.Mathlib.Text.{◌==◌}
use pg_agent_rs.Prelude.{
  ℕ, ℤ, pos, String, ◌+◌, ◌-◌, ◌/◌, Bool, true, false, ◌&&◌, ◌||◌, Option, none, some, List, [],
  ◌∷◌, map, any, leb, ltb, Result, ok, err, if◌then◌else◌,
}
use pg_agent_rs.Pcp.{NodeInfo}

pub data HealthRole : Type 0 where
  unknown primary replica : HealthRole

pub record PostgresProbe : Type 0 where
  pub reachable : Bool
  pub in_recovery : Bool

pub record BackendStatus : Type 0 where
  pub id : ℕ
  pub hostname : String
  pub role : String
  pub status : String
  pub replication_state : String

pub record PgpoolProbe : Type 0 where
  pub reachable : Bool
  pub backends : List BackendStatus

pub record ReplicationProbe : Type 0 where
  pub lag_bytes : ℤ
  pub wal_receiver_state : String

pub data SyncCommitState : Type 0 where
  not_applicable disarmed armed blocked : SyncCommitState

pub record HealthSnapshot : Type 0 where
  pub timestamp : ℕ
  pub role : HealthRole
  pub postgres : PostgresProbe
  pub pgpool : PgpoolProbe
  pub replication : ReplicationProbe
  pub sync_commit : SyncCommitState
  pub follow_wedged : Bool

-- what the database, pgpool and the executor answer to one round of probes, and when it ended
pub record ProbeInput : Type 0 where
  pub is_in_recovery : Option (Result (Unit {0}) Bool)
  pub replication_lag : Option (Result (Unit {0}) ReplicationProbe)
  pub node_info_all : Option (Result (Unit {0}) (List NodeInfo))
  pub setting : Option (Result (Unit {0}) String)
  pub connected : Option (Result (Unit {0}) (List String))
  pub wedged : Bool
  pub ended : ℕ

abbrev pub from_node_info : NodeInfo → BackendStatus
from_node_info n = record {
  id = n.id;
  hostname = n.hostname;
  role = n.role;
  status = n.status_name;
  replication_state = n.replication_state;
}

abbrev pub no_replication : ReplicationProbe
no_replication = record { lag_bytes = pos 0; wal_receiver_state = "" }

abbrev pub unreachable : PostgresProbe
unreachable = record { reachable = false; in_recovery = false }

abbrev pub no_pgpool : PgpoolProbe
no_pgpool = record { reachable = false; backends = [] }

abbrev pub between : ℕ → ℕ → ℕ → Bool
between lo hi c = leb lo c && leb c hi

-- Unicode's white space, which `trim` removes
abbrev pub is_white : ℕ → Bool
is_white c =
    between 9 13 c
    || between 32 32 c
    || between 133 133 c
    || between 160 160 c
    || between 5760 5760 c
    || between 8192 8202 c
    || between 8232 8233 c
    || between 8239 8239 c
    || between 8287 8287 c
    || between 12288 12288 c

-- `s.trim().is_empty()`
unfoldable pub is_blank : String → Bool
is_blank String.[] = true
is_blank (String.◌∷◌ c s) = is_white (code c) && is_blank s

unfoldable pub probe_sync_commit :
    Option (Result (Unit {0}) String) → Option (Result (Unit {0}) (List String)) → SyncCommitState
unfolding is_blank
probe_sync_commit none connected = not_applicable
probe_sync_commit (some (err e)) connected = not_applicable
probe_sync_commit (some (ok names)) connected =
    if is_blank names then disarmed else elim connected [
      | none ↦ not_applicable
      | some r ↦ elim r [
        | err e ↦ not_applicable
        | ok standbys ↦ elim standbys [ [] ↦ blocked | x ∷ xs ↦ armed ]
      ]
    ]

abbrev pub lag_or_default : Option (Result (Unit {0}) ReplicationProbe) → ReplicationProbe
lag_or_default none = no_replication
lag_or_default (some (err e)) = no_replication
lag_or_default (some (ok l)) = l

unfoldable pub probe_postgres :
    Option (Result (Unit {0}) Bool)
    → Option (Result (Unit {0}) ReplicationProbe)
    → HealthRole × PostgresProbe × ReplicationProbe
probe_postgres none lag = (unknown, unreachable, no_replication)
probe_postgres (some (err e)) lag = (unknown, unreachable, no_replication)
probe_postgres (some (ok recovers)) lag = (
  if recovers then replica else primary,
  record { reachable = true; in_recovery = recovers },
  lag_or_default lag,
)

unfoldable pub probe_pgpool : Option (Result (Unit {0}) (List NodeInfo)) → PgpoolProbe
probe_pgpool none = no_pgpool
probe_pgpool (some (err e)) = no_pgpool
probe_pgpool (some (ok nodes)) = record { reachable = true; backends = map from_node_info nodes }

abbrev pub sync_commit_of : HealthRole → ProbeInput → SyncCommitState
sync_commit_of primary i = probe_sync_commit i.setting i.connected
sync_commit_of _ i = not_applicable

unfoldable pub build_snapshot : ProbeInput → HealthSnapshot
unfolding probe_postgres probe_pgpool probe_sync_commit
build_snapshot i =
    let (answered, reached, replicated) = probe_postgres i.is_in_recovery i.replication_lag in
    record {
      timestamp = i.ended;
      role = answered;
      postgres = reached;
      pgpool = probe_pgpool i.node_info_all;
      replication = replicated;
      sync_commit = sync_commit_of answered i;
      follow_wedged = i.wedged;
    }

-- the snapshot that the snapshotter holds after one more round
unfoldable pub probe_once : ProbeInput → Option HealthSnapshot → Option HealthSnapshot
unfolding build_snapshot
probe_once i snap = some (build_snapshot i)

-- the rounds of `HealthSnapshotter::run`
unfoldable pub run : List ProbeInput → Option HealthSnapshot → Option HealthSnapshot
unfolding probe_once
run [] snap = snap
run (i ∷ is) snap = run is (probe_once i snap)

pub data StatusCode : Type 0 where
  status_ok service_unavailable : StatusCode

pub record HealthBody : Type 0 where
  pub ready : Bool
  pub snapshot_age_ms : ℕ
  pub role : HealthRole
  pub postgres : PostgresProbe
  pub pgpool : PgpoolProbe
  pub replication : ReplicationProbe
  pub sync_commit : SyncCommitState
  pub follow_wedged : Bool

abbrev pub empty_body : HealthBody
empty_body = record {
  ready = false;
  snapshot_age_ms = 0;
  role = unknown;
  postgres = unreachable;
  pgpool = no_pgpool;
  replication = no_replication;
  sync_commit = not_applicable;
  follow_wedged = false;
}

abbrev pub backend_is_up : String → Bool
backend_is_up status = status == "up" || status == "waiting"

-- `from_std` is chrono's conversion, which fails on durations that it cannot hold
abbrev pub stale_bound : (ℕ → Option ℕ) → ℕ → ℕ
stale_bound from_std stale_after = elim (from_std stale_after) [ some d ↦ d | none ↦ 30000000000 ]

-- younger than the bound; a snapshot from the future is
abbrev pub is_fresh : ℕ → ℕ → ℕ → Bool
is_fresh stale now timestamp = ltb now (timestamp + stale)

abbrev pub any_up : PgpoolProbe → Bool
any_up p = p.reachable && any (λ (b : BackendStatus). backend_is_up b.status) p.backends

unfoldable pub compute_health :
    (ℕ → Option ℕ) → Option HealthSnapshot → ℕ → ℕ → StatusCode × HealthBody
compute_health from_std none stale_after now = (service_unavailable, empty_body)
compute_health from_std (some s) stale_after now =
    let is_ready = is_fresh (stale_bound from_std stale_after) now s.timestamp && any_up s.pgpool in
    (
      if is_ready then status_ok else service_unavailable,
      record {
        ready = is_ready;
        snapshot_age_ms = (now - s.timestamp) / 1000000;
        role = s.role;
        postgres = s.postgres;
        pgpool = s.pgpool;
        replication = s.replication;
        sync_commit = s.sync_commit;
        follow_wedged = s.follow_wedged;
      },
    )

unfoldable pub handle_healthz :
    (ℕ → Option ℕ) → Bool → Option HealthSnapshot → ℕ → ℕ → StatusCode × HealthBody
unfolding compute_health
handle_healthz from_std startup_verified snap stale_after now =
    if startup_verified
    then compute_health from_std snap stale_after now
    else (service_unavailable, empty_body)
