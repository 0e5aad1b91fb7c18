-- ===== src/Scenarios/HealthRuns.antt =====
-- The health endpoint and the loading of a configuration on concrete inputs.
use pg_agent_rs.Prelude.{
  ℤ, ℕ, pos, negsuc, ◌+◌, ◌*◌, ◌^◌, ◌≤◌, ◌<◌, ◌≡◌, ◌≢◌, ◌↔◌, refl, true, false, Option, none, some,
  [], ◌∷◌, ◌++◌, arith, ok, err,
}
use pg_agent_rs.Pcp.{NodeInfo}
use pg_agent_rs.Healthz.{
  ProbeInput, run, build_snapshot, handle_healthz, status_ok, service_unavailable, stale_bound,
  blocked,
}
use pg_agent_rs.Healthz.Readiness.{Routes, handle_healthz_iff}
use pg_agent_rs.Config.{
  missing, broken, holds, RaftConfig, Config, panicked, id_file_broken, effective_loop_wait,
  effective_retry_timeout, duration_end, validate_raft,
}
use pg_agent_rs.Config.Timing.{validate_raft_panics}
use pg_agent_rs.Config.Load.{validate, load}
use pg_agent_rs.Config.Accepted.{Acceptable, validate_iff}
use pg_agent_rs.Config.Loaded.{spoken, load-Acceptable}

abbrev row : NodeInfo
row = record {
  id = 1;
  hostname = "node1";
  status_code = 1;
  status_name = "waiting";
  role = "primary";
  replication_state = "none";
}

-- a primary whose commits hang, and whose pgpool routes to it
abbrev round : ProbeInput
round = record {
  is_in_recovery = some (ok false);
  replication_lag = none;
  node_info_all = some (ok (row ∷ []));
  setting = some (ok "ANY 1 (node2)");
  connected = some (ok []);
  wedged = false;
  ended = 100;
}

-- an earlier round that reached nothing
abbrev lost_round : ProbeInput
lost_round = record round { is_in_recovery = none; node_info_all = none; ended = 10 }

abbrev keeps : ℕ → Option ℕ
keeps n = some n

handle_healthz_iff_example :
    ((handle_healthz keeps true (run ((lost_round ∷ []) ++ (round ∷ [])) none) 30 129).0
      ≡ status_ok)
    ↔ ((true ≡ true) × (129 < 100 + stale_bound keeps 30) × Routes round)
handle_healthz_iff_example = handle_healthz_iff keeps true (lost_round ∷ []) round none 30 129

serves : (handle_healthz keeps true (run (lost_round ∷ round ∷ []) none) 30 129).0 ≡ status_ok
unfolding handle_healthz run
serves = refl

stale :
    (handle_healthz keeps true (run (lost_round ∷ round ∷ []) none) 30 130).0 ≡ service_unavailable
unfolding handle_healthz run
stale = refl

pages : (build_snapshot round).sync_commit ≡ blocked
unfolding build_snapshot
pages = refl

abbrev default_timing : RaftConfig
default_timing = record {
  obsolete_enabled = some true;
  loop_wait_secs = none;
  retry_timeout_secs = none;
  leader_ttl_secs = some 30;
  election_timeout_ms = none;
}

abbrev parsed : Config
parsed = record {
  node_id = none;
  node_id_file = none;
  pool = record { id = pos 0; hostname = "node0" } ∷ record { id = pos 1; hostname = "node1" } ∷ [];
  sslmode = some "verify-ca";
  raft = default_timing;
  local_node_id = negsuc 0;
}

small_ttl : (n : ℕ) → some 30 ≡ some n → n < 2 ^ 64
small_ttl n e = let q : 30 ≡ n = cc e in rw (← q) (omega arith)

-- 2^63 seconds of retries
abbrev huge : RaftConfig
huge = record default_timing { retry_timeout_secs = some (2 ^ 63) }

validate_raft_panics_example : (validate_raft huge ≡ err panicked) ↔ (
    (huge.obsolete_enabled ≢ some false)
    × (duration_end ≤ effective_loop_wait huge + 2 * effective_retry_timeout huge))
validate_raft_panics_example = validate_raft_panics huge

panics : validate_raft huge ≡ err panicked
unfolding validate_raft
panics = refl

abbrev resolved_config : Config
resolved_config = record parsed { local_node_id = pos 1 }

validate_iff_example : (validate resolved_config ≡ ok tt) ↔ Acceptable resolved_config
validate_iff_example = validate_iff resolved_config small_ttl

accepts : validate resolved_config ≡ ok tt
unfolding validate
accepts = refl

loads : load (missing ∷ holds (pos 1) ∷ []) (some "node0") parsed ≡ ok resolved_config
unfolding load
loads = refl

refuses : load (broken ∷ holds (pos 1) ∷ []) (some "node0") parsed ≡ err id_file_broken
unfolding load
refuses = refl

load-Acceptable_example :
    ((id : ℤ) × (spoken (missing ∷ holds (pos 1) ∷ []) (some "node0") parsed ≡ some id)
      × (resolved_config ≡ record parsed { local_node_id = id }))
    × Acceptable resolved_config
load-Acceptable_example =
    load-Acceptable (missing ∷ holds (pos 1) ∷ []) (some "node0") parsed resolved_config small_ttl
      loads
