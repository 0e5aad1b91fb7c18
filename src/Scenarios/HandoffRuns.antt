-- ===== src/Scenarios/HandoffRuns.antt =====
-- The handoff, the failover hook and the rebasing of a standby at concrete inputs.
use pg_agent_rs.Prelude.{
  ℕ, pos, String, ◌≡◌, ◌⊎◌, refl, Bool, true, false, none, some, List, [], ◌∷◌, Result, ok, err,
}
use pg_agent_rs.Inflight.{
  in_progress, is_terminal, handoff, follow_primary, handoff_op, OpId, made, InflightOp,
}
use pg_agent_rs.Inflight.Journal.{Io, update_phase, get, write_atomic, complete}
use pg_agent_rs.Pool.{NodeConfig, NodePool, NodeRef}
use pg_agent_rs.ReplayMarkers.{failover_marker, ReplayFile, marker_file, SweepIo, sweep}
use pg_agent_rs.Orchestration.{
  Action, configure, drop_slot, start, promote, create_slot, stop, attach_node, dial, rewind,
  checkpoint, Env, World, call, try, journal_phase, journal_complete,
}
use pg_agent_rs.Orchestration.Rules.{Ends}
use pg_agent_rs.Handoff.{run_handoff_from_phase}
use pg_agent_rs.Handoff.Rungs.{Safe}
use pg_agent_rs.Handoff.Attempts.{Attempts, none_yet, then_another, climbs, resumes, Attempts-Safe}
use pg_agent_rs.Handoff.Resume.{resume_handoff}
use pg_agent_rs.Handoff.Request.{cluster_handoff}
use pg_agent_rs.Handoff.Accepted.{Declined, Accepted}
use pg_agent_rs.Handoff.Whole.{cluster_handoff-Accepted}
use pg_agent_rs.Failover.{FailoverRequest, failover}
use pg_agent_rs.Failover.Drops.{Spared, Dropped, failover-Drops}
use pg_agent_rs.Failover.Refired.{Succeeded, failover-Again}
use pg_agent_rs.FollowPrimary.{drive_follow_primary}
use pg_agent_rs.FollowPrimary.Hook.{FollowPrimaryRequest}
use pg_agent_rs.FollowPrimary.Resume.{resume_follow_primary}
use pg_agent_rs.FollowPrimary.Resumed.{Named, Resumed, resume_follow_primary-Resumed}
use pg_agent_rs.FollowPrimary.Slot.{Kept, GivenUp, drive_follow_primary-Slot}

abbrev node_a : NodeConfig
node_a = record { id = 1; hostname = "a" }

abbrev node_b : NodeConfig
node_b = record { id = 2; hostname = "b" }

abbrev two_nodes : NodePool
two_nodes = record { members = node_a ∷ node_b ∷ []; local_node_id = pos 1 }

abbrev op_id : OpId
op_id = made 0 handoff_op 0

abbrev op_in : String → ℕ → InflightOp
op_in phase at = record {
  id = op_id;
  status = in_progress;
  payload = handoff 1 2 "b" "node1" false;
  phase = phase;
  started_at = 0;
  updated_at = at;
  completed_at = none;
  discharged_at = none;
  last_error = none;
}

abbrev world_of : List InflightOp → World
world_of ops = record {
  journal = record { ops = ops; seq = 1; retention = 100 };
  queue = record { files = []; retention = 100; seq = 0 };
  replay = [];
  log = [];
}

abbrev works : Action → Result String (Unit {0})
works a = ok tt

abbrev no_configure : Action → Result String (Unit {0})
no_configure (configure n) = err "no space left"
no_configure _ = ok tt

abbrev no_drop : Action → Result String (Unit {0})
no_drop (drop_slot n s) = err "slot is active"
no_drop a = ok tt

abbrev disk : Io
disk = record { reads = true; skips = λ id. false; writes = true }

-- the calls' answers, and whether the target is a standby
abbrev env_of : (Action → Result String (Unit {0})) → Bool → Env
env_of act standby = record {
  act = act;
  status = λ n. ok (record {
    is_running = true;
    is_postgres_running = true;
    is_in_recovery = standby;
    current_wal_lsn = 70;
    streaming = false;
  });
  server_running = ok false;
  in_recovery = ok false;
  wal_lsn = ok 90;
  io = λ phase. disk;
  clock = λ phase. 5;
  queue_io = disk;
  queue_clock = 5;
  replay_io = disk;
  replay_clock = 5;
  slot_active = ok false;
}

-- the first run stops where the standby cannot be configured
abbrev half_way : World
half_way =
    (run_handoff_from_phase (env_of no_configure true) op_id 1 2 "preflight_done"
      (world_of (op_in "preflight_done" 0 ∷ []))).1

two-Attempts :
    Attempts two_nodes 1 2 op_id
      (world_of (op_in "preflight_done" 0 ∷ []))
      (resume_handoff two_nodes
        (env_of works false)
        (op_in "data_copied" 5)
        (handoff 1 2 "b" "node1" false)
        half_way).1
unfolding run_handoff_from_phase resume_handoff journal_phase journal_complete call try update_phase
    get is_terminal write_atomic complete
two-Attempts =
    then_another
      (then_another none_yet (climbs (env_of no_configure true) (op_in "preflight_done" 0) refl))
      (resumes (env_of works false) (op_in "data_copied" 5) refl)

Attempts-Safe_example :
    Safe 1 2
      (resume_handoff two_nodes
        (env_of works false)
        (op_in "data_copied" 5)
        (handoff 1 2 "b" "node1" false)
        half_way).1.log
Attempts-Safe_example =
    Attempts-Safe two_nodes 1 2 op_id (world_of (op_in "preflight_done" 0 ∷ []))
      (resume_handoff two_nodes (env_of works false) (op_in "data_copied" 5)
        (handoff 1 2 "b" "node1" false) half_way).1
      (op_in "preflight_done" 0) refl refl refl (refl, refl) two-Attempts

-- the resumed run reaches the end
resumed_start :
    (resume_handoff two_nodes
      (env_of works false)
      (op_in "data_copied" 5)
      (handoff 1 2 "b" "node1" false)
      half_way).1.log
    ≡ (attach_node 1, true)
      ∷ (start 1, true)
      ∷ (configure 1, true)
      ∷ (dial 2, true)
      ∷ (configure 1, false)
      ∷ (rewind 1, true)
      ∷ (stop 1, true)
      ∷ (create_slot 2 1, true)
      ∷ (promote 2, true)
      ∷ (checkpoint 1, true)
      ∷ []
unfolding run_handoff_from_phase resume_handoff journal_phase journal_complete call try update_phase
    get is_terminal write_atomic complete
resumed_start = refl

abbrev slot_text : ℕ → String
slot_text n = "node"

cluster_handoff-Accepted_example :
    Declined
      (world_of [])
      (cluster_handoff slot_text two_nodes (env_of works true) 2 false (world_of [])).1
    ⊎ ((id : OpId) × (local : NodeConfig) × (target : NodeConfig) × (begun : World) × Accepted
          slot_text two_nodes
          (env_of works true)
          2
          false
          (world_of [])
          id
          local
          target
          begun
        × Safe local.id target.id
            (cluster_handoff slot_text two_nodes (env_of works true) 2 false (world_of [])).1.log)
cluster_handoff-Accepted_example =
    cluster_handoff-Accepted slot_text two_nodes (env_of works true) 2 false (world_of []) refl

abbrev ref_to : ℕ → String → NodeRef
ref_to n host = record { id = pos n; hostname = host }

abbrev standby_down_request : FailoverRequest
standby_down_request = record {
  detached = some (ref_to 2 "b");
  new_main = some (ref_to 1 "a");
  old_primary = some (ref_to 1 "a");
}

abbrev no_order : OpId → OpId → Bool
no_order a b = true

failover-Drops_example :
    Spared
      (world_of [])
      (failover no_order 1 two_nodes (env_of no_drop true) standby_down_request (world_of [])).1
    ⊎ Dropped no_order 1 two_nodes
        (env_of no_drop true)
        standby_down_request
        (world_of [])
        (failover no_order 1 two_nodes (env_of no_drop true) standby_down_request (world_of [])).1
failover-Drops_example =
    failover-Drops no_order 1 two_nodes (env_of no_drop true) standby_down_request (world_of [])

failover-Again_example :
    Succeeded
      (failover no_order 1 two_nodes
        (env_of works true)
        standby_down_request
        (failover no_order 1 two_nodes
          (env_of no_drop true)
          standby_down_request
          (world_of [])).1).0
    × ((failover no_order 1 two_nodes
          (env_of works true)
          standby_down_request
          (failover no_order 1 two_nodes
            (env_of no_drop true)
            standby_down_request
            (world_of [])).1).1
        ≡ (failover no_order 1 two_nodes
            (env_of no_drop true)
            standby_down_request
            (world_of [])).1)
unfolding failover
failover-Again_example =
    failover-Again no_order 1 two_nodes (env_of works true) refl (env_of no_drop true)
      standby_down_request (world_of []) refl

drive_follow_primary-Slot_example :
    Ends
      (λ u v. Kept (env_of no_configure true) op_id node_b node_a (world_of []).queue v)
      (λ v.
        Kept (env_of no_configure true) op_id node_b node_a (world_of []).queue v
        ⊎ GivenUp (env_of no_configure true) op_id node_b node_a (world_of []).queue v)
      (drive_follow_primary
        (env_of no_configure true)
        op_id
        node_b
        node_a
        "queued"
        (world_of (op_in "queued" 0 ∷ [])))
drive_follow_primary-Slot_example =
    drive_follow_primary-Slot (env_of no_configure true) op_id node_b node_a "queued"
      (world_of (op_in "queued" 0 ∷ [])) refl

abbrev sweep_io : SweepIo
sweep_io = record { opens = true; entries = 3; reads_file = λ n. true; removes_file = λ n. true }

abbrev old_marker : ReplayFile
old_marker = marker_file (failover_marker (pos 2) (pos 1) (pos 1)) 0

abbrev new_marker : ReplayFile
new_marker = marker_file (failover_marker (pos 3) (pos 1) (pos 1)) 60

-- the fresh one stays, the old one is removed
sweeps_old : sweep sweep_io 50 100 (old_marker ∷ new_marker ∷ []) ≡ new_marker ∷ []
unfolding sweep
sweeps_old = refl

abbrev follow_op : InflightOp
follow_op = record (op_in "queued" 0) { payload = follow_primary 2 "b" 1 "a" }

resume_follow_primary-Resumed_example :
    ((resume_follow_primary two_nodes
        (env_of works true)
        follow_op
        (follow_primary 2 "b" 1 "a")
        (world_of (follow_op ∷ []))).1
      ≡ world_of (follow_op ∷ []))
    ⊎ ((d : NodeConfig) × (n : NodeConfig) × Named two_nodes 2 "b" d
        × Named two_nodes 1 "a" n
        × Resumed (env_of works true) op_id d n (world_of (follow_op ∷ [])).queue (
            resume_follow_primary two_nodes
              (env_of works true)
              follow_op
              (follow_primary 2 "b" 1 "a")
              (world_of (follow_op ∷ []))))
resume_follow_primary-Resumed_example =
    resume_follow_primary-Resumed two_nodes (env_of works true) follow_op 2 1 "b" "a"
      (world_of (follow_op ∷ [])) refl

abbrev follow_request : FollowPrimaryRequest
follow_request = record { detached = some (ref_to 2 "b"); new_primary = some (ref_to 1 "a") }
