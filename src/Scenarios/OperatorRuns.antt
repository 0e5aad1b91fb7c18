-- ===== src/Scenarios/OperatorRuns.antt =====
-- The operator's commands and the peer server's guarded handlers at concrete inputs.
use mathlib.Core.Path.{subst}
use pg_agent_rs.Prelude.{
  ℕ, ◌*◌, ltb, pos, String, ◌≡◌, ◌↔◌, ap, arith, refl, true, false, none, some, [], ◌∷◌, inl, inr,
  lift, In, Result, ok, err,
}
use pg_agent_rs.Inflight.{
  op_name, is_terminal, target_node_id, in_progress, recovery_op, recovery, done, made, InflightOp,
}
use pg_agent_rs.Inflight.Journal.{seen, Io, FileInflightOpStore, complete, get, update_phase}
use pg_agent_rs.Inflight.Owner.{owns}
use pg_agent_rs.Consensus.{empty_state}
use pg_agent_rs.Store.InMemory.{InMemoryConsensusStore, read_state, try_takeover}
use pg_agent_rs.Store.InMemory.Refinement.{in_memory, in_memory-IsLinearizable}
use pg_agent_rs.Pool.{NodeConfig, NodePool, local_node, node_by_id, node_by_hostname, resolve_node}
use pg_agent_rs.Pcp.{NodeInfo}
use pg_agent_rs.Maintenance.{node_slot}
use pg_agent_rs.Maintenance.Worker.{cross_op_grace}
use pg_agent_rs.Orchestration.{
  Action, start, dial, stop, checkpoint, basebackup, configure, start_pgpool, attach_node,
  peer_attach, create_slot, create_role, Env, World,
}
use pg_agent_rs.Orchestration.Order.{InOrder}
use pg_agent_rs.Orchestration.Rules.{Ends}
use pg_agent_rs.Recovery.{ref_of, cluster_recover}
use pg_agent_rs.Recovery.Order.{Tidy}
use pg_agent_rs.Recovery.Gate.{Recovered, cluster_recover-Recovered}
use pg_agent_rs.ClusterInit.{chosen, cluster_init}
use pg_agent_rs.ClusterInit.Started.{Initialised, cluster_init-Initialised}
use pg_agent_rs.StartPrimary.{StartInput, claimed, cluster_start_primary}
use pg_agent_rs.StartPrimary.Asked.{MayAsk}
use pg_agent_rs.StartPrimary.Claimed.{Guarded, cluster_start_primary-Guarded}
use pg_agent_rs.PeerServer.{
  Patterns, Polls, BasebackupRequest, BasebackupAnswer, started, retained, peer_attach_node,
  peer_drop_slot, peer_basebackup,
}
use pg_agent_rs.PeerServer.Attached.{
  Attaches, PrimaryFirst, peer_attach_node-Attaches, peer_drop_slot-Busy,
}
use pg_agent_rs.PeerServer.Settled.{Answered, peer_basebackup-Answered}

abbrev node_a : NodeConfig
node_a = record { id = 1; hostname = "a" }

abbrev node_b : NodeConfig
node_b = record { id = 2; hostname = "b" }

abbrev two_nodes : NodePool
two_nodes = record { members = node_a ∷ node_b ∷ []; local_node_id = pos 1 }

abbrev no_ops : FileInflightOpStore
no_ops = record { ops = []; seq = 1; retention = 100 }

abbrev at_rest : World
at_rest = record {
  journal = no_ops;
  queue = record { files = []; retention = 100; seq = 0 };
  replay = [];
  log = [];
}

abbrev disk : Io
disk = record { reads = true; skips = λ id. false; writes = true }

abbrev works : Action → Result String (Unit {0})
works a = ok tt

abbrev no_start : Action → Result String (Unit {0})
no_start (start n) = err "exit status 1"
no_start a = ok tt

abbrev env_of : (Action → Result String (Unit {0})) → Env
env_of act = record {
  act = act;
  status = λ n. ok (record {
    is_running = true;
    is_postgres_running = true;
    is_in_recovery = true;
    current_wal_lsn = 70;
    streaming = false;
  });
  server_running = ok false;
  in_recovery = ok false;
  wal_lsn = ok 90;
  io = λ phase. disk;
  clock = λ phase. 5;
  queue_io = disk;
  queue_clock = 5;
  replay_io = disk;
  replay_clock = 5;
  slot_active = ok false;
}

abbrev slot_text : ℕ → String
slot_text n = "node2"

names_itself :
    (n : NodeConfig) → node_by_id two_nodes 2 ≡ some n → resolve_node two_nodes (ref_of n) ≡ some n
unfolding node_by_id resolve_node node_by_hostname
names_itself n h =
    let e : node_b ≡ n = cc h in
    subst (λ (x : NodeConfig). resolve_node two_nodes (ref_of x) ≡ some x) e refl

cluster_recover-Recovered_example : Ends (Recovered two_nodes 2) Tidy (
    cluster_recover slot_text two_nodes
      (env_of works)
      (env_of works)
      (env_of no_start)
      2
      true
      at_rest)
cluster_recover-Recovered_example =
    cluster_recover-Recovered slot_text two_nodes (env_of works) (env_of works) (env_of no_start) 2
      true at_rest names_itself refl

abbrev vacant : InMemoryConsensusStore
vacant = record { state = empty_state; fail_reads = 0; fail_writes = 0; unavailable = false }

cluster_init-Initialised_example :
    Ends
      (Initialised in_memory
        (λ m. m.state)
        in_memory-IsLinearizable
        7
        (some (ok tt))
        vacant
        two_nodes
        (env_of works)
        none)
      Tidy
      (cluster_init in_memory 7 (some (ok tt)) vacant two_nodes (env_of works) none at_rest)
cluster_init-Initialised_example =
    cluster_init-Initialised in_memory (λ m. m.state) in_memory-IsLinearizable 7 (some (ok tt))
      vacant two_nodes (env_of works) none at_rest refl

-- a stopped primary, with a peer on the same timeline
abbrev stopped : StartInput
stopped = record {
  standby_signal = false;
  pg_version = true;
  has_consensus = true;
  control_timeline = ok (pos 3);
  statuses =
      ok (record {
        is_postgres_running = true;
        is_in_recovery = true;
        replication_state = "";
        timeline_id = pos 3;
        last_flush_lsn = 50;
        peer_primary_seen_age_ms = [];
      })
      ∷ [];
  start_postgres = ok tt;
  is_in_recovery = ok false;
  now = 7;
  force = false;
}

cluster_start_primary-Guarded_example :
    (((cluster_start_primary in_memory stopped two_nodes vacant).asked_start ≡ true)
      ↔ MayAsk in_memory stopped 1 (in_memory.read_state vacant).0)
    × Guarded in_memory
        (λ m. m.state)
        in_memory-IsLinearizable
        stopped
        1
        empty_state
        (cluster_start_primary in_memory stopped two_nodes vacant)
unfolding local_node
cluster_start_primary-Guarded_example =
    cluster_start_primary-Guarded in_memory (λ m. m.state) in_memory-IsLinearizable stopped
      two_nodes node_a vacant refl

abbrev row : ℕ → ℕ → NodeInfo
row n code = record {
  id = n;
  hostname = "";
  status_code = code;
  status_name = "";
  role = "";
  replication_state = "";
}

-- both backends are down
peer_attach_node-Attaches_example :
    Ends
      (Attaches (row 1 3 ∷ row 2 3 ∷ []) 2 1)
      (InOrder (PrimaryFirst (row 1 3 ∷ row 2 3 ∷ []) 2 1))
      (peer_attach_node (env_of works) 2 1 (ok (row 1 3 ∷ row 2 3 ∷ [])) at_rest)
peer_attach_node-Attaches_example =
    peer_attach_node-Attaches (row 1 3 ∷ row 2 3 ∷ []) 2 1 (env_of works) at_rest refl

abbrev any_text : Patterns
any_text = record { host = λ s. true; user = λ s. true; slot = λ s. true }

-- node 2 is being rebuilt
abbrev rebuilding : InflightOp
rebuilding = record {
  id = made 9 recovery_op 0;
  status = in_progress;
  payload = recovery 1 2 "b" "node2";
  phase = "started";
  started_at = 9;
  updated_at = 9;
  completed_at = none;
  discharged_at = none;
  last_error = none;
}

abbrev owned : FileInflightOpStore
owned = record no_ops { ops = rebuilding ∷ [] }

only_running :
    (o : InflightOp) → In o owned.ops → o.status ≡ done → owns 50 cross_op_grace 2 o ≡ false
only_running o (inl p) d = absurd (cc (ap (λ (x : InflightOp). x.status) p, d))
only_running o (inr (lift m)) d = absurd m

peer_drop_slot-Busy_example :
    (o : InflightOp) × (peer_drop_slot any_text
        (λ a b. true)
        disk
        50
        (ok true)
        (ok tt)
        (node_slot 2)
        owned
      ≡ (retained o, false, owned))
unfolding target_node_id seen
peer_drop_slot-Busy_example =
    peer_drop_slot-Busy any_text (λ a b. true) disk 50 2 (ok true) (ok tt) owned refl
      ((rebuilding, inl refl, refl, refl), only_running)

-- settled at the third poll
abbrev quick : Polls
quick = record { settling = λ k. ok (ltb k 2); time = λ k. 250 * k }

abbrev copy : BasebackupRequest
copy = record { primary_host = "a"; primary_port = pos 5432; repl_user = "r"; slot_name = "node2" }

peer_basebackup-Answered_example :
    (a : BasebackupAnswer) × (peer_basebackup any_text 121 quick (ok false) 0 copy ≡ some a)
    × Answered any_text quick (ok false) 0 copy a
peer_basebackup-Answered_example =
    peer_basebackup-Answered any_text quick (ok false) 0 copy (omega arith) (λ j. omega arith)

-- the runs themselves
recover_log :
    (cluster_recover slot_text two_nodes
      (env_of works)
      (env_of works)
      (env_of works)
      2
      true
      at_rest).1.log
    ≡ (peer_attach 2 2, true)
      ∷ (dial 2, true)
      ∷ (attach_node 2, true)
      ∷ (start_pgpool 2, true)
      ∷ (start 2, true)
      ∷ (configure 2, true)
      ∷ (basebackup 2, true)
      ∷ (dial 2, true)
      ∷ (create_slot 1 2, true)
      ∷ (checkpoint 1, true)
      ∷ (stop 2, true)
      ∷ (dial 2, true)
      ∷ []
unfolding cluster_recover complete get update_phase op_name is_terminal
recover_log = refl

init_log :
    (cluster_init in_memory 7 (some (ok tt)) vacant two_nodes (env_of works) none at_rest).1.log
    ≡ (start 2, true)
      ∷ (configure 2, true)
      ∷ (basebackup 2, true)
      ∷ (stop 2, true)
      ∷ (dial 2, true)
      ∷ (create_slot 1 2, true)
      ∷ (create_role 1, true)
      ∷ []
unfolding cluster_init chosen
init_log = refl

start_answer : (cluster_start_primary in_memory stopped two_nodes vacant).answer ≡ claimed 1
unfolding cluster_start_primary read_state try_takeover
start_answer = refl

attach_log :
    (peer_attach_node (env_of works) 2 1 (ok (row 1 3 ∷ row 2 3 ∷ [])) at_rest).1.log
    ≡ (attach_node 2, true) ∷ (attach_node 1, true) ∷ []
unfolding peer_attach_node
attach_log = refl

copy_answer : peer_basebackup any_text 121 quick (ok false) 0 copy ≡ some started
unfolding peer_basebackup
copy_answer = refl
