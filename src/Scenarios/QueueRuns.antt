-- ===== src/Scenarios/QueueRuns.antt =====
-- The queue of cleanups on concrete intents.
use pg_agent_rs.Prelude.{
  ◌≡◌, refl, arith, true, false, none, some, List, [], ◌∷◌, pos, ok, err, inl, inr, ap, In, lift,
}
use pg_agent_rs.Inflight.{target_node_id, InflightOp, done, recovery, recovery_op, in_progress}
use pg_agent_rs.Inflight.Journal.{seen, FileInflightOpStore}
use pg_agent_rs.Inflight.Owner.{owns, owner_of_slot_observing, owner_of_node, sort_ops, latest}
use pg_agent_rs.Maintenance.{
  MaintenanceIntent, node_slot, drop_slot_cleanup, pending, made, intent, file_id,
  node_id_from_slot,
}
use pg_agent_rs.Maintenance.Queue.{get, read_file}
use pg_agent_rs.Maintenance.Backoff.{backoff, doubled}
use pg_agent_rs.Pool.{NodePool, node_by_hostname, is_local}
use pg_agent_rs.Maintenance.Stored.{working}
use pg_agent_rs.Maintenance.Worker.{
  World, Agent, on_this_node, cross_op_grace, process_drop_slot, drop_resolved, unless_owned,
  issue_drop,
}
use pg_agent_rs.Maintenance.Budget.{Over, passes, passes-Over}
use pg_agent_rs.Maintenance.Guard.{process_drop_slot-guarded}

abbrev two_nodes : NodePool
two_nodes = record {
  members = record { id = 1; hostname = "node1" } ∷ record { id = 2; hostname = "node2" } ∷ [];
  local_node_id = pos 1;
}

-- the slot of node 2, on this node
abbrev orphan : MaintenanceIntent
orphan = record {
  id = made 7 0;
  status = pending;
  payload = drop_slot_cleanup (node_slot 2) "node1" "rpc_error" "boom";
  attempts = 0;
  last_error = none;
  created_at = 7;
  updated_at = 7;
  next_retry_at = none;
}

abbrev no_ops : FileInflightOpStore
no_ops = record { ops = []; seq = 0; retention = 100 }

abbrev queued : Agent
queued = record {
  queue = record { files = intent orphan ∷ []; retention = 100; seq = 1 };
  journal = no_ops;
  drops = [];
}

-- the database refuses the drop
abbrev refusing : World
refusing = record {
  now = 50;
  queue_io = working;
  journal_io = working;
  slot_active = ok false;
  local_answer = some (err "refused");
  client = none;
  peer_answer = none;
}

backoffs :
    (backoff 1 ≡ 30)
    × (backoff 2 ≡ 60)
    × (backoff 3 ≡ 120)
    × (backoff 4 ≡ 240)
    × (backoff 5 ≡ 480)
    × (backoff 6 ≡ 600)
    × (backoff 100 ≡ 600)
unfolding backoff doubled
backoffs = (refl, refl, refl, refl, refl, refl, refl)

stored : get working orphan.id queued.queue ≡ ok orphan
unfolding get read_file file_id
stored = refl

abbrev five : List World
five = refusing ∷ refusing ∷ refusing ∷ refusing ∷ refusing ∷ []

passes-Over_example :
    (j : MaintenanceIntent) × (get working orphan.id
        (passes (λ a b. true) two_nodes orphan.id five queued).queue
      ≡ ok j)
    × Over j
passes-Over_example =
    passes-Over (λ a b. true) two_nodes orphan.id five queued orphan
      (refl, (refl, (refl, (refl, (refl, tt))))) stored (omega arith) (omega arith)

-- node 2 is being rebuilt
abbrev rebuilding : InflightOp
rebuilding = record {
  id = pg_agent_rs.Inflight.made 9 recovery_op 0;
  status = in_progress;
  payload = recovery 1 2 "node2" "node2";
  phase = "basebackup";
  started_at = 9;
  updated_at = 9;
  completed_at = none;
  discharged_at = none;
  last_error = none;
}

abbrev owned : Agent
owned = record queued { journal = record no_ops { ops = rebuilding ∷ [] } }

only_running :
    (o : InflightOp) → In o owned.journal.ops → o.status ≡ done → owns 50 cross_op_grace 2 o ≡ false
only_running o (inl p) d = absurd (cc (ap (λ (x : InflightOp). x.status) p, d))
only_running o (inr (lift m)) d = absurd m

process_drop_slot-guarded_example :
    (process_drop_slot (λ a b. true) two_nodes refusing orphan (node_slot 2) "node1" owned).1.drops
    ≡ owned.drops
unfolding target_node_id seen
process_drop_slot-guarded_example =
    process_drop_slot-guarded (λ a b. true) two_nodes refusing orphan 2 "node1" owned refl
      ((rebuilding, inl refl, refl, refl), only_running)

-- without the recovery the drop is issued, and its refusal counts as the first attempt
unguarded :
    (process_drop_slot (λ a b. true) two_nodes refusing orphan (node_slot 2) "node1" queued).1.drops
    ≡ on_this_node (node_slot 2) ∷ []
unfolding process_drop_slot node_by_hostname drop_resolved owner_of_slot_observing node_id_from_slot
    owner_of_node sort_ops latest unless_owned issue_drop is_local
unguarded = refl
