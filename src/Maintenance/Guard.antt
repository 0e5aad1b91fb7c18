-- ===== src/Maintenance/Guard.antt =====
-- The ownership guard of the worker (`process_drop_slot` of
-- crates/pg-agent-core/src/maintenance.rs).
use pg_agent_rs.Prelude.{
  ℕ, String, ◌≡◌, refl, Bool, true, false, Option, none, some, if◌then◌else◌, ok,
}
use pg_agent_rs.Inflight.{OpId}
use pg_agent_rs.Inflight.Journal.{seen}
use pg_agent_rs.Inflight.Owner.Found.{Busy, owner_of_slot-Busy}
use pg_agent_rs.Maintenance.{node_slot, node_id_from_slot, MaintenanceIntent}
use pg_agent_rs.Pool.{NodeConfig, NodePool, node_by_hostname, is_local}
use pg_agent_rs.Maintenance.Worker.{
  World, Agent, cross_op_grace, drop_resolved, process_drop_slot, unless_owned,
}

drop_resolved-drops :
    (op_leb : OpId → OpId → Bool) (pool : NodePool) (w : World) (i : MaintenanceIntent) (node : ℕ)
    (host : String) (at : Option NodeConfig) (a : Agent)
    → w.journal_io.reads ≡ true
    → Busy w.now cross_op_grace node (seen w.journal_io a.journal.ops)
    → (drop_resolved op_leb pool w i (node_slot node) host at a).1.drops ≡ a.drops
unfolding drop_resolved node_id_from_slot unless_owned
drop_resolved-drops op_leb pool w i node host none a r busy = refl
drop_resolved-drops op_leb pool w i node host (some n) a r busy =
    let (o, e) =
      owner_of_slot-Busy op_leb w.journal_io w.now node cross_op_grace
        (if is_local pool n then w.slot_active else ok false) a.journal r busy in
    rw e refl

-- A queued drop never takes the slot of a node that an orchestration is working on: while the journal
-- is read, with a file of an op in progress on that node that can be read, and no completed op that is
-- read is still in its grace window on that node, processing the intent issues no drop, on this node or on a peer.
pub process_drop_slot-guarded :
    (op_leb : OpId → OpId → Bool) (pool : NodePool) (w : World) (i : MaintenanceIntent) (node : ℕ)
    (host : String) (a : Agent)
    → w.journal_io.reads ≡ true
    → Busy w.now cross_op_grace node (seen w.journal_io a.journal.ops)
    → (process_drop_slot op_leb pool w i (node_slot node) host a).1.drops ≡ a.drops
unfolding process_drop_slot
process_drop_slot-guarded op_leb pool w i node host a r busy =
    drop_resolved-drops op_leb pool w i node host (node_by_hostname pool host) a r busy
