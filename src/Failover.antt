-- ===== src/Failover.antt =====
-- pgpool's failover hook (`failover` of crates/pg-agent-core/src/localserver.rs) with the check of its
-- premise (crates/pg-agent-core/src/preconditions.rs). Where the check's time limit passes, its calls
-- count as failed.
pub mod Drops
pub mod Refired
use pg_agent_rs.Prelude.{
  ℕ, ◌*◌, ℤ, pos, negsuc, String, Bool, true, false, ◌&&◌, Option, none, some, List, Result, ok,
  err, if◌then◌else◌,
}
use pg_agent_rs.Inflight.{OpId, InflightOp}
use pg_agent_rs.Inflight.Owner.{owner_of_slot_observing}
use pg_agent_rs.Pool.{NodeConfig, NodePool, NodeRef, resolve_node}
use pg_agent_rs.Maintenance.Worker.{cross_op_grace}
use pg_agent_rs.Maintenance.Queue.{QueueError}
use pg_agent_rs.ReplayMarkers.{int_eqb, MarkerName, failover_marker, ReplayError, has, mark_done}
use pg_agent_rs.Orchestration.{
  dial, drop_slot, Env, PeerStatus, World, OpResult, Message, Task, pure, fail, reply, ◌>>=◌, ◌>>◌,
  try, queue_drop, marker_failed, invalid_argument, no_candidates, advisory, already_processed,
  node_owned, slot_dropped, cleanup_queued, cleanup_not_queued, standby_streams,
}

pub data PreconditionOutcome : Type 0 where
  pass refuse unverifiable : PreconditionOutcome

-- positive evidence alone refuses: the standby runs, in recovery, and streams
abbrev pub judge : Result String (Unit {0}) → Result String PeerStatus → PreconditionOutcome
judge (err e) s = unverifiable
judge (ok u) (err e) = unverifiable
judge (ok u) (ok s) =
    if s.is_postgres_running && s.is_in_recovery && s.streaming then refuse else pass

unfoldable pub validate_cluster_preconditions : Env → ℕ → Task PreconditionOutcome
unfolding try ◌>>=◌
validate_cluster_preconditions env n =
    try env (dial n) >>= (λ (r : Result String (Unit {0})). pure (judge r (env.status n)))

pub record FailoverRequest : Type 0 where
  pub detached : Option NodeRef
  pub new_main : Option NodeRef
  pub old_primary : Option NodeRef

abbrev pub given : {A : Type 0} → Option A → Task A
given none = fail invalid_argument
given (some a) = pure a

abbrev pub unless_no_candidates : ℤ → Task (Unit {0})
unless_no_candidates id = if int_eqb id (negsuc 0) then reply false no_candidates else pure tt

abbrev pub unless_primary : ℤ → ℤ → Task (Unit {0})
unless_primary detached old_primary =
    if int_eqb detached old_primary then reply true advisory else pure tt

abbrev pub unless_marked : Result ReplayError Bool → Task (Unit {0})
unless_marked (err e) = fail marker_failed
unless_marked (ok true) = reply true already_processed
unless_marked (ok false) = pure tt

unfoldable pub look_for : Env → MarkerName → Task (Unit {0})
unfolding has
look_for env name w = unless_marked (has env.replay_io name w.replay) w

abbrev pub ok_or_fail : Message → Result ReplayError (Unit {0}) → Task OpResult
ok_or_fail said (err e) = fail marker_failed
ok_or_fail said (ok u) = pure (record { ok = true; message = said })

unfoldable pub write_replay_marker_then_ok : Env → MarkerName → Message → Task OpResult
unfolding mark_done
write_replay_marker_then_ok env name said w =
    let (r, files) = mark_done env.replay_io env.replay_clock name w.replay in
    ok_or_fail said r (record w { replay = files })

-- which op owns the node? The order of the ids is `id_leb`.
unfoldable pub inflight_owner_of : (OpId → OpId → Bool) → Env → ℕ → Task (Option InflightOp)
unfolding owner_of_slot_observing
inflight_owner_of id_leb env node w =
    let (owner, j) =
      owner_of_slot_observing id_leb (env.io "discharge") (env.clock "discharge") (some node)
        cross_op_grace env.slot_active w.journal in
    pure owner (record w { journal = j })

abbrev pub unless_refused : PreconditionOutcome → Task (Unit {0})
unless_refused refuse = reply false standby_streams
unless_refused unverifiable = pure tt
unless_refused pass = pure tt

abbrev pub queue_message : Result QueueError (Unit {0}) → Message
queue_message (ok u) = cleanup_queued
queue_message (err e) = cleanup_not_queued

abbrev pub queued_unless_dropped :
    Env → NodeConfig → NodeConfig → Result String (Unit {0}) → Task Message
queued_unless_dropped env detached old_primary (ok u) = pure slot_dropped
queued_unless_dropped env detached old_primary (err why) =
    queue_drop env detached.id old_primary.hostname "standby_down_local_drop_error" why >>= λ r.
    pure (queue_message r)

-- on the agent's node `here`
module _ (here : ℕ) (env : Env) (name : MarkerName) (detached old_primary : NodeConfig) where
  unfoldable pub drop_standby_slot : Task OpResult
  unfolding validate_cluster_preconditions try queue_drop write_replay_marker_then_ok ◌>>=◌
  drop_standby_slot = do
    outcome ← validate_cluster_preconditions env detached.id
    unless_refused outcome
    dropped ← try env (drop_slot here detached.id)
    said ← queued_unless_dropped env detached old_primary dropped
    write_replay_marker_then_ok env name said

  abbrev pub unless_owned : Option InflightOp → Task OpResult
  unless_owned (some op) = write_replay_marker_then_ok env name node_owned
  unless_owned none = drop_standby_slot

-- the request's nodes are resolved, and the standby's slot is dropped unless an op owns it
unfoldable pub standby_down :
    (OpId → OpId → Bool)
    → ℕ
    → NodePool
    → Env
    → MarkerName
    → NodeRef
    → NodeRef
    → NodeRef
    → Task OpResult
unfolding resolve_node inflight_owner_of drop_standby_slot write_replay_marker_then_ok ◌>>=◌
standby_down id_leb here pool env name detached new_main old_primary = do
  d ← given (resolve_node pool detached)
  _ ← given (resolve_node pool new_main)
  o ← given (resolve_node pool old_primary)
  owner ← inflight_owner_of id_leb env d.id
  unless_owned here env name d o owner

unfoldable pub failover :
    (OpId → OpId → Bool) → ℕ → NodePool → Env → FailoverRequest → Task OpResult
unfolding look_for standby_down ◌>>=◌
failover id_leb here pool env req = do
  detached ← given req.detached
  new_main ← given req.new_main
  old_primary ← given req.old_primary
  unless_no_candidates new_main.id
  unless_primary detached.id old_primary.id
  look_for env (failover_marker detached.id new_main.id old_primary.id)
  standby_down id_leb here pool env (failover_marker detached.id new_main.id old_primary.id)
      detached new_main old_primary
