-- ===== src/FollowPrimary/Hook.antt =====
-- pgpool's hook after a failover (`follow_primary` of crates/pg-agent-core/src/localserver.rs): one
-- standby is rebased, with its slot on the agent's own node. No op of the journal belongs to it.
use pg_agent_rs.Prelude.{ℕ, Bool, true, false, Option}
use pg_agent_rs.Inflight.{no_id}
use pg_agent_rs.Pool.{NodeConfig, NodePool, NodeRef, resolve_node}
use pg_agent_rs.ReplayMarkers.{MarkerName, follow_primary_marker}
use pg_agent_rs.Orchestration.{
  dial, stop, checkpoint, create_slot, rewind, configure, start, attach_node, Env, OpResult, Task,
  reply, ◌>>=◌, ◌>>◌, try, call, ask, standby_stopped, followed,
}
use pg_agent_rs.Failover.{given, look_for, write_replay_marker_then_ok}
use pg_agent_rs.FollowPrimary.{guarded, clone_unless_rewound}

pub record FollowPrimaryRequest : Type 0 where
  pub detached : Option NodeRef
  pub new_primary : Option NodeRef

-- the agent's own node, which the cleanup names by the new primary's host
abbrev pub slot_host : ℕ → NodeConfig → NodeConfig
slot_host here new_primary = record { id = here; hostname = new_primary.hostname }

module _ (here : ℕ) (env : Env) (detached new_primary : NodeConfig) where
  unfoldable pub rebase_standby : Task (Unit {0})
  unfolding call try guarded ◌>>=◌
  rebase_standby = do
    call env (stop detached.id)
    call env (checkpoint here)
    call env (create_slot here detached.id)
    try env (rewind detached.id)
        >>= clone_unless_rewound env no_id detached (slot_host here new_primary)
    guarded env no_id detached (slot_host here new_primary) (configure detached.id)
        "follow_primary_configure_standby_failed"
    guarded env no_id detached (slot_host here new_primary) (start detached.id)
        "follow_primary_start_failed"
    call env (attach_node detached.id)

  abbrev pub rebase_if_running : MarkerName → Bool → Task OpResult
  rebase_if_running name false = reply true standby_stopped
  rebase_if_running name true = rebase_standby >> write_replay_marker_then_ok env name followed

unfoldable pub follow_primary_hook : ℕ → NodePool → Env → FollowPrimaryRequest → Task OpResult
unfolding look_for resolve_node call ask rebase_standby write_replay_marker_then_ok ◌>>=◌
follow_primary_hook here pool env req = do
  d ← given req.detached
  n ← given req.new_primary
  look_for env (follow_primary_marker d.id n.id)
  detached ← given (resolve_node pool d)
  new_primary ← given (resolve_node pool n)
  call env (dial detached.id)
  s ← ask env detached.id
  rebase_if_running here env detached new_primary (follow_primary_marker d.id n.id) s.is_running
