-- ===== src/FollowPrimary/Resume.antt =====
-- The resumption of a crashed op (`resume_inflight_op` and `resume_follow_primary` of
-- crates/pg-agent-core/src/localserver.rs).
use text.Mathlib.Text.{◌==◌}
use pg_agent_rs.Prelude.{String, true, false, Option, none, some, Result, ok, err, if◌then◌else◌}
use pg_agent_rs.Inflight.{
  in_progress, done, abandoned, InflightPayload, handoff, follow_primary, OpId, no_id, made,
  InflightOp,
}
use pg_agent_rs.Inflight.Journal.{JournalError, get}
use pg_agent_rs.Pool.{NodeConfig, NodePool, node_by_id}
use pg_agent_rs.Orchestration.{
  Env, Early, OpResult, Task, pure, fail, reply, ◌>>=◌, ◌>>◌, journal_complete, journal_abandon,
  invalid_argument, failed_precondition, not_found, topology_changed, target_not_in_pool,
  not_resumable, followed, driver_failed, op_ended,
}
use pg_agent_rs.Handoff.Resume.{resume_handoff}
use pg_agent_rs.FollowPrimary.{drive_follow_primary}

abbrev pub named : String → Option NodeConfig → Task NodeConfig
named host none = reply false target_not_in_pool
named host (some n) = if n.hostname == host then pure n else reply false topology_changed

abbrev pub concluded : Env → OpId → Result Early (Unit {0}) → Task OpResult
concluded env id (ok u) = journal_complete env id >> pure (record { ok = true; message = followed })
concluded env id (err e) = journal_abandon env id "driver failed" >> reply false driver_failed

unfoldable pub drive_and_conclude : Env → OpId → String → NodeConfig → NodeConfig → Task OpResult
unfolding drive_follow_primary journal_complete journal_abandon ◌>>=◌
drive_and_conclude env id phase detached new_primary w =
    let (r, w') = drive_follow_primary env id detached new_primary phase w in concluded env id r w'

-- both nodes must be in the pool under the names that were recorded
unfoldable pub resume_follow_primary : NodePool → Env → InflightOp → InflightPayload → Task OpResult
unfolding node_by_id drive_and_conclude ◌>>=◌
resume_follow_primary pool env op (follow_primary d host n new_host) = do
  detached ← named host (node_by_id pool d)
  new_primary ← named new_host (node_by_id pool n)
  drive_and_conclude env op.id op.phase detached new_primary
resume_follow_primary pool env op _ = fail failed_precondition

abbrev pub resume_payload : NodePool → Env → InflightOp → InflightPayload → Task OpResult
resume_payload pool env op (handoff a b c d e) = resume_handoff pool env op (handoff a b c d e)
resume_payload pool env op (follow_primary a b c d) =
    resume_follow_primary pool env op (follow_primary a b c d)
resume_payload pool env op _ = reply false not_resumable

abbrev pub resume_found : NodePool → Env → Result JournalError InflightOp → Task OpResult
resume_found pool env (err e) = fail not_found
resume_found pool env (ok op) = elim op.status [
  | in_progress ↦ resume_payload pool env op op.payload
  | done ↦ reply false op_ended
  | abandoned ↦ reply false op_ended
]

-- `get` refuses an empty id as well, after the same test
unfoldable pub resume_inflight_op : NodePool → Env → OpId → Task OpResult
unfolding get resume_handoff resume_follow_primary
resume_inflight_op pool env no_id w = fail invalid_argument w
resume_inflight_op pool env (made a n i) w =
    resume_found pool env (get (env.io "get") (made a n i) w.journal) w
