-- ===== src/RoleExec/Apply.antt =====
-- One decision executed (`RoleExecutor::apply` of crates/pg-agent-core/src/roleexec.rs).
use pg_agent_rs.Prelude.{true, false, none, List, [], ◌∷◌, ◌++◌}
use pg_agent_rs.Ha.{
  HaDecision, is_paused, store_unknown, would_demote, retained_lease, awaiting_promotion, following,
  would_follow_new_holder, holder_unhealthy, detaching_from_deposed, stood_down, took_over,
  lost_takeover,
}
use pg_agent_rs.RoleExec.{Action, stop_receiving, ExecConfig, ExecInput, RoleExecutor}
use pg_agent_rs.RoleExec.QuorumCommit.{ensure_quorum_commit}
use pg_agent_rs.RoleExec.Attach.{ensure_self_attached}
use pg_agent_rs.RoleExec.Promote.{ensure_primary}
use pg_agent_rs.RoleExec.Follow.{fence, converge_follow}

-- the steady state of a primary that holds the lease
unfoldable pub steady : ExecConfig → ExecInput → RoleExecutor → List Action × RoleExecutor
unfolding ensure_quorum_commit ensure_self_attached
steady cfg i x =
    let x1 = record x {
      confirmed_upstream = none;
      follow_stalled_since = none;
      follow_wedged = false;
    } in
    let (armed, x2) = ensure_quorum_commit cfg i false i.now x1 in
    let (probed, x3) = ensure_self_attached i.now x2 in (armed ++ probed, x3)

unfoldable pub apply :
    ExecConfig → ExecInput → HaDecision → RoleExecutor → List Action × RoleExecutor
unfolding ensure_primary fence converge_follow steady
apply cfg i (took_over term false) x = ensure_primary cfg i term i.state x
apply cfg i (awaiting_promotion term held_for) x = ensure_primary cfg i term i.state x
apply cfg i (would_demote reason) x = fence x
apply cfg i (following holder) x = converge_follow cfg i holder i.state x
apply cfg i (would_follow_new_holder previous holder) x = converge_follow cfg i holder i.state x
apply cfg i (detaching_from_deposed holder) x =
    (stop_receiving ∷ [], record x { confirmed_upstream = none; follow_stalled_since = none })
apply cfg i (retained_lease term) x = steady cfg i x
apply cfg i (took_over term true) x = steady cfg i x
apply cfg i is_paused x = ([], x)
apply cfg i (store_unknown d) x = ([], x)
apply cfg i (holder_unhealthy holder d) x = ([], x)
apply cfg i (stood_down why) x = ([], x)
apply cfg i (lost_takeover current) x = ([], x)
