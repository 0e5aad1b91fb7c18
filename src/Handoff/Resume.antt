-- ===== src/Handoff/Resume.antt =====
-- The resumption of a crashed handoff (`resume_inflight_op`, `resume_handoff` and
-- `verify_handoff_state` of crates/pg-agent-core/src/localserver.rs).
use text.Mathlib.Text.{◌==◌}
use pg_agent_rs.Prelude
use pg_agent_rs.Prelude.{
  ℕ, String, Bool, true, false, not, ◌||◌, Option, none, some, List, [], ◌∷◌, any, Result, ok, err,
  if◌then◌else◌,
}
use pg_agent_rs.Inflight.{InflightPayload, handoff, InflightOp, OpId}
use pg_agent_rs.Pool.{NodeConfig, NodePool, node_by_id, local_node}
use pg_agent_rs.Orchestration.{
  dial, Env, PeerStatus, OpResult, Task, pure, fail, reply, ◌>>=◌, ◌>>◌, call, ask, local_or_fail,
  internal, failed_precondition, diverged, topology_changed, target_not_in_pool,
}
use pg_agent_rs.Handoff.{run_handoff_from_phase}

abbrev one_of : String → List String → Bool
one_of phase phases = any (λ (p : String). phase == p) phases

-- the stretches of the ladder by what the local PostgreSQL must be
pub data Stretch : Type 0 where
  pre_stop post_stop post_start other : Stretch

abbrev pub stretch : String → Stretch
stretch phase =
    if one_of phase ("target_promoted" ∷ "slot_created" ∷ [])
    then pre_stop
    else if one_of phase ("local_stopped" ∷ "data_copied" ∷ "recovery_conf_written" ∷ [])
    then post_stop
    else if one_of phase ("local_started" ∷ "attached" ∷ [])
    then post_start
    else other

-- does the local PostgreSQL contradict the phase? Only the last phases ask the database.
unfoldable pub local_diverged : Env → Stretch → Bool → Task Bool
unfolding ◌>>=◌
local_diverged env pre_stop running = pure (not running)
local_diverged env post_stop running = pure running
local_diverged env post_start false = pure true
local_diverged env post_start true =
    local_or_fail env.in_recovery >>= (λ recovers. pure (not recovers))
local_diverged env other running = pure false

-- by whether the phase is the first, the target runs, and it is in recovery
abbrev pub judged : Env → String → Bool → Bool → Bool → Task Bool
judged env phase true running recovers = pure (not recovers)
judged env phase false false recovers = pure true
judged env phase false true true = pure true
judged env phase false true false =
    local_or_fail env.server_running >>= local_diverged env (stretch phase)

-- has the cluster moved away from the recorded phase?
unfoldable pub verify_handoff_state : Env → ℕ → String → Task Bool
unfolding ask local_diverged ◌>>=◌
verify_handoff_state env target phase = ask env target >>= (λ (s : PeerStatus).
    judged env phase (phase == "preflight_done") s.is_postgres_running s.is_in_recovery)

abbrev pub unless_diverged : Env → OpId → ℕ → ℕ → String → Bool → Task OpResult
unless_diverged env id local target phase true = reply false diverged
unless_diverged env id local target phase false = run_handoff_from_phase env id local target phase

unfoldable pub resume_at : Env → OpId → ℕ → ℕ → String → Task OpResult
unfolding call verify_handoff_state run_handoff_from_phase ◌>>=◌
resume_at env id local target phase = do
  call env (dial target)
  moved ← verify_handoff_state env target phase
  unless_diverged env id local target phase moved

-- the op's target must have the name that was recorded
abbrev pub resume_target :
    Env → InflightOp → NodeConfig → String → Option NodeConfig → Task OpResult
resume_target env op l host none = reply false target_not_in_pool
resume_target env op l host (some t) =
    if t.hostname == host
    then resume_at env op.id l.id t.id op.phase
    else reply false topology_changed

-- the nodes of the op, as the pool knows them now
unfoldable pub resume_handoff : NodePool → Env → InflightOp → InflightPayload → Task OpResult
unfolding local_node node_by_id resume_at
resume_handoff pool env op (handoff from to host slot lag) = elim (local_node pool) [
  | none ↦ fail internal
  | some l ↦
      if Prelude.◌==◌ l.id from
      then resume_target env op l host (node_by_id pool to)
      else reply false topology_changed
]
resume_handoff pool env op _ = fail failed_precondition
