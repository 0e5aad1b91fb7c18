-- ===== src/RoleExec/QuorumCommit.antt =====
-- The arming of quorum commit (`ensure_quorum_commit` of crates/pg-agent-core/src/roleexec.rs).
use pg_agent_rs.Prelude.{
  ℕ, String, Bool, true, false, not, ◌&&◌, some, List, [], ◌∷◌, map, ◌==◌, keep, if◌then◌else◌,
  Result, ok, err,
}
use pg_agent_rs.Pool.{NodeConfig}
use pg_agent_rs.Maintenance.Queue.{sort_by}
use pg_agent_rs.RoleExec.{
  SyncNames, unarmed, any_one, other_names, names_eqb, Action, set_sync_names, ExecConfig,
  ExecInput, RoleExecutor, too_soon,
}

-- the other members, whose slots the standbys' names are
unfoldable pub other_members : ExecConfig → List ℕ
other_members cfg =
    map (λ (n : NodeConfig). n.id)
      (keep (λ (n : NodeConfig). not (n.id == cfg.local_id)) cfg.members)

-- the empty value is armed only once a standby is attached
abbrev pub somebody : Result (Unit {0}) (List String) → Bool
somebody (err e) = false
somebody (ok []) = false
somebody (ok (x ∷ xs)) = true

unfoldable pub arm :
    List ℕ → Result (Unit {0}) SyncNames → Result (Unit {0}) (List String) → List Action
arm desired (err e) connected = []
arm desired (ok unarmed) connected = if somebody connected then set_sync_names desired ∷ [] else []
arm desired (ok (any_one ids)) connected =
    if names_eqb (any_one ids) desired then [] else set_sync_names desired ∷ []
arm desired (ok (other_names t)) connected = set_sync_names desired ∷ []

unfoldable pub arm_members :
    List ℕ → Result (Unit {0}) SyncNames → Result (Unit {0}) (List String) → List Action
unfolding arm
arm_members [] names connected = []
arm_members (x ∷ xs) names connected = arm (x ∷ xs) names connected

unfoldable pub ensure_quorum_commit :
    ExecConfig → ExecInput → Bool → ℕ → RoleExecutor → List Action × RoleExecutor
unfolding other_members sort_by arm_members
ensure_quorum_commit cfg i force now x =
    if not force && too_soon now x.sync_arm_last_probe then ([], x) else (
      arm_members (sort_by cfg.slot_leb (other_members cfg)) i.sync_names i.connected,
      record x { sync_arm_last_probe = some now },
    )
