-- ===== src/RoleExec/Attach.antt =====
-- The self-attach of the local pgpool (`ensure_self_attached` and `self_attach_probe` of
-- crates/pg-agent-core/src/roleexec.rs). The probe is a task of its own, so its spawn is an action,
-- and its end a step of its own.
use pg_agent_rs.Prelude.{
  ℕ, Bool, true, false, none, some, List, [], ◌∷◌, ◌==◌, find, if◌then◌else◌, Result, ok, err,
}
use pg_agent_rs.Pcp.{NodeInfo, is_up}
use pg_agent_rs.RoleExec.{Action, probe_pgpool, RoleExecutor, too_soon}

unfoldable pub ensure_self_attached : ℕ → RoleExecutor → List Action × RoleExecutor
ensure_self_attached now x =
    if too_soon now x.self_attach_last_probe
    then ([], x)
    else if x.self_attach_in_flight
    then ([], x)
    else (
      probe_pgpool ∷ [],
      record x { self_attach_in_flight = true; self_attach_last_probe = some now },
    )

pub data ProbeError : Type 0 where
  no_answer : ProbeError
  missing_backend : ℕ → ProbeError
  attach_failed : ℕ → ProbeError

-- the answer, and whether an attach of this node's backend was issued
unfoldable pub self_attach_probe :
    ℕ → Result (Unit {0}) (List NodeInfo) → Bool → Result ProbeError Bool × Bool
self_attach_probe local_id (err e) attached = (err no_answer, false)
self_attach_probe local_id (ok nodes) attached =
    elim (find (λ (n : NodeInfo). n.id == local_id) nodes) [
      | none ↦ (err (missing_backend local_id), false)
      | some me ↦
          if is_up me
          then (ok false, false)
          else if attached
          then (ok true, true)
          else (err (attach_failed local_id), true)
    ]

-- the end of the spawned task
unfoldable pub probe_ended : RoleExecutor → RoleExecutor
probe_ended x = record x { self_attach_in_flight = false }
