-- ===== src/RoleExec/Promote.antt =====
-- The journaled promotion (`ensure_primary` of crates/pg-agent-core/src/roleexec.rs).
use pg_agent_rs.Prelude.{
  ℕ, String, Bool, true, Option, none, some, List, [], ◌∷◌, ◌++◌, if◌then◌else◌, Result, ok, err,
}
use pg_agent_rs.Inflight.{promote, OpId, InflightOp}
use pg_agent_rs.Inflight.Journal.{FileInflightOpStore, JournalError, begin, complete, abandon}
use pg_agent_rs.RoleExec.{
  InstanceState, primary, Action, promote_and_wait, create_slot, ExecConfig, ExecInput,
  RoleExecutor,
}
use pg_agent_rs.RoleExec.QuorumCommit.{other_members, ensure_quorum_commit}
use pg_agent_rs.RoleExec.Attach.{ensure_self_attached}

-- the slots of the other members, up to the first that the database refuses
unfoldable pub reserve_slots : (ℕ → Bool) → List ℕ → List Action
reserve_slots made [] = []
reserve_slots made (n ∷ ns) =
    let rest = reserve_slots made ns in create_slot n ∷ (if made n then rest else [])

-- the journal is the record, not the gate: a refused `begin` leaves the promotion unjournaled
abbrev journaled : Result JournalError InflightOp → Option OpId
journaled (ok op) = some op.id
journaled (err e) = none

unfoldable pub close_done : ExecInput → Option OpId → FileInflightOpStore → FileInflightOpStore
unfolding complete
close_done i none j = j
close_done i (some id) j = (complete i.close_io i.journal_now id j).1

close_failed : ExecInput → String → Option OpId → FileInflightOpStore → FileInflightOpStore
unfolding abandon
close_failed i why none j = j
close_failed i why (some id) j = (abandon i.close_io i.journal_now id why j).1

-- what follows the instance's answer
unfoldable pub promote_ended :
    ExecConfig
    → ExecInput
    → Option OpId
    → Result String (Unit {0})
    → RoleExecutor
    → List Action × RoleExecutor
unfolding reserve_slots other_members close_done close_failed ensure_quorum_commit
    ensure_self_attached
promote_ended cfg i op (ok u) x =
    let x1 = record x { confirmed_upstream = none; journal = close_done i op x.journal } in
    let (armed, x2) = ensure_quorum_commit cfg i true i.later x1 in
    let (probed, x3) = ensure_self_attached i.later x2 in
    (reserve_slots i.slot_made (other_members cfg) ++ (armed ++ probed), x3)
promote_ended cfg i op (err why) x = ([], record x { journal = close_failed i why op x.journal })

unfoldable pub promote_now : ExecConfig → ExecInput → ℕ → RoleExecutor → List Action × RoleExecutor
unfolding begin promote_ended
promote_now cfg i term x =
    let (r, j) =
      begin i.begin_io i.journal_now (promote cfg.local_id term) "promoting" true x.journal in
    let (after, x') = promote_ended cfg i (journaled r) i.promoted (record x { journal = j }) in
    (promote_and_wait ∷ after, x')

unfoldable pub ensure_primary :
    ExecConfig → ExecInput → ℕ → InstanceState → RoleExecutor → List Action × RoleExecutor
unfolding promote_now
ensure_primary cfg i term primary x = ([], x)
ensure_primary cfg i term _ x = promote_now cfg i term x
