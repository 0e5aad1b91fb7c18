-- ===== src/Inflight/Owner.antt =====
-- Which orchestration owns a node (crates/pg-agent-core/src/inflight_ops.rs, ownership queries).
pub mod Found
use pg_agent_rs.Prelude.{
  ℕ, ◌+◌, Bool, true, false, ◌&&◌, Option, none, some, List, [], ◌∷◌, if◌then◌else◌, ltb, ◌==◌,
  keep, Result, ok, err,
}
use pg_agent_rs.Inflight.{
  InflightStatus, in_progress, done, abandoned, target_node_id, OpId, InflightOp,
}
use pg_agent_rs.Inflight.Journal.{seen, Io, FileInflightOpStore, discharge}

abbrev pub targets : ℕ → Option ℕ → Bool
targets node none = false
targets node (some n) = n == node

abbrev is_none : Option ℕ → Bool
is_none none = true
is_none (some t) = false

-- `now - t < grace`
abbrev pub within : ℕ → ℕ → Option ℕ → Bool
within now grace none = false
within now grace (some t) = ltb now (t + grace)

-- `list` asks for the first two statuses alone
unfoldable pub holds : ℕ → ℕ → InflightOp → InflightStatus → Bool
holds now grace op in_progress = true
holds now grace op done = is_none op.discharged_at && within now grace op.completed_at
holds now grace op abandoned = false

unfoldable pub owns : ℕ → ℕ → ℕ → InflightOp → Bool
unfolding holds target_node_id
owns now grace node op = targets node (target_node_id op.payload) && holds now grace op op.status

-- `sort_by` on the start, then on the id's text, whose order is `id_leb`
abbrev before : (OpId → OpId → Bool) → InflightOp → InflightOp → Bool
before id_leb a b =
    if ltb a.started_at b.started_at then true else a.started_at == b.started_at && id_leb a.id b.id

insert_op : (OpId → OpId → Bool) → InflightOp → List InflightOp → List InflightOp
insert_op id_leb op [] = op ∷ []
insert_op id_leb op (o ∷ os) =
    if before id_leb op o then op ∷ o ∷ os else o ∷ insert_op id_leb op os

unfoldable pub sort_ops : (OpId → OpId → Bool) → List InflightOp → List InflightOp
unfolding insert_op
sort_ops id_leb [] = []
sort_ops id_leb (op ∷ ops) = insert_op id_leb op (sort_ops id_leb ops)

abbrev later : InflightOp → Option InflightOp → Option InflightOp
later op none = some op
later op (some best) = if ltb best.started_at op.started_at then some op else some best

-- `max_by_key` on the start: the last of several
unfoldable pub latest : List InflightOp → Option InflightOp
latest [] = none
latest (op ∷ ops) = later op (latest ops)

unfoldable pub owner_of_node :
    (OpId → OpId → Bool) → Io → ℕ → ℕ → ℕ → FileInflightOpStore → Option InflightOp
unfolding sort_ops latest owns seen
owner_of_node id_leb io now node grace st =
    if io.reads
    then latest (keep (owns now grace node) (sort_ops id_leb (seen io st.ops)))
    else none

-- a completed op whose node is seen alive is discharged, and owns nothing any more
unfoldable pub observe_owner :
    Io
    → ℕ
    → Result (Unit {0}) Bool
    → InflightOp
    → FileInflightOpStore
    → Option InflightOp × FileInflightOpStore
observe_owner io now (ok true) op st = (none, (discharge io now op.id st).1)
observe_owner io now (ok false) op st = (some op, st)
observe_owner io now (err e) op st = (some op, st)

consult :
    Io
    → ℕ
    → Result (Unit {0}) Bool
    → InflightOp
    → InflightStatus
    → FileInflightOpStore
    → Option InflightOp × FileInflightOpStore
unfolding observe_owner
consult io now active op in_progress st = (some op, st)
consult io now active op _ st = observe_owner io now active op st

-- keyed by the node of the slot's name, which is none where the name is not `node<id>`
unfoldable pub owner_of_slot_observing :
    (OpId → OpId → Bool)
    → Io
    → ℕ
    → Option ℕ
    → ℕ
    → Result (Unit {0}) Bool
    → FileInflightOpStore
    → Option InflightOp × FileInflightOpStore
unfolding owner_of_node consult
owner_of_slot_observing id_leb io now none grace active st = (none, st)
owner_of_slot_observing id_leb io now (some node) grace active st =
    elim (owner_of_node id_leb io now node grace st) [
      | none ↦ (none, st)
      | some op ↦ consult io now active op op.status st
    ]
