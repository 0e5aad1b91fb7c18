-- ===== src/Maintenance/Worker.antt =====
-- `MaintenanceWorker` of crates/pg-agent-core/src/maintenance.rs. The calls that leave the agent get
-- their answers as arguments, and the drops that it issues are kept in a list, the last one first.
use pg_agent_rs.Prelude.{
  ◌*◌, ℕ, String, ◌+◌, Bool, false, Option, none, some, List, [], ◌∷◌, ltb, leb, if◌then◌else◌, u32,
  Result, ok, err,
}
use pg_agent_rs.Inflight.{OpId, InflightOp}
use pg_agent_rs.Inflight.Journal.{Io, FileInflightOpStore}
use pg_agent_rs.Inflight.Owner.{owner_of_slot_observing}
use pg_agent_rs.Maintenance.{
  SlotName, node_id_from_slot, MaintenancePayload, drop_slot_cleanup, Failure, unresolved_host,
  local_drop, peer_client, peer_drop, op_timeout, IntentId, MaintenanceIntent,
}
use pg_agent_rs.Maintenance.Queue.{
  QueueError, Answer, FileMaintenanceStore, list_pending, mark_attempt, mark_done, mark_abandoned,
}
use pg_agent_rs.Maintenance.Backoff.{backoff}
use pg_agent_rs.Pool.{NodeConfig, NodePool, node_by_hostname, is_local}

-- `MAX_ATTEMPTS`
abbrev pub max_attempts : ℕ
max_attempts = 5

-- times are nanoseconds
abbrev pub second : ℕ
second = 1000000000

-- `CROSS_OP_GRACE`
abbrev pub cross_op_grace : ℕ
cross_op_grace = 120 * second

-- What the world answers while one intent is processed. A drop that does not answer within
-- `PER_OP_TIMEOUT` is none.
pub record World : Type 0 where
  pub now : ℕ
  pub queue_io : Io
  pub journal_io : Io
  pub slot_active : Result (Unit {0}) Bool
  pub local_answer : Option (Result String (Unit {0}))
  pub client : Option (Result String (Unit {0}))
  pub peer_answer : Option (Result String (Unit {0}))

pub data Drop : Type 0 where
  on_this_node : SlotName → Drop
  on_peer : ℕ → SlotName → Drop

-- the two directories, and the drops that were issued
pub record Agent : Type 0 where
  pub queue : FileMaintenanceStore
  pub journal : FileInflightOpStore
  pub drops : List Drop

-- a failure: a retry with a delay, or the end once the attempts are used up
unfoldable pub fail :
    World → MaintenanceIntent → Failure → FileMaintenanceStore → Answer × FileMaintenanceStore
unfolding backoff mark_abandoned mark_attempt
fail w i why st =
    let next_attempt = u32 (i.attempts + 1) in
    if leb max_attempts next_attempt
    then mark_abandoned w.queue_io w.now i.id why st
    else mark_attempt w.queue_io w.now i.id why (w.now + backoff next_attempt * second) st

abbrev with_queue : Answer × FileMaintenanceStore → Agent → Answer × Agent
with_queue (r, q) a = (r, record a { queue = q })

-- what the answer of a drop does to the queue
unfoldable pub settle_drop :
    World
    → MaintenanceIntent
    → SlotName
    → String
    → (String → Failure)
    → Option (Result String (Unit {0}))
    → FileMaintenanceStore
    → Answer × FileMaintenanceStore
unfolding fail
settle_drop w i slot host why none st = fail w i (op_timeout slot host) st
settle_drop w i slot host why (some (ok u)) st = mark_done w.queue_io w.now i.id st
settle_drop w i slot host why (some (err e)) st = fail w i (why e) st

unfoldable pub drop_on_peer :
    World
    → MaintenanceIntent
    → SlotName
    → String
    → ℕ
    → Option (Result String (Unit {0}))
    → Agent
    → Answer × Agent
unfolding settle_drop
drop_on_peer w i slot host node (some (ok u)) a =
    with_queue (settle_drop w i slot host (peer_drop slot host) w.peer_answer a.queue)
      (record a { drops = on_peer node slot ∷ a.drops })
drop_on_peer w i slot host node other a =
    with_queue (settle_drop w i slot host (peer_client host) other a.queue) a

-- the drop, on this node or through the peer's client
unfoldable pub issue_drop :
    NodePool → World → MaintenanceIntent → SlotName → String → NodeConfig → Agent → Answer × Agent
unfolding is_local settle_drop drop_on_peer
issue_drop pool w i slot host node a =
    let here =
      with_queue (settle_drop w i slot host local_drop w.local_answer a.queue)
        (record a { drops = on_this_node slot ∷ a.drops }) in
    if is_local pool node then here else drop_on_peer w i slot host node.id w.client a

-- an orchestration that owns the slot ends the intent without a drop
unfoldable pub unless_owned :
    NodePool
    → World
    → MaintenanceIntent
    → SlotName
    → String
    → NodeConfig
    → Option InflightOp
    → Agent
    → Answer × Agent
unfolding mark_done issue_drop
unless_owned pool w i slot host node (some op) a =
    with_queue (mark_done w.queue_io w.now i.id a.queue) a
unless_owned pool w i slot host node none a = issue_drop pool w i slot host node a

module _ (op_leb : OpId → OpId → Bool) (pool : NodePool) where
  -- the journal is asked before the drop; only a local slot gives evidence of life
  unfoldable pub drop_resolved :
      World → MaintenanceIntent → SlotName → String → Option NodeConfig → Agent → Answer × Agent
  unfolding fail is_local owner_of_slot_observing node_id_from_slot unless_owned
  drop_resolved w i slot host none a = with_queue (fail w i (unresolved_host host) a.queue) a
  drop_resolved w i slot host (some node) a =
      let active = if is_local pool node then w.slot_active else ok false in
      let (owner, journal') =
        owner_of_slot_observing op_leb w.journal_io w.now (node_id_from_slot slot) cross_op_grace
          active a.journal in
      unless_owned pool w i slot host node owner (record a { journal = journal' })

  unfoldable pub process_drop_slot :
      World → MaintenanceIntent → SlotName → String → Agent → Answer × Agent
  unfolding node_by_hostname drop_resolved
  process_drop_slot w i slot host a = drop_resolved w i slot host (node_by_hostname pool host) a

  unfoldable pub process_payload :
      World → MaintenanceIntent → MaintenancePayload → Agent → Answer × Agent
  unfolding process_drop_slot
  process_payload w i (drop_slot_cleanup slot host cause initial) a =
      process_drop_slot w i slot host a

  unfoldable pub process_intent : World → MaintenanceIntent → Agent → Answer × Agent
  unfolding process_payload
  process_intent w i a = process_payload w i i.payload a

  -- `next_retry_at > now`
  abbrev pub is_early : ℕ → Option ℕ → Bool
  is_early now none = false
  is_early now (some t) = ltb now t

  -- the intents that are due, in turn; a failed one does not stop the others
  unfoldable pub process_due : ℕ → (IntentId → World) → List MaintenanceIntent → Agent → Agent
  unfolding process_intent
  process_due now worlds [] a = a
  process_due now worlds (i ∷ is) a =
      let a' = if is_early now i.next_retry_at then a else (process_intent (worlds i.id) i a).1 in
      process_due now worlds is a'

  due_of : ℕ → (IntentId → World) → Result QueueError (List MaintenanceIntent) → Agent → Agent
  unfolding process_due
  due_of now worlds (err e) a = a
  due_of now worlds (ok intents) a = process_due now worlds intents a

  -- one sweep; `worlds` gives the answers while an intent is processed
  unfoldable pub process_sweep :
      (IntentId → IntentId → Bool) → Io → ℕ → (IntentId → World) → Agent → Agent
  unfolding list_pending due_of
  process_sweep id_leb io now worlds a =
      let (answer, queue') = list_pending id_leb io now a.queue in
      due_of now worlds answer (record a { queue = queue' })
