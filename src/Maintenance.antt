-- ===== src/Maintenance.antt =====
-- The retry queue of failed cleanups (crates/pg-agent-core/src/maintenance.rs): its data. An id's text
-- `<nanos>-<op>-<seq>` is the constructor `made` with the two numbers, since there is one op; the
-- text of a failure is a constructor with what it shows.
pub mod Queue
pub mod Backoff
pub mod Worker
pub mod Stored
pub mod Budget
pub mod Guard
use pg_agent_rs.Prelude.{
  ℕ, String, Bool, true, false, ◌&&◌, Option, none, some, List, [], ◌∷◌, ◌==◌,
}

pub data MaintenanceStatus : Type 0 where
  pending done abandoned : MaintenanceStatus

abbrev pub status_eqb : MaintenanceStatus → MaintenanceStatus → Bool
status_eqb pending pending = true
status_eqb done done = true
status_eqb abandoned abandoned = true
status_eqb _ _ = false

-- a slot's name: `node<id>`, or a text of another form
pub data SlotName : Type 0 where
  node_slot : ℕ → SlotName
  other_slot : String → SlotName

unfoldable pub node_id_from_slot : SlotName → Option ℕ
node_id_from_slot (node_slot n) = some n
node_id_from_slot (other_slot s) = none

pub data MaintenancePayload : Type 0 where
  drop_slot_cleanup : SlotName → String → String → String → MaintenancePayload

pub data Failure : Type 0 where
  unresolved_host : String → Failure
  local_drop : String → Failure
  peer_client : String → String → Failure
  peer_drop : SlotName → String → String → Failure
  op_timeout : SlotName → String → Failure

pub data IntentId : Type 0 where
  no_id : IntentId
  made : ℕ → ℕ → IntentId

abbrev pub id_eqb : IntentId → IntentId → Bool
id_eqb no_id no_id = true
id_eqb (made a i) (made b j) = a == b && i == j
id_eqb _ _ = false

-- `last_error` is none where the text is empty
pub record MaintenanceIntent : Type 0 where
  pub id : IntentId
  pub status : MaintenanceStatus
  pub payload : MaintenancePayload
  pub attempts : ℕ
  pub last_error : Option Failure
  pub created_at : ℕ
  pub updated_at : ℕ
  pub next_retry_at : Option ℕ

pub record SkippedIntent : Type 0 where
  pub path : IntentId
  pub error : String

-- a `.json` file of the directory, with what reading it gives
pub data IntentFile : Type 0 where
  intent : MaintenanceIntent → IntentFile
  corrupt : SkippedIntent → IntentFile

unfoldable pub file_id : IntentFile → IntentId
file_id (intent i) = i.id
file_id (corrupt s) = s.path
