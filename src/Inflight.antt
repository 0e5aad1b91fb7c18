-- ===== src/Inflight.antt =====
-- The journal of orchestrations (crates/pg-agent-core/src/inflight_ops.rs): its data.
-- An id's text `<nanos>-<op>-<seq>` is the constructor `made` with those three parts; a key's text
-- is a constructor with the numbers that it shows.
pub mod Journal
pub mod Owner
pub mod SingleFlight
pub mod Guards
pub mod Phase
pub mod Begun
use pg_agent_rs.Prelude.{ℕ, String, Bool, true, false, ◌&&◌, Option, none, some, ◌==◌}

pub data InflightStatus : Type 0 where
  in_progress done abandoned : InflightStatus

unfoldable pub is_terminal : InflightStatus → Bool
is_terminal in_progress = false
is_terminal done = true
is_terminal abandoned = true

pub data InflightPayload : Type 0 where
  handoff : ℕ → ℕ → String → String → Bool → InflightPayload
  follow_primary : ℕ → String → ℕ → String → InflightPayload
  recovery : ℕ → ℕ → String → String → InflightPayload
  promote : ℕ → ℕ → InflightPayload
  allow_async : ℕ → InflightPayload

pub data OpName : Type 0 where
  handoff_op follow_primary_op recovery_op promote_op allow_async_op : OpName

unfoldable pub op_name : InflightPayload → OpName
op_name (handoff from to host slot lag) = handoff_op
op_name (follow_primary detached host primary primary_host) = follow_primary_op
op_name (recovery primary standby host slot) = recovery_op
op_name (promote node term) = promote_op
op_name (allow_async node) = allow_async_op

pub data OpKey : Type 0 where
  from_to : ℕ → ℕ → OpKey
  detached_primary : ℕ → ℕ → OpKey
  primary_standby : ℕ → ℕ → OpKey
  node_term : ℕ → ℕ → OpKey
  node_only : ℕ → OpKey

unfoldable pub key : InflightPayload → OpKey
key (handoff from to host slot lag) = from_to from to
key (follow_primary detached host primary primary_host) = detached_primary detached primary
key (recovery primary standby host slot) = primary_standby primary standby
key (promote node term) = node_term node term
key (allow_async node) = node_only node

-- the node whose data directory or slot the orchestration owns
unfoldable pub target_node_id : InflightPayload → Option ℕ
target_node_id (handoff from to host slot lag) = some to
target_node_id (follow_primary detached host primary primary_host) = some detached
target_node_id (recovery primary standby host slot) = some standby
target_node_id (promote node term) = none
target_node_id (allow_async node) = none

abbrev pub name_eqb : OpName → OpName → Bool
name_eqb handoff_op handoff_op = true
name_eqb follow_primary_op follow_primary_op = true
name_eqb recovery_op recovery_op = true
name_eqb promote_op promote_op = true
name_eqb allow_async_op allow_async_op = true
name_eqb _ _ = false

abbrev pub key_eqb : OpKey → OpKey → Bool
key_eqb (from_to a b) (from_to c d) = a == c && b == d
key_eqb (detached_primary a b) (detached_primary c d) = a == c && b == d
key_eqb (primary_standby a b) (primary_standby c d) = a == c && b == d
key_eqb (node_term a b) (node_term c d) = a == c && b == d
key_eqb (node_only a) (node_only b) = a == b
key_eqb _ _ = false

pub data OpId : Type 0 where
  no_id : OpId
  made : ℕ → OpName → ℕ → OpId

abbrev pub id_eqb : OpId → OpId → Bool
id_eqb no_id no_id = true
id_eqb (made a n i) (made b m j) = a == b && (name_eqb n m && i == j)
id_eqb _ _ = false

pub record InflightOp : Type 0 where
  pub id : OpId
  pub status : InflightStatus
  pub payload : InflightPayload
  pub phase : String
  pub started_at : ℕ
  pub updated_at : ℕ
  pub completed_at : Option ℕ
  pub discharged_at : Option ℕ
  pub last_error : Option String
