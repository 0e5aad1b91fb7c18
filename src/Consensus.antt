-- ===== src/Consensus.antt =====
-- The replicated state document and the outcomes of its operations
-- (crates/pg-agent-core/src/consensus.rs).
-- Node ids are natural numbers: config.rs refuses a pool with a negative id. A `DateTime` and an
-- `Instant` are natural numbers on their own clocks.
use pg_agent_rs.Prelude.{ℕ, String, Option, none}

-- The committed lease; `term` is a `u64` fencing token.
pub record Lease : Type 0 where
  pub holder : ℕ
  pub term : ℕ
  pub since : ℕ

pub record Paused : Type 0 where
  pub reason : String
  pub set_by : String
  pub paused_at : ℕ

pub record Switchover : Type 0 where
  pub target : ℕ
  pub not_before : Option ℕ

pub record ClusterState : Type 0 where
  pub lease : Option Lease
  pub paused : Option Paused
  pub switchover : Option Switchover
  pub generation : ℕ

-- `ClusterState::default()`
abbrev pub empty_state : ClusterState
empty_state = record { lease = none; paused = none; switchover = none; generation = 0 }

pub data TakeoverOutcome : Type 0 where
  won : Lease → TakeoverOutcome
  lost : Option Lease → TakeoverOutcome

pub data ReleaseOutcome : Type 0 where
  released : ReleaseOutcome
  not_holder : Option Lease → ReleaseOutcome
