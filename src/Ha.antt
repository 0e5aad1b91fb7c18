-- ===== src/Ha.antt =====
-- The HA loop's data (crates/pg-agent-core/src/ha.rs): timings, views, decisions and the state kept
-- between ticks. Durations and instants are nanoseconds. A reason's text is a constructor with the
-- values that the text shows.
pub mod Observe
pub mod Candidacy
pub mod Tick
use pg_agent_rs.Prelude.{ℕ, ◌/◌, Bool, Option, none, List, [], u64}
use pg_agent_rs.ClusterView.{WalPosition}

-- `HaTiming`, with the pool's local node id
pub record HaConfig : Type 0 where
  pub local_id : ℕ
  pub loop_wait : ℕ
  pub retry_timeout : ℕ
  pub leader_ttl : ℕ

-- `Duration::as_millis` cast to `u64`
abbrev pub as_millis : ℕ → ℕ
as_millis d = u64 (d / 1000000)

pub data DemoteReason : Type 0 where
  quorum_lost : ℕ → DemoteReason
  promotion_failed : ℕ → DemoteReason
  local_query_failed : DemoteReason

pub data StandDown : Type 0 where
  in_backoff : ℕ → StandDown
  local_unknown : StandDown
  witness_saw : ℕ → ℕ → ℕ → StandDown
  still_streaming : StandDown
  peer_receiving : ℕ → StandDown
  position_unknown : StandDown
  not_stable : List ℕ → List ℕ → StandDown
  newer_timeline : ℕ → StandDown
  more_wal : ℕ → ℕ → StandDown
  tiebreak : ℕ → StandDown
  proposal_failed : StandDown
  vacant_with_primary : ℕ → StandDown
  many_primaries : List ℕ → StandDown

pub data HaDecision : Type 0 where
  is_paused : HaDecision
  store_unknown : ℕ → HaDecision
  would_demote : DemoteReason → HaDecision
  retained_lease : ℕ → HaDecision
  awaiting_promotion : ℕ → ℕ → HaDecision
  following : ℕ → HaDecision
  would_follow_new_holder : ℕ → ℕ → HaDecision
  holder_unhealthy : ℕ → ℕ → HaDecision
  detaching_from_deposed : ℕ → HaDecision
  stood_down : StandDown → HaDecision
  took_over : ℕ → Bool → HaDecision
  lost_takeover : Option ℕ → HaDecision

pub record LocalView : Type 0 where
  pub is_primary : Option Bool
  pub pos : Option WalPosition
  pub receiving : Bool

-- `node` is the peer's node id
pub record PeerView : Type 0 where
  pub node : ℕ
  pub running_as_primary : Bool
  pub pos : Option WalPosition
  pub receiving : Bool
  pub reachable : Bool
  pub seen_ages : List (ℕ × ℕ)

pub record TickState : Type 0 where
  pub last_holder : Option ℕ
  pub holder_unhealthy_since : Option (ℕ × ℕ)
  pub store_unknown_since : Option ℕ
  pub backoff_until : Option ℕ
  pub held_term : Option ℕ
  pub held_since : Option ℕ
  pub settled_pos : List (ℕ × WalPosition)

-- the state that `HaLoop::new` starts from
abbrev pub initial : TickState
initial = record {
  last_holder = none;
  holder_unhealthy_since = none;
  store_unknown_since = none;
  backoff_until = none;
  held_term = none;
  held_since = none;
  settled_pos = [];
}
