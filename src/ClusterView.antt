-- ===== src/ClusterView.antt =====
-- WAL positions and peer statuses (crates/pg-agent-core/src/cluster_view.rs).
pub mod Order
use text.Mathlib.Text.{◌==◌ as str_eq}
use pg_agent_rs.Prelude.{
  ℕ, String, ◌-◌, Bool, true, false, not, ◌&&◌, Option, none, some, List, ◌==◌, ltb, if◌then◌else◌,
  ℤ, positive?,
}

-- The fields of the generated message `NodeStatus` that the decision layer reads.
pub record NodeStatus : Type 0 where
  pub is_postgres_running : Bool
  pub is_in_recovery : Bool
  pub replication_state : String
  pub timeline_id : ℤ
  pub last_flush_lsn : ℕ
  pub peer_primary_seen_age_ms : List (ℕ × ℕ)

pub record WalPosition : Type 0 where
  pub timeline : ℕ
  pub lsn : ℕ

-- the derived `Ord`: the timeline dominates
abbrev pub pos_ltb : WalPosition → WalPosition → Bool
pos_ltb a b =
    if ltb a.timeline b.timeline then true else a.timeline == b.timeline && ltb a.lsn b.lsn

abbrev pub pos_eqb : WalPosition → WalPosition → Bool
pos_eqb a b = a.timeline == b.timeline && a.lsn == b.lsn

-- both halves of a position must be known
abbrev pub position : Option ℕ → ℕ → Option WalPosition
position none lsn = none
position (some t) lsn = if ltb 0 lsn then some (record { timeline = t; lsn = lsn }) else none

unfoldable pub from_status : NodeStatus → Option WalPosition
from_status s = position (positive? s.timeline_id) s.last_flush_lsn

-- `saturating_sub` is subtraction on ℕ
unfoldable pub lag_behind : WalPosition → WalPosition → Option ℕ
lag_behind p ahead = if p.timeline == ahead.timeline then some (ahead.lsn - p.lsn) else none

-- running, and not in recovery
unfoldable pub is_serving : NodeStatus → Bool
is_serving s = s.is_postgres_running && not s.is_in_recovery

unfoldable pub is_receiving : NodeStatus → Bool
is_receiving s = s.is_in_recovery && not (str_eq s.replication_state "")
