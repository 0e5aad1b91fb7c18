-- ===== src/Ha/Observe.antt =====
-- What a tick observes (crates/pg-agent-core/src/ha.rs, `observe_local` and `observe_peers`).
-- The local database's answers and the peers' statuses come from outside; `none` is an error.
use text.Mathlib.Text.{◌==◌ as str_eq}
use pg_agent_rs.Prelude.{
  ℕ, String, Bool, true, false, not, Option, none, some, List, [], map, if◌then◌else◌, ℤ, positive?,
}
use pg_agent_rs.ClusterView.{
  NodeStatus, WalPosition, position, from_status, is_serving, is_receiving,
}
use pg_agent_rs.Ha.{LocalView, PeerView}

-- The answers of `LocalDb` in this tick; `walreceiver` is the state that `replication_lag` reports.
pub record LocalAnswers : Type 0 where
  pub in_recovery : Option Bool
  pub timeline : Option ℤ
  pub flush_lsn : Option ℕ
  pub walreceiver : Option String

abbrev known_position : Option ℤ → Option ℕ → Option WalPosition
known_position (some t) (some l) = position (positive? t) l
known_position _ _ = none

abbrev is_active : Option String → Bool
is_active none = false
is_active (some s) = not (str_eq s "")

view_of : Option Bool → LocalAnswers → LocalView
view_of none db = record { is_primary = none; pos = none; receiving = false }
view_of (some in_recovery) db = record {
  is_primary = some (not in_recovery);
  pos = known_position db.timeline db.flush_lsn;
  receiving = if in_recovery then is_active db.walreceiver else false;
}

unfoldable pub observe_local : LocalAnswers → LocalView
unfolding view_of
observe_local db = view_of db.in_recovery db

-- an unreachable peer gives an empty view, and costs no other peer its evidence
unfoldable pub peer_view : ℕ × Option NodeStatus → PeerView
unfolding from_status is_serving is_receiving
peer_view (node, some s) = record {
  node = node;
  running_as_primary = is_serving s;
  pos = from_status s;
  receiving = is_receiving s;
  reachable = true;
  seen_ages = s.peer_primary_seen_age_ms;
}
peer_view (node, none) = record {
  node = node;
  running_as_primary = false;
  pos = none;
  receiving = false;
  reachable = false;
  seen_ages = [];
}

unfoldable pub observe_peers : List (ℕ × Option NodeStatus) → List PeerView
unfolding peer_view
observe_peers statuses = map peer_view statuses
