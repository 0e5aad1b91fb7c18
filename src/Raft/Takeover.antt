-- ===== src/Raft/Takeover.antt =====
-- What the answers of the state machine say about the states before and after.
use pg_agent_rs.Prelude.{ℕ, ◌≡◌, true, Option, some, arith}
use pg_agent_rs.Consensus.{Lease, ClusterState, won, lost}
use pg_agent_rs.Raft.Machine.{takeover, takeover_response, observed_holds, apply_command}

-- A takeover that won was observed right, and its lease is the committed one.
pub takeover-won :
    (c d : ClusterState) (x now : ℕ) (e : Option (ℕ × ℕ)) (l : Lease)
    → apply_command c (takeover x e now) ≡ (d, takeover_response (won l))
    → (observed_holds c.lease e ≡ true) × (d.lease ≡ some l) × (l.holder ≡ x) × (l.since ≡ now)
unfolding apply_command
takeover-won c d x now e l h = ground arith

-- A takeover that lost changed nothing.
pub takeover-lost :
    (c d : ClusterState) (x now : ℕ) (e : Option (ℕ × ℕ)) (o : Option Lease)
    → apply_command c (takeover x e now) ≡ (d, takeover_response (lost o))
    → (d ≡ c) × (o ≡ c.lease)
unfolding apply_command
takeover-lost c d x now e o h = ground arith
