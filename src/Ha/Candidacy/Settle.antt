-- ===== src/Ha/Candidacy/Settle.antt =====
-- The stability gate (`consider_candidacy` of crates/pg-agent-core/src/ha.rs): this tick's sample of
-- positions, compared with the previous tick's.
use pg_agent_rs.Prelude.{
  ℕ, Bool, true, false, not, ◌&&◌, Option, none, some, List, [], ◌∷◌, map, ◌==◌, keep, lookup,
  insert,
}
use pg_agent_rs.ClusterView.{WalPosition, pos_eqb}
use pg_agent_rs.Ha.{PeerView}

abbrev pub record_pos : List (ℕ × WalPosition) → ℕ → Option WalPosition → List (ℕ × WalPosition)
record_pos m node none = m
record_pos m node (some x) = insert node x m

unfoldable pub sample_peers : List (ℕ × WalPosition) → List PeerView → List (ℕ × WalPosition)
sample_peers m [] = m
sample_peers m (p ∷ ps) = sample_peers (record_pos m p.node p.pos) ps

unfoldable pub sample : ℕ → WalPosition → List PeerView → List (ℕ × WalPosition)
unfolding sample_peers
sample local_id my_pos peers = sample_peers (insert local_id my_pos []) peers

abbrev pub is_at : Option WalPosition → WalPosition → Bool
is_at none x = false
is_at (some y) x = pos_eqb y x

-- ids whose position is not the previous sample's
unfoldable pub unsettled : List (ℕ × WalPosition) → List (ℕ × WalPosition) → List ℕ
unsettled old current =
    map (λ (e : ℕ × WalPosition). e.0)
      (keep (λ (e : ℕ × WalPosition). not (is_at (lookup e.0 old) e.1)) current)

abbrev pub is_absent : Option WalPosition → Bool
is_absent none = true
is_absent (some x) = false

-- rivals of the previous sample that are absent from this one
unfoldable pub vanished : ℕ → List (ℕ × WalPosition) → List (ℕ × WalPosition) → List ℕ
vanished local_id old current =
    keep (λ id. not (id == local_id) && is_absent (lookup id current))
      (map (λ (e : ℕ × WalPosition). e.0) old)

abbrev pub is_empty : List ℕ → Bool
is_empty [] = true
is_empty (x ∷ xs) = false
