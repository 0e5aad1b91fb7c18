-- ===== src/Ha/Candidacy/Choice.antt =====
-- The most-advanced check (`consider_candidacy` of crates/pg-agent-core/src/ha.rs).
use pg_agent_rs.Prelude.{ℕ, Bool, ◌&&◌, ◌||◌, Option, none, some, List, [], ◌∷◌, ltb, if◌then◌else◌}
use pg_agent_rs.ClusterView.{WalPosition, pos_ltb, pos_eqb, lag_behind}
use pg_agent_rs.Ha.{StandDown, newer_timeline, more_wal, tiebreak, PeerView}

-- the key `(pos, Reverse(id))`
abbrev pub key_ltb : ℕ × WalPosition → ℕ × WalPosition → Bool
key_ltb (i, x) (j, y) = pos_ltb x y || pos_eqb x y && ltb j i

-- `max_by_key`: the later of two equal keys
abbrev pub better : Option (ℕ × WalPosition) → ℕ × WalPosition → Option (ℕ × WalPosition)
better none e = some e
better (some best) e = if key_ltb e best then some best else some e

-- `filter_map`: a peer without a position does not compete
abbrev pub compete : Option (ℕ × WalPosition) → ℕ → Option WalPosition → Option (ℕ × WalPosition)
compete best node none = best
compete best node (some x) = better best (node, x)

unfoldable pub best_from : Option (ℕ × WalPosition) → List PeerView → Option (ℕ × WalPosition)
best_from best [] = best
best_from best (p ∷ ps) = best_from (compete best p.node p.pos) ps

unfoldable pub best_other : List PeerView → Option (ℕ × WalPosition)
unfolding best_from
best_other peers = best_from none peers

abbrev behind : ℕ → Option ℕ → StandDown
behind best_id none = newer_timeline best_id
behind best_id (some lag) = more_wal best_id lag

-- the rival that outranks this node, if any
unfoldable pub outranked : ℕ → WalPosition → Option (ℕ × WalPosition) → Option StandDown
unfolding lag_behind
outranked local_id my_pos none = none
outranked local_id my_pos (some (best_id, best_pos)) =
    if pos_ltb my_pos best_pos
    then some (behind best_id (lag_behind my_pos best_pos))
    else if pos_eqb best_pos my_pos && ltb best_id local_id
    then some (tiebreak best_id)
    else none
