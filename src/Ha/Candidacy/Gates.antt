-- ===== src/Ha/Candidacy/Gates.antt =====
-- The gates that need no comparison of positions (`consider_candidacy` of
-- crates/pg-agent-core/src/ha.rs): each is `some` decision when it stops the candidacy.
use pg_agent_rs.Prelude.{
  ℕ, ◌-◌, Bool, true, false, not, ◌&&◌, Option, none, some, List, [], ◌∷◌, ◌==◌, ltb, leb,
  if◌then◌else◌, find, lookup,
}
use pg_agent_rs.ClusterView.{WalPosition}
use pg_agent_rs.Ha.{
  HaConfig, as_millis, HaDecision, stood_down, detaching_from_deposed, in_backoff, local_unknown,
  witness_saw, still_streaming, peer_receiving, LocalView, PeerView,
}

unfoldable pub backoff_gate : Option ℕ → ℕ → Option HaDecision
backoff_gate none now = none
backoff_gate (some until) now =
    if ltb now until then some (stood_down (in_backoff (until - now))) else none

unfoldable pub known_gate : Option Bool → Option HaDecision
known_gate none = some (stood_down local_unknown)
known_gate (some p) = none

-- a sighting no older than the ttl
abbrev pub fresh : ℕ → ℕ → Option ℕ → Option (ℕ × ℕ)
fresh ttl_ms node none = none
fresh ttl_ms node (some age) = if leb age ttl_ms then some (node, age) else none

unfoldable pub witness_of : ℕ → ℕ → PeerView → Option (ℕ × ℕ)
witness_of holder ttl_ms p =
    if p.reachable && not (p.node == holder)
    then fresh ttl_ms p.node (lookup holder p.seen_ages)
    else none

unfoldable pub find_witness : ℕ → ℕ → List PeerView → Option (ℕ × ℕ)
find_witness holder ttl_ms [] = none
find_witness holder ttl_ms (p ∷ ps) = elim (witness_of holder ttl_ms p) [
  | some w ↦ some w
  | none ↦ find_witness holder ttl_ms ps
]

-- the second-opinion gate: only a held lease has an incumbent to defend
unfoldable pub witness_gate : Option (ℕ × ℕ) → ℕ → List PeerView → Option HaDecision
witness_gate none ttl_ms peers = none
witness_gate (some (holder, term)) ttl_ms peers = elim (find_witness holder ttl_ms peers) [
  | none ↦ none
  | some (node, age) ↦ some (stood_down (witness_saw node holder age))
]

abbrev detach : Option (ℕ × ℕ) → HaDecision
detach (some (holder, term)) = detaching_from_deposed holder
detach none = stood_down still_streaming

abbrev pub is_standby : Option Bool → Bool
is_standby (some false) = true
is_standby _ = false

unfoldable pub detach_gate : Option (ℕ × ℕ) → LocalView → Option HaDecision
detach_gate expected l =
    if is_standby l.is_primary && l.receiving then some (detach expected) else none

abbrev has_position : Option WalPosition → Bool
has_position none = false
has_position (some x) = true

unfoldable pub is_mover : PeerView → Bool
is_mover p = not p.running_as_primary && (has_position p.pos && p.receiving)

unfoldable pub mover_gate : List PeerView → Option HaDecision
unfolding is_mover
mover_gate peers = elim (find is_mover peers) [
  | none ↦ none
  | some p ↦ some (stood_down (peer_receiving p.node))
]

-- the first gate that stops
infixr 30 ◌orelse◌
abbrev pub ◌orelse◌ : Option HaDecision → Option HaDecision → Option HaDecision
some d orelse e = some d
none orelse e = e

unfoldable pub entry_gates :
    HaConfig → ℕ → Option ℕ → Option (ℕ × ℕ) → LocalView → List PeerView → Option HaDecision
entry_gates cfg now backoff expected l peers =
    backoff_gate backoff now
    orelse known_gate l.is_primary
    orelse witness_gate expected (as_millis cfg.leader_ttl) peers
    orelse detach_gate expected l
    orelse mover_gate peers
