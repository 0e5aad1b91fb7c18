-- ===== src/Raft/Terms.antt =====
-- Fencing: the terms that the state machine mints, over whole logs of commands.
use pg_agent_rs.Prelude.{
  ℕ, ◌+◌, ◌^◌, ◌≤◌, ◌<◌, ◌≡◌, ◌≢◌, inl, inr, Bool-cases, Option, none, some, List, [], ◌∷◌, arith,
  length,
}
use pg_agent_rs.Consensus.{Lease, ClusterState, won, lost, not_holder}
use pg_agent_rs.Raft.Machine.{
  ConsensusCommand, takeover, release, set_paused, set_switchover, CommandResponse,
  takeover_response, release_response, ack, noop, observed_holds, is_lease_of, apply_command,
  apply_all,
}

-- the terms of the takeovers that won, in log order
abbrev pub won_terms : List CommandResponse → List ℕ
won_terms [] = []
won_terms (takeover_response (won l) ∷ rs) = l.term ∷ won_terms rs
won_terms (takeover_response (lost c) ∷ rs) = won_terms rs
won_terms (release_response o ∷ rs) = won_terms rs
won_terms (ack ∷ rs) = won_terms rs
won_terms (noop ∷ rs) = won_terms rs

-- strictly increasing, and all above `lo`
abbrev pub Increasing : ℕ → List ℕ → Type 0
Increasing lo [] = Unit
Increasing lo (t ∷ ts) = (lo < t) × Increasing t ts

-- no committed lease has a term above the generation
abbrev pub LeaseBounded : Option Lease → ℕ → Type 0
LeaseBounded none g = Unit
LeaseBounded (some l) g = l.term ≤ g

abbrev pub IsFenced : ClusterState → Type 0
IsFenced s = LeaseBounded s.lease s.generation

-- the `u64` counter does not wrap within `n` more commands
abbrev pub HasRoom : ClusterState → ℕ → Type 0
HasRoom s n = s.generation + n < 2 ^ 64

LeaseBounded-mono : (o : Option Lease) (g g' : ℕ) → g ≤ g' → LeaseBounded o g → LeaseBounded o g'
LeaseBounded-mono none g g' h b = tt
LeaseBounded-mono (some l) g g' h b = omega arith

-- one command: the generation does not fall, and grows by one at most
pub generation-apply_command :
    (s : ClusterState) (c : ConsensusCommand)
    → HasRoom s 1
    → (s.generation ≤ (apply_command s c).0.generation)
      × ((apply_command s c).0.generation ≤ s.generation + 1)
unfolding apply_command
generation-apply_command s (takeover x e now) h = ground arith
generation-apply_command s (release x t) h = ground arith
generation-apply_command s (set_paused p) h = ground arith
generation-apply_command s (set_switchover w) h = ground arith

pub apply_command-IsFenced :
    (s : ClusterState) (c : ConsensusCommand)
    → HasRoom s 1
    → IsFenced s
    → IsFenced (apply_command s c).0
unfolding apply_command
apply_command-IsFenced s (takeover x e now) h b = ground arith
apply_command-IsFenced s (release x t) h b = ground arith
apply_command-IsFenced s (set_paused p) h b =
    LeaseBounded-mono s.lease s.generation _ (ground arith) b
apply_command-IsFenced s (set_switchover w) h b =
    LeaseBounded-mono s.lease s.generation _ (ground arith) b

Increasing-mono : (lo lo' : ℕ) (ts : List ℕ) → lo ≤ lo' → Increasing lo' ts → Increasing lo ts
Increasing-mono lo lo' [] h i = tt
Increasing-mono lo lo' (t ∷ ts) h i = (omega arith, i.1)

-- one command: what it wins, if anything, is above the old generation and not above the new one
won_above :
    (s : ClusterState) (c : ConsensusCommand) (rs : List CommandResponse)
    → HasRoom s 1
    → Increasing (apply_command s c).0.generation (won_terms rs)
    → Increasing s.generation (won_terms ((apply_command s c).1 ∷ rs))
unfolding apply_command
won_above s (takeover x e now) rs h i = elim (Bool-cases (observed_holds s.lease e)) [
  | inl q ↦ rw q (omega arith, rw q at i)
  | inr q ↦ rw q (rw q at i)
]
won_above s (release x t) rs h i = elim (Bool-cases (is_lease_of s.lease x t)) [
  | inl q ↦ rw q (Increasing-mono _ _ (won_terms rs) (omega arith) (rw q at i))
  | inr q ↦ rw q (rw q at i)
]
won_above s (set_paused p) rs h i = Increasing-mono _ _ (won_terms rs) (omega arith) i
won_above s (set_switchover w) rs h i = Increasing-mono _ _ (won_terms rs) (omega arith) i

-- Over any log of commands, applied from any state whose counter has room for them, the terms of
-- the takeovers that won are strictly increasing in log order, and all above the generation at
-- the start: no term is ever issued twice.
pub won_terms-Increasing :
    (s : ClusterState) (cs : List ConsensusCommand)
    → HasRoom s (length cs)
    → Increasing s.generation (won_terms (apply_all s cs).1)
unfolding apply_all
won_terms-Increasing s [] h = tt
won_terms-Increasing s (c ∷ cs) h =
    let s' = (apply_command s c).0 in
    won_above s c (apply_all s' cs).1 (omega arith)
      (won_terms-Increasing s' cs (omega (arith, generation-apply_command s c)))

-- A state whose lease is not above its generation keeps that over any log with room.
pub apply_all-IsFenced :
    (s : ClusterState) (cs : List ConsensusCommand)
    → HasRoom s (length cs)
    → IsFenced s
    → IsFenced (apply_all s cs).0
unfolding apply_all
apply_all-IsFenced s [] h b = b
apply_all-IsFenced s (c ∷ cs) h b =
    apply_all-IsFenced (apply_command s c).0 cs (omega (arith, generation-apply_command s c))
      (apply_command-IsFenced s c (omega arith) b)

-- the committed lease is not of term `t`
abbrev pub NotTerm : ℕ → Option Lease → Type 0
NotTerm t none = Unit
NotTerm t (some l) = l.term ≢ t

NotTerm-apply_command :
    (s : ClusterState) (c : ConsensusCommand) (t : ℕ)
    → HasRoom s 1
    → t ≤ s.generation
    → NotTerm t s.lease
    → NotTerm t (apply_command s c).0.lease
unfolding apply_command
NotTerm-apply_command s (takeover x e now) t h b n = ground arith
NotTerm-apply_command s (release x u) t h b n = ground arith
NotTerm-apply_command s (set_paused p) t h b n = n
NotTerm-apply_command s (set_switchover w) t h b n = n

NotTerm-apply_all :
    (s : ClusterState) (cs : List ConsensusCommand) (t : ℕ)
    → HasRoom s (length cs)
    → t ≤ s.generation
    → NotTerm t s.lease
    → NotTerm t (apply_all s cs).0.lease
unfolding apply_all
NotTerm-apply_all s [] t h b n = n
NotTerm-apply_all s (c ∷ cs) t h b n =
    let g = generation-apply_command s c (omega arith) in
    NotTerm-apply_all (apply_command s c).0 cs t (omega (arith, g)) (omega (arith, g))
      (NotTerm-apply_command s c t (omega arith) b n)

stale_rejected :
    (s : ClusterState) (h t x now : ℕ)
    → NotTerm t s.lease
    → (apply_command s (release h t) ≡ (s, release_response (not_holder s.lease)))
      × (apply_command s (takeover x (some (h, t)) now) ≡ (s, takeover_response (lost s.lease)))
unfolding apply_command
stale_rejected s h t x now n = ground arith

-- Fencing: from a state whose generation has reached term `t` and whose lease is not of term `t`,
-- after any further log with room, a holder that still presents `(h, t)` changes nothing: its
-- release answers that it is not the holder, and a takeover that observed `(h, t)` loses.
pub stale_term_rejected :
    (s : ClusterState) (cs : List ConsensusCommand) (h t x now : ℕ)
    → HasRoom s (length cs)
    → t ≤ s.generation
    → NotTerm t s.lease
    → let s' = (apply_all s cs).0 in
      (apply_command s' (release h t) ≡ (s', release_response (not_holder s'.lease)))
      × (apply_command s' (takeover x (some (h, t)) now) ≡ (s', takeover_response (lost s'.lease)))
stale_term_rejected s cs h t x now room b n =
    stale_rejected (apply_all s cs).0 h t x now (NotTerm-apply_all s cs t room b n)

-- Two candidates that observed the same lease, or the same vacancy: if the first takeover wins,
-- the second one loses, is told the winner's lease, and changes nothing.
pub takeover_race :
    (s : ClusterState) (x y : ℕ) (e : Option (ℕ × ℕ)) (now later : ℕ) {l : Lease}
    → HasRoom s 1
    → IsFenced s
    → (apply_command s (takeover x e now)).1 ≡ takeover_response (won l)
    → let s' = (apply_command s (takeover x e now)).0 in
      (l.holder ≡ x)
      × (apply_command s' (takeover y e later) ≡ (s', takeover_response (lost (some l))))
unfolding apply_command
takeover_race s x y e now later h b w = ground arith
