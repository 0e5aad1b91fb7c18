-- ===== src/Ha/Candidacy.antt =====
-- The candidacy ladder (crates/pg-agent-core/src/ha.rs, `consider_candidacy`): gates that stand
-- down, the stability gate on sampled positions, the most-advanced check, and the proposal.
pub mod Gates
pub mod Settle
pub mod Choice
pub mod Ranking
pub mod Stability
pub mod Admission
pub mod Committed
pub mod Elected
pub mod Unique
use pg_agent_rs.Prelude.{
  ℕ, ◌+◌, ◌*◌, Bool, true, false, ◌&&◌, Option, none, some, List, [], ◌∷◌, ◌==◌, if◌then◌else◌,
  Result, ok, err,
}
use pg_agent_rs.Consensus.{Lease, TakeoverOutcome, won, lost}
use pg_agent_rs.Store.{ConsensusStore}
use pg_agent_rs.ClusterView.{WalPosition}
use pg_agent_rs.Ha.{
  HaConfig, as_millis, HaDecision, stood_down, took_over, lost_takeover, StandDown,
  position_unknown, not_stable, proposal_failed, LocalView, PeerView, TickState,
}
use pg_agent_rs.Ha.Candidacy.Gates.{entry_gates}
use pg_agent_rs.Ha.Candidacy.Settle.{sample, unsettled, vanished, is_empty}
use pg_agent_rs.Ha.Candidacy.Choice.{best_other, outranked}

-- What a tick draws from outside besides its observations: the clocks and the random jitter
-- (`gen_range(0..n)`).
pub record Env : Type 0 where
  pub now : ℕ
  pub wall : ℕ
  pub gen_range : ℕ → ℕ

-- `loop_wait` plus a jitter below it, in milliseconds
unfoldable pub arm_backoff : HaConfig → Env → TickState → TickState
arm_backoff cfg env ts =
    let base_ms = as_millis cfg.loop_wait in
    let jitter_ms = if base_ms == 0 then 0 else env.gen_range base_ms in
    record ts { backoff_until = some (env.now + cfg.loop_wait + jitter_ms * 1000000) }

abbrev pub is_leading : Option Bool → Bool
is_leading (some true) = true
is_leading _ = false

abbrev holder_of : Option Lease → Option ℕ
holder_of none = none
holder_of (some l) = some l.holder

module _ {S E : Type 0} (store : ConsensusStore S E) (cfg : HaConfig) (env : Env) where
  pub proposed : Option Bool → TickState → Result E TakeoverOutcome × S → HaDecision × TickState × S
  unfolding arm_backoff
  proposed is_primary ts (ok (won l), s) = (took_over l.term (is_leading is_primary), ts, s)
  proposed is_primary ts (ok (lost c), s) = (lost_takeover (holder_of c), arm_backoff cfg env ts, s)
  proposed is_primary ts (err e, s) = (stood_down proposal_failed, ts, s)

  choose :
      Option (ℕ × ℕ)
      → LocalView
      → List PeerView
      → WalPosition
      → TickState
      → S
      → HaDecision × TickState × S
  unfolding arm_backoff proposed outranked best_other
  choose expected l peers my_pos ts s = elim (outranked cfg.local_id my_pos (best_other peers)) [
    | some r ↦ (stood_down r, arm_backoff cfg env ts, s)
    | none ↦ proposed l.is_primary ts (store.try_takeover env.wall cfg.local_id expected s)
  ]

  settle :
      Option (ℕ × ℕ)
      → LocalView
      → List PeerView
      → WalPosition
      → TickState
      → S
      → HaDecision × TickState × S
  settle expected l peers my_pos ts s =
      let current = sample cfg.local_id my_pos peers in
      let moving = unsettled ts.settled_pos current in
      let gone = vanished cfg.local_id ts.settled_pos current in
      let ts' = record ts { settled_pos = current } in
      if is_empty moving && is_empty gone
      then choose expected l peers my_pos ts' s
      else (stood_down (not_stable moving gone), ts', s)

  with_position :
      Option (ℕ × ℕ)
      → LocalView
      → List PeerView
      → Option WalPosition
      → TickState
      → S
      → HaDecision × TickState × S
  with_position expected l peers none ts s = (stood_down position_unknown, ts, s)
  with_position expected l peers (some my_pos) ts s = settle expected l peers my_pos ts s

  unfoldable pub consider_candidacy :
      Option (ℕ × ℕ) → LocalView → List PeerView → TickState → S → HaDecision × TickState × S
  unfolding with_position settle choose
  consider_candidacy expected l peers ts s =
      elim (entry_gates cfg env.now ts.backoff_until expected l peers) [
        | some d ↦ (d, ts, s)
        | none ↦ with_position expected l peers l.pos ts s
      ]
