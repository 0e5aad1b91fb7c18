-- ===== src/Ha/Candidacy/Elected.antt =====
-- What a takeover proposal that won says about the candidate.
use pg_agent_rs.Prelude.{
  ℕ, ◌≡◌, refl, Bool, Option, none, some, List, All, lookup, Bool-cases, Option-cases, inl, inr,
}
use pg_agent_rs.Store.{ConsensusStore}
use pg_agent_rs.ClusterView.{WalPosition}
use pg_agent_rs.Ha.{HaConfig, took_over, LocalView, PeerView, TickState}
use pg_agent_rs.Ha.Candidacy.{Env, choose, settle, with_position, consider_candidacy}
use pg_agent_rs.Ha.Candidacy.Gates.{entry_gates}
use pg_agent_rs.Ha.Candidacy.Settle.{sample}
use pg_agent_rs.Ha.Candidacy.Admission.{IsAdmitted, entry_gates-none, entry_gates_passive}
use pg_agent_rs.Ha.Candidacy.Choice.{outranked, best_other}
use pg_agent_rs.Ha.Candidacy.Ranking.{Yields, outranked_iff}
use pg_agent_rs.Ha.Candidacy.Stability.{stable, IsStable, stable_samples_equal}

-- What a won candidacy says.
pub record IsElected (cfg : HaConfig) (now : ℕ) (expected : Option (ℕ × ℕ)) (l : LocalView)
    (peers : List PeerView) (ts : TickState) (my_pos : WalPosition) : Type 0 where
  pub position : l.pos ≡ some my_pos
  pub admitted : IsAdmitted cfg now ts.backoff_until expected l peers
  pub unmoved : (k : ℕ) → lookup k ts.settled_pos ≡ lookup k (sample cfg.local_id my_pos peers)
  pub most_advanced : All (λ (p : PeerView). Yields cfg.local_id my_pos p.node p.pos) peers

module _ {S E : Type 0} (store : ConsensusStore S E) (cfg : HaConfig) (env : Env) where
  chosen :
      (expected : Option (ℕ × ℕ)) (l : LocalView) (peers : List PeerView) (my_pos : WalPosition)
      (ts : TickState) (s : S) (term : ℕ) (already : Bool)
      → (choose store cfg env expected l peers my_pos ts s).0 ≡ took_over term already
      → outranked cfg.local_id my_pos (best_other peers) ≡ none
  unfolding choose
  chosen expected l peers my_pos ts s term already h =
      elim (Option-cases (outranked cfg.local_id my_pos (best_other peers))) [
        | inl e ↦ e
        | inr (r, e) ↦ absurd (cc (rw (e, choose) at h))
      ]

  settled :
      (expected : Option (ℕ × ℕ)) (l : LocalView) (peers : List PeerView) (my_pos : WalPosition)
      (ts : TickState) (s : S) (term : ℕ) (already : Bool)
      → (settle store cfg env expected l peers my_pos ts s).0 ≡ took_over term already
      → IsStable cfg.local_id ts.settled_pos (sample cfg.local_id my_pos peers)
        × (outranked cfg.local_id my_pos (best_other peers) ≡ none)
  unfolding settle
  settled expected l peers my_pos ts s term already h =
      elim (Bool-cases (stable cfg.local_id ts.settled_pos (sample cfg.local_id my_pos peers))) [
        | inl e ↦ (e, chosen expected l peers my_pos _ s term already (rw (e, settle) at h))
        | inr e ↦ absurd (cc (rw (e, settle) at h))
      ]

  at_position :
      (expected : Option (ℕ × ℕ)) (l : LocalView) (peers : List PeerView) (o : Option WalPosition)
      (ts : TickState) (s : S) (term : ℕ) (already : Bool)
      → (with_position store cfg env expected l peers o ts s).0 ≡ took_over term already
      → (my_pos : WalPosition) × (o ≡ some my_pos)
        × IsStable cfg.local_id ts.settled_pos (sample cfg.local_id my_pos peers)
        × (outranked cfg.local_id my_pos (best_other peers) ≡ none)
  unfolding with_position
  at_position expected l peers none ts s term already h = absurd (cc h)
  at_position expected l peers (some x) ts s term already h =
      let (a, b) = settled expected l peers x ts s term already h in (x, refl, a, b)

  -- A candidacy that takes the lease over was admitted by every gate (no backoff running, local
  -- state known, no reachable member other than the holder saw the holder serve within the ttl,
  -- this standby and every rival not streaming), compared positions that were the same in the
  -- previous tick, for this node and for every peer, and found that every peer yields to it.
  pub consider_candidacy-IsElected :
      (expected : Option (ℕ × ℕ)) (l : LocalView) (peers : List PeerView) (ts : TickState) (s : S)
      (term : ℕ) (already : Bool)
      → (consider_candidacy store cfg env expected l peers ts s).0 ≡ took_over term already
      → (my_pos : WalPosition) × IsElected cfg env.now expected l peers ts my_pos
  unfolding consider_candidacy
  consider_candidacy-IsElected expected l peers ts s term already h =
      elim (Option-cases (entry_gates cfg env.now ts.backoff_until expected l peers)) [
        | inl e ↦
            let (x, p, q, r) =
              at_position expected l peers l.pos ts s term already
                (rw (e, consider_candidacy) at h) in
            (
              x,
              record {
                position = p;
                admitted = entry_gates-none cfg env.now ts.backoff_until expected l peers e;
                unmoved = stable_samples_equal cfg.local_id x peers ts.settled_pos q;
                most_advanced = (outranked_iff cfg.local_id x peers).0 r;
              },
            )
        | inr (d, e) ↦ absurd (
            cc (
              rw (e, consider_candidacy) at h,
              e,
              entry_gates_passive cfg env.now ts.backoff_until expected l peers,
            ))
      ]
