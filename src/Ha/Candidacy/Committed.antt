-- ===== src/Ha/Candidacy/Committed.antt =====
-- What a candidacy does to the committed lease.
use pg_agent_rs.Prelude.{
  ℕ, ◌≡◌, ◌≢◌, ◌⊎◌, ◌∙◌, ap, refl, Bool, true, false, Option, none, some, List, arith, Option-cases,
  Bool-cases, inl, inr, Result, ok, err,
}
use pg_agent_rs.Consensus.{Lease, ClusterState, TakeoverOutcome, won, lost}
use pg_agent_rs.Raft.Machine.{observed_holds}
use pg_agent_rs.Raft.Takeover.{takeover-won}
use pg_agent_rs.Store.{ConsensusStore, IsLinearizable}
use pg_agent_rs.ClusterView.{WalPosition}
use pg_agent_rs.Ha.{
  HaConfig, HaDecision, took_over, awaiting_promotion, LocalView, PeerView, TickState,
}
use pg_agent_rs.Ha.Candidacy.{Env, proposed, choose, settle, with_position, consider_candidacy}
use pg_agent_rs.Ha.Candidacy.Gates.{entry_gates}
use pg_agent_rs.Ha.Candidacy.Admission.{takes, entry_gates_passive}
use pg_agent_rs.Ha.Candidacy.Choice.{outranked, best_other}
use pg_agent_rs.Ha.Candidacy.Settle.{sample}
use pg_agent_rs.Ha.Candidacy.Stability.{stable}

module _ {S E : Type 0} (store : ConsensusStore S E) (cfg : HaConfig) (env : Env) where
  -- the proposal that a candidacy makes
  abbrev pub proposal : Option (ℕ × ℕ) → S → Result E TakeoverOutcome × S
  proposal expected s = store.try_takeover env.wall cfg.local_id expected s

  -- A candidacy either ends before the proposal, leaving the store alone and taking nothing, or it
  -- answers what its proposal brought.
  abbrev pub Outcome : Option (ℕ × ℕ) → Option Bool → S → HaDecision × TickState × S → Type 0
  Outcome expected p s out =
      (takes (some out.0) ≡ false) × (out.2 ≡ s)
      ⊎ ((ts : TickState) × (out ≡ proposed store cfg env p ts (proposal expected s)))

  choose-Outcome :
      (expected : Option (ℕ × ℕ)) (l : LocalView) (peers : List PeerView) (x : WalPosition)
      (ts : TickState) (s : S)
      → Outcome expected l.is_primary s (choose store cfg env expected l peers x ts s)
  unfolding choose
  choose-Outcome expected l peers x ts s =
      elim (Option-cases (outranked cfg.local_id x (best_other peers))) [
        | inl e ↦ inr (ts, rw (e, choose))
        | inr (r, e) ↦ inl (rw (e, choose), rw (e, choose))
      ]

  settle-Outcome :
      (expected : Option (ℕ × ℕ)) (l : LocalView) (peers : List PeerView) (x : WalPosition)
      (ts : TickState) (s : S)
      → Outcome expected l.is_primary s (settle store cfg env expected l peers x ts s)
  unfolding settle
  settle-Outcome expected l peers x ts s =
      let cur = sample cfg.local_id x peers in
      elim (Bool-cases (stable cfg.local_id ts.settled_pos cur)) [
        | inl e ↦
            rw (e, settle) (choose-Outcome expected l peers x (record ts { settled_pos = cur }) s)
        | inr e ↦ inl (rw (e, settle), rw (e, settle))
      ]

  position-Outcome :
      (expected : Option (ℕ × ℕ)) (l : LocalView) (peers : List PeerView) (o : Option WalPosition)
      (ts : TickState) (s : S)
      → Outcome expected l.is_primary s (with_position store cfg env expected l peers o ts s)
  unfolding with_position
  position-Outcome expected l peers none ts s = inl (refl, refl)
  position-Outcome expected l peers (some x) ts s = settle-Outcome expected l peers x ts s

  pub candidacy-Outcome :
      (expected : Option (ℕ × ℕ)) (l : LocalView) (peers : List PeerView) (ts : TickState) (s : S)
      → Outcome expected l.is_primary s (consider_candidacy store cfg env expected l peers ts s)
  unfolding consider_candidacy
  candidacy-Outcome expected l peers ts s =
      elim (Option-cases (entry_gates cfg env.now ts.backoff_until expected l peers)) [
        | inl e ↦ rw (e, consider_candidacy) (position-Outcome expected l peers l.pos ts s)
        | inr (d, e) ↦ inl (
          rw (e, consider_candidacy)
              (rw e at (entry_gates_passive cfg env.now ts.backoff_until expected l peers)),
          rw (e, consider_candidacy),
        )
      ]

  pub proposed_settles :
      (p : Option Bool) (ts : TickState) (o : Result E TakeoverOutcome × S) (term d : ℕ)
      → (proposed store cfg env p ts o).0 ≢ awaiting_promotion term d
  unfolding proposed
  proposed_settles p ts (ok (won l), s) term d h = cc
  proposed_settles p ts (ok (lost c), s) term d h = cc
  proposed_settles p ts (err e, s) term d h = cc

  proposed-won :
      (p : Option Bool) (ts : TickState) (r : Result E TakeoverOutcome) (s : S) (term : ℕ)
      (already : Bool)
      → (proposed store cfg env p ts (r, s)).0 ≡ took_over term already
      → (l : Lease) × (r ≡ ok (won l))
        × (l.term ≡ term)
        × (s ≡ (proposed store cfg env p ts (r, s)).2)
  unfolding proposed
  proposed-won p ts (ok (won l)) s term already h = (l, refl, cc, refl)
  proposed-won p ts (ok (lost c)) s term already h = absurd (cc h)
  proposed-won p ts (err e) s term already h = absurd (cc h)

  -- the lease that a takeover of this node with `term` commits
  abbrev pub own_lease : ℕ → Lease
  own_lease term = record { holder = cfg.local_id; term = term; since = env.wall }

  eq_own_lease :
      (x : Lease) (term : ℕ)
      → x.holder ≡ cfg.local_id
      → x.term ≡ term
      → x.since ≡ env.wall
      → x ≡ own_lease term
  eq_own_lease x term a b c = ground arith

  pub candidacy_commits :
      (view : S → ClusterState)
      → IsLinearizable store view
      → (expected : Option (ℕ × ℕ)) (l : LocalView) (peers : List PeerView) (ts : TickState) (s : S)
        (term : ℕ) (already : Bool)
      → (consider_candidacy store cfg env expected l peers ts s).0 ≡ took_over term already
      → (observed_holds (view s).lease expected ≡ true)
        × ((view (consider_candidacy store cfg env expected l peers ts s).2).lease
            ≡ some (own_lease term))
  candidacy_commits view lin expected l peers ts s term already h =
      elim (candidacy-Outcome expected l peers ts s) [
        | inl (quiet, e) ↦ absurd (cc (quiet, h))
        | inr (ts', e) ↦
            let (x, won_it, t, after) =
              proposed-won l.is_primary ts' (proposal expected s).0 (proposal expected s).1 term
                already (rw e at h) in
            let (o, a, b, c) =
              takeover-won (view s) (view (proposal expected s).1) cfg.local_id env.wall expected x
                (lin.takeover_applied env.wall cfg.local_id expected s (won x) won_it) in
            (o, rw e (rw (← after) (a ∙ ap some (eq_own_lease x term b t c))))
      ]
