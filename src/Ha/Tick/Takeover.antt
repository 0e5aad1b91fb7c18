-- ===== src/Ha/Tick/Takeover.antt =====
-- When a tick takes the lease over, and what it commits.
use mathlib.Core.Path.{subst}
use pg_agent_rs.Prelude.{
  ℕ, ◌≡◌, ◌≢◌, refl, Bool, true, Option, none, some, List, arith, Option-cases, Bool-cases, inl,
  inr, Result, ok, err,
}
use pg_agent_rs.Consensus.{ClusterState}
use pg_agent_rs.Raft.Machine.{observed_holds}
use pg_agent_rs.Store.{ConsensusStore, IsLinearizable}
use pg_agent_rs.ClusterView.{WalPosition}
use pg_agent_rs.Ha.{HaConfig, HaDecision, took_over, LocalView, PeerView, TickState}
use pg_agent_rs.Ha.Observe.{observe_local, observe_peers}
use pg_agent_rs.Ha.Candidacy.{Env}
use pg_agent_rs.Ha.Candidacy.Committed.{own_lease, candidacy_commits}
use pg_agent_rs.Ha.Candidacy.Admission.{IsAdmitted}
use pg_agent_rs.Ha.Candidacy.Elected.{IsElected, consider_candidacy-IsElected}
use pg_agent_rs.Ha.Tick.{TickInput, tick, unknown_tick, known_tick, after_read, tick_once}
use pg_agent_rs.Ha.Tick.Claims.{expectation, MayClaim, decide_claims}

IsElected-ts :
    {cfg : HaConfig} {now : ℕ} {e : Option (ℕ × ℕ)} {l : LocalView} {peers : List PeerView}
    {ts' ts : TickState} {x : WalPosition}
    → ts'.backoff_until ≡ ts.backoff_until
    → ts'.settled_pos ≡ ts.settled_pos
    → IsElected cfg now e l peers ts' x
    → IsElected cfg now e l peers ts x
IsElected-ts {cfg} {now} {e} {l} {peers} b p el = record {
  position = el.position;
  admitted = subst (λ o. IsAdmitted cfg now o e l peers) b el.admitted;
  unmoved = λ k. rw (← p) (el.unmoved k);
  most_advanced = el.most_advanced;
}

module _ {S E : Type 0} (store : ConsensusStore S E) (cfg : HaConfig) (env : Env) where
  -- What is known of the tick, when it took the lease over with `term`.
  pub record TookOver (view : S → ClusterState) (s : S) (c : ClusterState) (l : LocalView)
      (peers : List PeerView) (ts : TickState) (term : ℕ) (out : HaDecision × TickState × S)
      : Type 0 where
    pub not_paused : c.paused ≡ none
    pub may_claim : MayClaim cfg env.now ts.holder_unhealthy_since l peers c.lease
    pub position : WalPosition
    pub elected : IsElected cfg env.now (expectation c.lease) l peers ts position
    pub observed : observed_holds (view s).lease (expectation c.lease) ≡ true
    pub committed : (view out.2).lease ≡ some (own_lease store cfg env term)
    pub remembers : out.1.last_holder ≡ some cfg.local_id

  known_took_over :
      (view : S → ClusterState)
      → IsLinearizable store view
      → (c : ClusterState) (l : LocalView) (peers : List PeerView) (ts : TickState) (s : S)
        (term : ℕ) (already : Bool)
      → (known_tick store cfg env c l peers ts s).0 ≡ took_over term already
      → TookOver view s c l peers ts term (known_tick store cfg env c l peers ts s)
  unfolding known_tick
  known_took_over view lin c l peers ts s term already h = elim (Option-cases c.paused) [
    | inr (p, e) ↦ absurd (cc (rw (e, known_tick) at h))
    | inl e ↦
        let g = rw (e, known_tick) at h in
        let (may, (ts', b, p, claim)) = decide_claims store cfg env c.lease l peers ts s g in
        let won = rw claim at g in
        let (x, el) =
          consider_candidacy-IsElected store cfg env (expectation c.lease) l peers ts' s term
            already won in
        let (o, lease) =
          candidacy_commits store cfg env view lin (expectation c.lease) l peers ts' s term already
            won in
        record {
          not_paused = e;
          may_claim = may;
          position = x;
          elected = IsElected-ts b p el;
          observed = o;
          committed = rw (e, known_tick) (rw claim lease);
          remembers = rw (e, known_tick) (rw g);
        }
  ]

  unknown_claims :
      (ts : TickState) (s : S) {term : ℕ} {already : Bool}
      → (unknown_tick store cfg env ts s).0 ≢ took_over term already
  unfolding unknown_tick
  unknown_claims ts s e = ground arith

  -- the committed state that a read returned, and what the tick then did
  abbrev pub TookOverAfter :
      (S → ClusterState)
      → S
      → Result E ClusterState
      → LocalView
      → List PeerView
      → TickState
      → ℕ
      → HaDecision × TickState × S
      → Type 0
  TookOverAfter view s r l peers ts term out =
      (c : ClusterState) × (r ≡ ok c) × TookOver view s c l peers ts term out

  after_read_took_over :
      (view : S → ClusterState)
      → IsLinearizable store view
      → (r : Result E ClusterState) (l : LocalView) (peers : List PeerView) (ts : TickState) (s : S)
        (term : ℕ) (already : Bool)
      → (after_read store cfg env r l peers ts s).0 ≡ took_over term already
      → TookOverAfter view s r l peers ts term (after_read store cfg env r l peers ts s)
  unfolding after_read
  after_read_took_over view lin (err e) l peers ts s term already h = absurd (unknown_claims ts s h)
  after_read_took_over view lin (ok c) l peers ts s term already h =
      let t =
        known_took_over view lin c l peers (record ts { store_unknown_since = none }) s term already
          h in
      (
        c,
        refl,
        record {
          not_paused = t.not_paused;
          may_claim = t.may_claim;
          position = t.position;
          elected = IsElected-ts refl refl t.elected;
          observed = t.observed;
          committed = t.committed;
          remembers = t.remembers;
        },
      )

-- When a tick takes the lease over, over a linearizable store: its read was answered, with the
-- committed state `c` of that moment; the cluster was not paused; the lease was vacant with no
-- other primary in sight, or its holder, another node, was not seen serving for `leader_ttl`; the
-- candidacy was admitted by every gate, on positions unchanged since the previous tick, with every
-- peer yielding; the committed lease still was what was observed; and now it is this node's, with
-- the term of the decision.
pub tick_took_over :
    {S E : Type 0} (store : ConsensusStore S E) (cfg : HaConfig) (view : S → ClusterState)
    → IsLinearizable store view
    → (i : TickInput) (ts : TickState) (s : S) (term : ℕ) (already : Bool)
    → (tick store cfg i ts s).0 ≡ took_over term already
    → (c : ClusterState) × ((store.read_state s).0 ≡ ok c)
      × (c ≡ view s)
      × TookOver store cfg i.env view
          (store.read_state s).1
          c
          (observe_local i.db)
          (observe_peers i.statuses)
          ts
          term
          (tick store cfg i ts s)
unfolding tick_once
tick_took_over store cfg view lin i ts s term already h = elim (Bool-cases i.timed_out) [
  | inl e ↦ absurd (unknown_claims store cfg i.env ts (store.read_state s).1 (rw e at h))
  | inr e ↦
      let (c, r, t) =
        after_read_took_over store cfg i.env view lin (store.read_state s).0 (observe_local i.db)
          (observe_peers i.statuses) ts (store.read_state s).1 term already (rw e at h) in
      (c, r, lin.read_current s c r, rw e t)
]
