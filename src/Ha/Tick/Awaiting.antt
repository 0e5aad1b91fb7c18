-- ===== src/Ha/Tick/Awaiting.antt =====
-- When a tick waits for a promotion, and whose the lease is then.
use pg_agent_rs.Prelude.{
  ℕ, ◌≡◌, ◌≢◌, ◌<◌, refl, Bool, true, false, Option, none, some, List, [], ◌∷◌, arith, Option-cases,
  Bool-cases, inl, inr, Result, ok, err, ==_iff, ltb, leb, ◌==◌, ◌-◌,
}
use pg_agent_rs.Consensus.{Lease, ClusterState}
use pg_agent_rs.Store.{ConsensusStore}
use pg_agent_rs.Ha.{HaConfig, HaDecision, awaiting_promotion, LocalView, PeerView, TickState}
use pg_agent_rs.Ha.Observe.{observe_local, observe_peers}
use pg_agent_rs.Ha.Candidacy.{Env, consider_candidacy}
use pg_agent_rs.Ha.Candidacy.Committed.{candidacy-Outcome, proposal, proposed_settles}
use pg_agent_rs.Ha.Tick.{
  TickInput, tick, unknown_tick, known_tick, after_read, tick_once, holding, holder_tick, follow,
  follower_tick, vacant_with, vacant_tick, decide, watch, is_healthy, observed_primaries,
}

module _ {S E : Type 0} (store : ConsensusStore S E) (cfg : HaConfig) (env : Env) where
  candidacy_settles :
      (expected : Option (ℕ × ℕ)) (l : LocalView) (peers : List PeerView) (ts : TickState) (s : S)
      (term d : ℕ)
      → (consider_candidacy store cfg env expected l peers ts s).0 ≢ awaiting_promotion term d
  candidacy_settles expected l peers ts s term d h =
      elim (candidacy-Outcome store cfg env expected l peers ts s) [
        | inl (t, q) ↦ cc (rw h at t)
        | inr (ts', e) ↦
            proposed_settles store cfg env l.is_primary ts' (proposal store cfg env expected s) term
              d (rw e at h)
      ]

  follow_settles :
      (o : Option ℕ) (holder term d : ℕ) → follow store cfg env o holder ≢ awaiting_promotion term d
  follow_settles none holder term d h = cc
  follow_settles (some p) holder term d h = ground arith

  follower_settles :
      (lease : Lease) (l : LocalView) (peers : List PeerView) (ts : TickState) (s : S) (term d : ℕ)
      → (follower_tick store cfg env lease l peers ts s).0 ≢ awaiting_promotion term d
  unfolding follower_tick
  follower_settles lease l peers ts s term d h =
      let since = watch ts.holder_unhealthy_since lease.holder env.now in
      elim (Bool-cases (is_healthy lease.holder peers)) [
        | inl e ↦ follow_settles ts.last_holder lease.holder term d (rw (e, follower_tick) at h)
        | inr e ↦ elim (Bool-cases (leb cfg.leader_ttl (env.now - since))) [
          | inl f ↦ candidacy_settles _ l peers _ s term d (rw (e, f, follower_tick) at h)
          | inr f ↦ cc (rw (e, f, follower_tick) at h)
        ]
      ]

  vacant_settles :
      (ids : List ℕ) (l : LocalView) (peers : List PeerView) (ts : TickState) (s : S) (term d : ℕ)
      → (vacant_with store cfg env ids l peers ts s).0 ≢ awaiting_promotion term d
  unfolding vacant_with
  vacant_settles [] l peers ts s term d h = candidacy_settles none l peers ts s term d h
  vacant_settles (x ∷ []) l peers ts s term d h = elim (Bool-cases (x == cfg.local_id)) [
    | inl e ↦ candidacy_settles none l peers ts s term d (rw e at h)
    | inr e ↦ cc (rw e at h)
  ]
  vacant_settles (x ∷ y ∷ zs) l peers ts s term d h = cc h

  -- A wait for the promotion of `term`: the lease is this node's, with that term, for less than the
  -- grace, and the tick writes nothing.
  pub record Waits (s : S) (lease : Option Lease) (term d : ℕ) (out : HaDecision × TickState × S)
      : Type 0 where
    pub held : (l : Lease) × (lease ≡ some l) × (l.holder ≡ cfg.local_id) × (l.term ≡ term)
    pub within_grace : d < cfg.leader_ttl
    pub quiet : out.2 ≡ s

  holding-Waits :
      (lease : Lease) (p : Option Bool) (held_for : ℕ) (ts : TickState) (s : S) (term d : ℕ)
      → lease.holder ≡ cfg.local_id
      → (holding store cfg env lease p held_for ts s).0 ≡ awaiting_promotion term d
      → Waits s (some lease) term d (holding store cfg env lease p held_for ts s)
  unfolding holding
  holding-Waits lease none held_for ts s term d own h = absurd (cc h)
  holding-Waits lease (some true) held_for ts s term d own h = absurd (cc h)
  holding-Waits lease (some false) held_for ts s term d own h =
      elim (Bool-cases (ltb held_for cfg.leader_ttl)) [
        | inl e ↦
            let g = rw (e, holding) at h in
            record {
              held = (lease, refl, own, cc g);
              within_grace = ground (arith, e, g);
              quiet = rw (e, holding);
            }
        | inr e ↦ absurd (cc (rw (e, holding) at h))
      ]

  decide-Waits :
      (lease : Option Lease) (l : LocalView) (peers : List PeerView) (ts : TickState) (s : S)
      (term d : ℕ)
      → (decide store cfg env lease l peers ts s).0 ≡ awaiting_promotion term d
      → Waits s lease term d (decide store cfg env lease l peers ts s)
  unfolding decide vacant_tick holder_tick
  decide-Waits none l peers ts s term d h =
      absurd (vacant_settles (observed_primaries cfg.local_id l peers) l peers ts s term d h)
  decide-Waits (some lease) l peers ts s term d h =
      elim (Bool-cases (lease.holder == cfg.local_id)) [
        | inl e ↦ rw e (
            holding-Waits lease l.is_primary _ _ s term d ((==_iff lease.holder cfg.local_id).0 e)
              (rw e at h))
        | inr e ↦ absurd (follower_settles lease l peers ts s term d (rw e at h))
      ]

  known-Waits :
      (c : ClusterState) (l : LocalView) (peers : List PeerView) (ts : TickState) (s : S)
      (term d : ℕ)
      → (known_tick store cfg env c l peers ts s).0 ≡ awaiting_promotion term d
      → Waits s c.lease term d (known_tick store cfg env c l peers ts s)
  unfolding known_tick
  known-Waits c l peers ts s term d h = elim (Option-cases c.paused) [
    | inr (p, e) ↦ absurd (cc (rw (e, known_tick) at h))
    | inl e ↦
        let w = decide-Waits c.lease l peers ts s term d (rw (e, known_tick) at h) in
        record { held = w.held; within_grace = w.within_grace; quiet = rw (e, known_tick) w.quiet }
  ]

  unknown_settles :
      (ts : TickState) (s : S) (term d : ℕ)
      → (unknown_tick store cfg env ts s).0 ≢ awaiting_promotion term d
  unfolding unknown_tick
  unknown_settles ts s term d h = ground arith

  after_read-Waits :
      (r : Result E ClusterState) (l : LocalView) (peers : List PeerView) (ts : TickState) (s : S)
      (term d : ℕ)
      → (after_read store cfg env r l peers ts s).0 ≡ awaiting_promotion term d
      → (c : ClusterState) × (r ≡ ok c)
        × Waits s c.lease term d (after_read store cfg env r l peers ts s)
  unfolding after_read
  after_read-Waits (err e) l peers ts s term d h = absurd (unknown_settles ts s term d h)
  after_read-Waits (ok c) l peers ts s term d h =
      (c, refl, known-Waits c l peers (record ts { store_unknown_since = none }) s term d h)

-- A tick that waits for a promotion has read that the lease is this node's, whatever the store is.
pub tick_awaits_read :
    {S E : Type 0} (store : ConsensusStore S E) (cfg : HaConfig) (i : TickInput) (ts : TickState)
    (s : S) (term d : ℕ)
    → (tick store cfg i ts s).0 ≡ awaiting_promotion term d
    → (c : ClusterState) × ((store.read_state s).0 ≡ ok c)
      × ((l : Lease) × (c.lease ≡ some l) × (l.holder ≡ cfg.local_id) × (l.term ≡ term))
unfolding tick_once
tick_awaits_read store cfg i ts s term d h = elim (Bool-cases i.timed_out) [
  | inl e ↦ absurd (unknown_settles store cfg i.env ts (store.read_state s).1 term d (rw e at h))
  | inr e ↦
      let (c, r, w) =
        after_read-Waits store cfg i.env (store.read_state s).0 (observe_local i.db)
          (observe_peers i.statuses) ts (store.read_state s).1 term d (rw e at h) in
      (c, r, w.held)
]
