-- ===== src/Ha/Tick/Claims.antt =====
-- The grounds on which a tick enters a candidacy that takes the lease over.
use pg_agent_rs.Prelude.{
  ℕ, ◌-◌, ◌≤◌, ◌≡◌, ◌≢◌, refl, Bool, true, false, Option, none, some, List, [], ◌∷◌, arith,
  Bool-cases, inl, inr, ==_iff, leb, leb→le, ◌==◌,
}
use pg_agent_rs.Consensus.{Lease}
use pg_agent_rs.Store.{ConsensusStore}
use pg_agent_rs.Ha.{HaConfig, HaDecision, took_over, LocalView, PeerView, TickState}
use pg_agent_rs.Ha.Candidacy.{Env, consider_candidacy}
use pg_agent_rs.Ha.Tick.{
  watch, is_healthy, observed_primaries, holder_tick, holding, follower_tick, vacant_with,
  vacant_tick, decide, follow,
}

-- what a takeover presents as observed
abbrev pub expectation : Option Lease → Option (ℕ × ℕ)
expectation none = none
expectation (some l) = some (l.holder, l.term)

-- no primary is observed but this node itself
abbrev pub OnlySelf : ℕ → List ℕ → Type 0
OnlySelf local_id [] = Unit
OnlySelf local_id (x ∷ []) = x ≡ local_id
OnlySelf local_id (x ∷ y ∷ zs) = ⊥

-- The grounds for a takeover: a vacant lease with no other primary in sight, or a holder that is
-- another node, is not seen serving, and has been so for `leader_ttl` on this node's clock.
abbrev pub MayClaim :
    HaConfig → ℕ → Option (ℕ × ℕ) → LocalView → List PeerView → Option Lease → Type 0
MayClaim cfg now since l peers none =
    OnlySelf cfg.local_id (observed_primaries cfg.local_id l peers)
MayClaim cfg now since l peers (some lease) =
    (lease.holder ≢ cfg.local_id)
    × (is_healthy lease.holder peers ≡ false)
    × (cfg.leader_ttl ≤ now - watch since lease.holder now)

module _ {S E : Type 0} (store : ConsensusStore S E) (cfg : HaConfig) (env : Env) where
  -- the candidacy that a decision came from
  abbrev pub Claimed :
      Option Lease → LocalView → List PeerView → TickState → S → HaDecision × TickState × S → Type 0
  Claimed lease l peers ts s out =
      MayClaim cfg env.now ts.holder_unhealthy_since l peers lease
      × ((ts' : TickState) × (ts'.backoff_until ≡ ts.backoff_until)
          × (ts'.settled_pos ≡ ts.settled_pos)
          × (out ≡ consider_candidacy store cfg env (expectation lease) l peers ts' s))

  holding_claims :
      (lease : Lease) (p : Option Bool) (held_for : ℕ) (ts : TickState) (s : S) {term : ℕ}
      {already : Bool}
      → (holding store cfg env lease p held_for ts s).0 ≢ took_over term already
  unfolding holding
  holding_claims lease (some true) held_for ts s e = cc
  holding_claims lease (some false) held_for ts s e = ground arith
  holding_claims lease none held_for ts s e = cc

  holder_claims :
      (lease : Lease) (l : LocalView) (ts : TickState) (s : S) {term : ℕ} {already : Bool}
      → (holder_tick store cfg env lease l ts s).0 ≢ took_over term already
  unfolding holder_tick
  holder_claims lease l ts s = holding_claims lease l.is_primary _ _ s

  follow_claims :
      (o : Option ℕ) (holder : ℕ) {term : ℕ} {already : Bool}
      → follow store cfg env o holder ≢ took_over term already
  follow_claims none holder e = cc
  follow_claims (some p) holder e = ground arith

  follower_claims :
      (lease : Lease) (l : LocalView) (peers : List PeerView) (ts : TickState) (s : S) {term : ℕ}
      {already : Bool}
      → lease.holder ≢ cfg.local_id
      → (follower_tick store cfg env lease l peers ts s).0 ≡ took_over term already
      → Claimed (some lease) l peers ts s (follower_tick store cfg env lease l peers ts s)
  unfolding follower_tick
  follower_claims lease l peers ts s n h =
      let since = watch ts.holder_unhealthy_since lease.holder env.now in
      let ts' = record ts { holder_unhealthy_since = some (lease.holder, since) } in
      elim (Bool-cases (is_healthy lease.holder peers)) [
        | inl e ↦ absurd (follow_claims ts.last_holder lease.holder (rw (e, follower_tick) at h))
        | inr e ↦ elim (Bool-cases (leb cfg.leader_ttl (env.now - since))) [
          | inl f ↦ (
            (n, e, leb→le cfg.leader_ttl (env.now - since) f),
            (ts', refl, refl, rw (e, f, follower_tick)),
          )
          | inr f ↦ absurd (cc (rw (e, f, follower_tick) at h))
        ]
      ]

  vacant_claims :
      (ids : List ℕ) (l : LocalView) (peers : List PeerView) (ts : TickState) (s : S) {term : ℕ}
      {already : Bool}
      → (vacant_with store cfg env ids l peers ts s).0 ≡ took_over term already
      → OnlySelf cfg.local_id ids
        × (vacant_with store cfg env ids l peers ts s
            ≡ consider_candidacy store cfg env none l peers ts s)
  unfolding vacant_with
  vacant_claims [] l peers ts s h = (tt, refl)
  vacant_claims (x ∷ []) l peers ts s h = elim (Bool-cases (x == cfg.local_id)) [
    | inl e ↦ ((==_iff x cfg.local_id).0 e, rw e)
    | inr e ↦ absurd (cc (rw e at h))
  ]
  vacant_claims (x ∷ y ∷ zs) l peers ts s h = absurd (cc h)

  pub decide_claims :
      (lease : Option Lease) (l : LocalView) (peers : List PeerView) (ts : TickState) (s : S)
      {term : ℕ} {already : Bool}
      → (decide store cfg env lease l peers ts s).0 ≡ took_over term already
      → Claimed lease l peers ts s (decide store cfg env lease l peers ts s)
  unfolding decide vacant_tick
  decide_claims none l peers ts s h =
      let (o, e) = vacant_claims (observed_primaries cfg.local_id l peers) l peers ts s h in
      (o, (ts, refl, refl, e))
  decide_claims (some lease) l peers ts s h = elim (Bool-cases (lease.holder == cfg.local_id)) [
    | inl e ↦ absurd (holder_claims lease l ts s (rw e at h))
    | inr e ↦ rw e (
        follower_claims lease l peers ts s (λ q. cc (e, (==_iff lease.holder cfg.local_id).1 q))
          (rw e at h))
  ]
