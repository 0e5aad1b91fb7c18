-- ===== src/Ha/Tick.antt =====
-- One tick of the loop (crates/pg-agent-core/src/ha.rs, `tick_once`).
pub mod Unknown
pub mod Claims
pub mod Takeover
pub mod Awaiting
use pg_agent_rs.Prelude.{
  ℕ, ◌-◌, Bool, true, false, not, ◌&&◌, Option, none, some, List, [], ◌∷◌, ◌++◌, map, ◌==◌, ltb,
  leb, if◌then◌else◌, find, keep, Result, ok, err,
}
use pg_agent_rs.Consensus.{Lease, Paused, ClusterState}
use pg_agent_rs.Store.{ConsensusStore}
use pg_agent_rs.ClusterView.{NodeStatus}
use pg_agent_rs.Ha.{
  HaConfig, HaDecision, is_paused, store_unknown, would_demote, retained_lease, awaiting_promotion,
  following, would_follow_new_holder, holder_unhealthy, stood_down, took_over, quorum_lost,
  promotion_failed, local_query_failed, vacant_with_primary, many_primaries, LocalView, PeerView,
  TickState,
}
use pg_agent_rs.Ha.Observe.{LocalAnswers, observe_local, observe_peers}
use pg_agent_rs.Ha.Candidacy.{Env, arm_backoff, is_leading, consider_candidacy}

abbrev pub or_now : Option ℕ → ℕ → ℕ
or_now none now = now
or_now (some t) now = t

abbrev pub is_node : Option ℕ → ℕ → Bool
is_node none id = false
is_node (some j) id = j == id

-- the clock is keyed to the holder that it watched
abbrev pub watch : Option (ℕ × ℕ) → ℕ → ℕ → ℕ
watch none holder now = now
watch (some (h, t)) holder now = if h == holder then t else now

abbrev lease_holder : Option Lease → Option ℕ
lease_holder none = none
lease_holder (some l) = some l.holder

abbrev pub is_healthy : ℕ → List PeerView → Bool
is_healthy holder peers = elim (find (λ (p : PeerView). p.node == holder) peers) [
  | none ↦ false
  | some p ↦ p.running_as_primary
]

-- peers seen running as a primary, then this node
abbrev pub observed_primaries : ℕ → LocalView → List PeerView → List ℕ
observed_primaries local_id l peers =
    map (λ (p : PeerView). p.node) (keep (λ (p : PeerView). p.running_as_primary) peers)
    ++ (if is_leading l.is_primary then local_id ∷ [] else [])

-- `self.timing.leader_ttl`
abbrev pub promotion_grace : HaConfig → ℕ
promotion_grace cfg = cfg.leader_ttl

module _ {S E : Type 0} (store : ConsensusStore S E) (cfg : HaConfig) (env : Env) where
  -- a failed read: only a holder escalates, and only past the retry budget
  unfoldable pub unknown_tick : TickState → S → HaDecision × TickState × S
  unknown_tick ts s =
      let since = or_now ts.store_unknown_since env.now in
      let ts' = record ts { store_unknown_since = some since } in
      let unknown_for = env.now - since in
      if is_node ts.last_holder cfg.local_id && ltb cfg.retry_timeout unknown_for
      then (would_demote (quorum_lost unknown_for), ts', s)
      else (store_unknown unknown_for, ts', s)

  -- the clock of the promotion grace window starts when the term is first seen held
  start_term : Lease → TickState → TickState
  start_term lease ts =
      if is_node ts.held_term lease.term
      then ts
      else record ts { held_term = some lease.term; held_since = some env.now }

  holding : Lease → Option Bool → ℕ → TickState → S → HaDecision × TickState × S
  unfolding arm_backoff
  holding lease (some true) held_for ts s = (retained_lease lease.term, ts, s)
  holding lease (some false) held_for ts s =
      if ltb held_for (promotion_grace cfg)
      then (awaiting_promotion lease.term held_for, ts, s)
      else (
        would_demote (promotion_failed held_for),
        arm_backoff cfg env ts,
        (store.release_lease cfg.local_id lease.term s).1,
      )
  holding lease none held_for ts s = (would_demote local_query_failed, ts, s)

  -- this node holds the lease
  unfoldable pub holder_tick : Lease → LocalView → TickState → S → HaDecision × TickState × S
  unfolding start_term holding
  holder_tick lease l ts s =
      let ts' = start_term lease (record ts { holder_unhealthy_since = none; settled_pos = [] }) in
      holding lease l.is_primary (env.now - or_now ts'.held_since env.now) ts' s

  abbrev pub follow : Option ℕ → ℕ → HaDecision
  follow none holder = following holder
  follow (some p) holder =
      if p == holder then following holder else would_follow_new_holder p holder

  -- another node holds it
  unfoldable pub follower_tick :
      Lease → LocalView → List PeerView → TickState → S → HaDecision × TickState × S
  follower_tick lease l peers ts s =
      let since = watch ts.holder_unhealthy_since lease.holder env.now in
      let ts' = record ts { holder_unhealthy_since = some (lease.holder, since) } in
      if is_healthy lease.holder peers
      then (
        follow ts.last_holder lease.holder,
        record ts { holder_unhealthy_since = none; settled_pos = [] },
        s,
      )
      else if leb cfg.leader_ttl (env.now - since)
      then consider_candidacy store cfg env (some (lease.holder, lease.term)) l peers ts' s
      else (holder_unhealthy lease.holder (env.now - since), ts', s)

  vacant_with : List ℕ → LocalView → List PeerView → TickState → S → HaDecision × TickState × S
  vacant_with [] l peers ts s = consider_candidacy store cfg env none l peers ts s
  vacant_with (only ∷ []) l peers ts s =
      if only == cfg.local_id
      then consider_candidacy store cfg env none l peers ts s
      else (stood_down (vacant_with_primary only), ts, s)
  vacant_with many l peers ts s = (stood_down (many_primaries many), ts, s)

  unfoldable pub vacant_tick :
      LocalView → List PeerView → TickState → S → HaDecision × TickState × S
  unfolding vacant_with
  vacant_tick l peers ts s = vacant_with (observed_primaries cfg.local_id l peers) l peers ts s

  pub decide : Option Lease → LocalView → List PeerView → TickState → S → HaDecision × TickState × S
  decide none l peers ts s = vacant_tick l peers ts s
  decide (some lease) l peers ts s =
      if lease.holder == cfg.local_id
      then holder_tick lease l ts s
      else follower_tick lease l peers ts s

  -- the committed holder, for the next tick's comparisons
  abbrev pub remembered : HaDecision → Option Lease → Option ℕ
  remembered (took_over term already) lease = some cfg.local_id
  remembered _ lease = lease_holder lease

  unfoldable pub known_tick :
      ClusterState → LocalView → List PeerView → TickState → S → HaDecision × TickState × S
  unfolding decide
  known_tick c l peers ts s =
      let (d, ts', s') = decide c.lease l peers ts s in
      elim c.paused [
        | some p ↦ (is_paused, ts, s)
        | none ↦ (d, record ts' { last_holder = remembered d c.lease }, s')
      ]

  after_read :
      Result E ClusterState → LocalView → List PeerView → TickState → S → HaDecision × TickState × S
  after_read (err e) l peers ts s = unknown_tick ts s
  after_read (ok c) l peers ts s = known_tick c l peers (record ts { store_unknown_since = none }) s

  -- a read that outlives `retry_timeout` counts as a failed one
  unfoldable pub tick_once :
      Bool
      → LocalAnswers
      → List (ℕ × Option NodeStatus)
      → TickState
      → S
      → HaDecision × TickState × S
  unfolding after_read
  tick_once timed_out db statuses ts s =
      let (answer, s') = store.read_state s in
      let l = observe_local db in
      let peers = observe_peers statuses in
      if timed_out then unknown_tick ts s' else after_read answer l peers ts s'

-- What one round of the loop gets from outside.
pub record TickInput : Type 0 where
  pub env : Env
  pub timed_out : Bool
  pub db : LocalAnswers
  pub statuses : List (ℕ × Option NodeStatus)

abbrev pub tick :
    {S E : Type 0}
    → ConsensusStore S E
    → HaConfig
    → TickInput
    → TickState
    → S
    → HaDecision × TickState × S
tick store cfg i ts s = tick_once store cfg i.env i.timed_out i.db i.statuses ts s

-- the rounds of the loop, one tick for each input, with every decision
unfoldable pub run :
    {S E : Type 0}
    → ConsensusStore S E
    → HaConfig
    → List TickInput
    → TickState
    → S
    → List HaDecision × TickState × S
run store cfg [] ts s = ([], ts, s)
run store cfg (i ∷ is) ts s =
    let (d, ts', s') = tick store cfg i ts s in
    let (ds, ts'', s'') = run store cfg is ts' s' in (d ∷ ds, ts'', s'')
