-- ===== src/Ha/Tick/Unknown.antt =====
-- A store that cannot be read: what the tick decides, and that a lease holder fails closed.
use pg_agent_rs.Prelude.{
  ℕ, ◌+◌, ◌-◌, ◌<◌, ◌≡◌, ◌⊎◌, ◌↔◌, true, none, some, List, [], ◌∷◌, arith, All, Result, ok, err,
  inl, inr,
}
use pg_agent_rs.Store.{ConsensusStore}
use pg_agent_rs.Ha.{HaConfig, would_demote, store_unknown, quorum_lost, TickState}
use pg_agent_rs.Ha.Candidacy.{Env}
use pg_agent_rs.Ha.Tick.{or_now, TickInput, tick, run, unknown_tick, tick_once}

abbrev pub IsErr : {E A : Type 0} → Result E A → Type 0
IsErr (ok a) = ⊥
IsErr (err e) = Unit

module _ {S E : Type 0} (store : ConsensusStore S E) (cfg : HaConfig) where
  -- the read of this round fails: it outlives the budget, or the store answers with an error
  abbrev pub Dark : TickInput → Type 0
  Dark i = (i.timed_out ≡ true) ⊎ ((s : S) → IsErr (store.read_state s).0)

  Dark-tick :
      (i : TickInput) (ts : TickState) (s : S)
      → Dark i
      → tick store cfg i ts s ≡ unknown_tick store cfg i.env ts (store.read_state s).1
  unfolding tick_once
  Dark-tick i ts s (inl h) = rw h
  Dark-tick i ts s (inr h) = ground (arith, h s)

  unknown_cases :
      (env : Env) (ts : TickState) (s : S)
      → let since = or_now ts.store_unknown_since env.now in
        let d = (unknown_tick store cfg env ts s).0 in
        ((d ≡ would_demote (quorum_lost (env.now - since)))
          ↔ ((ts.last_holder ≡ some cfg.local_id) × (cfg.retry_timeout < env.now - since)))
        × ((d ≡ would_demote (quorum_lost (env.now - since)))
            ⊎ (d ≡ store_unknown (env.now - since)))
        × ((unknown_tick store cfg env ts s).1 ≡ record ts { store_unknown_since = some since })
        × ((unknown_tick store cfg env ts s).2 ≡ s)
  unfolding unknown_tick
  unknown_cases env ts s =
      ((λ e. ground arith, λ e. ground arith), ground arith, ground arith, ground arith)

  -- A tick whose read fails decides by the time that reads have been failing: it demotes exactly
  -- when this node was the last holder and that time is over `retry_timeout`, and otherwise
  -- reports the store as unknown. It writes nothing to the store, and of its own state only the
  -- start of the outage.
  pub unknown_tick_cases :
      (i : TickInput) (ts : TickState) (s : S)
      → Dark i
      → let since = or_now ts.store_unknown_since i.env.now in
        let d = (tick store cfg i ts s).0 in
        ((d ≡ would_demote (quorum_lost (i.env.now - since)))
          ↔ ((ts.last_holder ≡ some cfg.local_id) × (cfg.retry_timeout < i.env.now - since)))
        × ((d ≡ would_demote (quorum_lost (i.env.now - since)))
            ⊎ (d ≡ store_unknown (i.env.now - since)))
        × ((tick store cfg i ts s).1 ≡ record ts { store_unknown_since = some since })
        × ((tick store cfg i ts s).2 ≡ (store.read_state s).1)
  unknown_tick_cases i ts s h =
      rw (Dark-tick i ts s h) (unknown_cases i.env ts (store.read_state s).1)

  -- no tick of an outage forgets its start or the last holder
  abbrev InOutage : ℕ → ℕ → TickState → Type 0
  InOutage t0 holder ts = (ts.store_unknown_since ≡ some t0) × (ts.last_holder ≡ some holder)

  run-InOutage :
      (is : List TickInput) (ts : TickState) (s : S) (t0 holder : ℕ)
      → All Dark is
      → InOutage t0 holder ts
      → InOutage t0 holder (run store cfg is ts s).1
  unfolding run
  run-InOutage [] ts s t0 holder h o = o
  run-InOutage (i ∷ is) ts s t0 holder h o =
      let (b, c, e, f) = unknown_tick_cases i ts s h.0 in
      run-InOutage is (tick store cfg i ts s).1 (tick store cfg i ts s).2 t0 holder h.1
        (rw e (ground arith))

  late_tick :
      (j : TickInput) (ts : TickState) (s : S) (t0 : ℕ)
      → InOutage t0 cfg.local_id ts
      → Dark j
      → t0 + cfg.retry_timeout < j.env.now
      → (tick store cfg j ts s).0 ≡ would_demote (quorum_lost (j.env.now - t0))
  unfolding unknown_tick
  late_tick j ts s t0 o dj late = rw (Dark-tick j ts s dj) (ground arith)

  first_tick :
      (i : TickInput) (ts : TickState) (s : S) (holder : ℕ)
      → ts.last_holder ≡ some holder
      → ts.store_unknown_since ≡ none
      → Dark i
      → InOutage i.env.now holder (tick store cfg i ts s).1
  unfolding unknown_tick
  first_tick i ts s holder h n di = rw (Dark-tick i ts s di) (ground arith)

  -- Failing closed: a node that was the last holder, and whose reads fail from the round `i` on,
  -- decides to demote in every later round that comes more than `retry_timeout` after `i`, however
  -- many failing rounds lie between.
  pub fail_closed :
      (i j : TickInput) (is : List TickInput) (ts : TickState) (s : S)
      → ts.last_holder ≡ some cfg.local_id
      → ts.store_unknown_since ≡ none
      → Dark i
      → All Dark is
      → Dark j
      → i.env.now + cfg.retry_timeout < j.env.now
      → let (_, ts', s') = run store cfg (i ∷ is) ts s in
        (tick store cfg j ts' s').0 ≡ would_demote (quorum_lost (j.env.now - i.env.now))
  unfolding run
  fail_closed i j is ts s h n di dis dj late =
      let (_, ts', s') = tick store cfg i ts s in
      let (_, ts'', s'') = run store cfg is ts' s' in
      late_tick j ts'' s'' i.env.now
        (run-InOutage is ts' s' i.env.now cfg.local_id dis (first_tick i ts s cfg.local_id h n di))
        dj late
