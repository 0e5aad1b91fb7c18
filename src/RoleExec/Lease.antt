-- ===== src/RoleExec/Lease.antt =====
-- The loop and its executor together: a tick of crates/pg-agent-core/src/ha.rs, and its decision
-- executed by crates/pg-agent-core/src/roleexec.rs.
use pg_agent_rs.Prelude.{
  ok, ℕ, ◌+◌, ◌<◌, ◌≡◌, ◌⊎◌, refl, sym, ◌∙◌, true, false, some, any, arith, inl, inr,
}
use pg_agent_rs.Consensus.{Lease, ClusterState}
use pg_agent_rs.Store.{ConsensusStore, IsLinearizable}
use pg_agent_rs.Ha.{
  HaConfig, HaDecision, is_paused, store_unknown, would_demote, retained_lease, awaiting_promotion,
  following, would_follow_new_holder, holder_unhealthy, detaching_from_deposed, stood_down,
  took_over, lost_takeover, TickState,
}
use pg_agent_rs.Ha.Candidacy.Committed.{own_lease}
use pg_agent_rs.Ha.Tick.{TickInput, tick}
use pg_agent_rs.Ha.Tick.Takeover.{tick_took_over}
use pg_agent_rs.Ha.Tick.Awaiting.{tick_awaits_read}
use pg_agent_rs.Ha.Tick.Unknown.{Dark, unknown_tick_cases}
use pg_agent_rs.RoleExec.{InstanceState, ExecConfig, ExecInput, RoleExecutor}
use pg_agent_rs.RoleExec.Apply.{apply}
use pg_agent_rs.RoleExec.Duties.{is_stop, is_promotion, must_promote, apply_stops, apply_promotes}

promoting_decisions :
    (d : HaDecision) (s : InstanceState)
    → must_promote d s ≡ true
    → ((term : ℕ) × (d ≡ took_over term false))
      ⊎ ((term : ℕ) × ((held_for : ℕ) × (d ≡ awaiting_promotion term held_for)))
promoting_decisions (took_over term false) s h = inl (term, refl)
promoting_decisions (took_over term true) s h = absurd (cc h)
promoting_decisions (awaiting_promotion term held_for) s h = inr (term, (held_for, refl))
promoting_decisions (would_demote reason) s h = absurd (cc h)
promoting_decisions (following holder) s h = absurd (cc h)
promoting_decisions (would_follow_new_holder previous holder) s h = absurd (cc h)
promoting_decisions (detaching_from_deposed holder) s h = absurd (cc h)
promoting_decisions (retained_lease term) s h = absurd (cc h)
promoting_decisions is_paused s h = absurd (cc h)
promoting_decisions (store_unknown d) s h = absurd (cc h)
promoting_decisions (holder_unhealthy holder d) s h = absurd (cc h)
promoting_decisions (stood_down why) s h = absurd (cc h)
promoting_decisions (lost_takeover current) s h = absurd (cc h)

module _ {S E : Type 0} (store : ConsensusStore S E) (cfg : HaConfig) (xcfg : ExecConfig) where
  -- who holds a lease that a tick's read answered, or that its takeover has committed
  abbrev pub ReadOrWon : (S → ClusterState) → TickInput → TickState → S → Lease → Type 0
  ReadOrWon view i ts s l =
      ((c : ClusterState) × ((store.read_state s).0 ≡ ok c) × (c.lease ≡ some l))
      ⊎ ((view (tick store cfg i ts s).2).lease ≡ some l)

  -- No promotion without the lease: where the executor promotes the local instance on a tick's
  -- decision, this node holds the lease of the document that the tick's read answered, or, over a
  -- linearizable store, the one that the tick's takeover has committed. This holds whatever the
  -- instance, the database, the peers, pgpool and the journal answer. A rival that takes over after
  -- that answer and before the promotion is not excluded.
  pub promotes-Leased :
      (view : S → ClusterState)
      → IsLinearizable store view
      → (i : TickInput) (ts : TickState) (s : S) (xi : ExecInput) (x : RoleExecutor)
      → any is_promotion (apply xcfg xi (tick store cfg i ts s).0 x).0 ≡ true
      → (l : Lease) × (l.holder ≡ cfg.local_id) × ReadOrWon view i ts s l
  promotes-Leased view lin i ts s xi x h =
      let d = (tick store cfg i ts s).0 in
      elim (promoting_decisions d xi.state (sym (apply_promotes xcfg xi d x) ∙ h)) [
        | inl (term, e) ↦
            let (c, r, q, t) = tick_took_over store cfg view lin i ts s term false e in
            (own_lease store cfg i.env term, refl, inr t.committed)
        | inr (term, (held_for, e)) ↦
            let (c, r, (l, q, own, t)) = tick_awaits_read store cfg i ts s term held_for e in
            (l, own, inl (c, r, q))
      ]

  -- A holder cut off from the store stops: where this node was the last holder, the read fails, and
  -- reads have been failing for longer than `retry_timeout`, the executor stops the local instance
  -- on the tick's decision, whatever everything else answers.
  pub outage_stops :
      (i : TickInput) (ts : TickState) (s : S) (t0 : ℕ) (xi : ExecInput) (x : RoleExecutor)
      → Dark store cfg i
      → ts.last_holder ≡ some cfg.local_id
      → ts.store_unknown_since ≡ some t0
      → t0 + cfg.retry_timeout < i.env.now
      → any is_stop (apply xcfg xi (tick store cfg i ts s).0 x).0 ≡ true
  outage_stops i ts s t0 xi x dark own since late =
      let (c, e, f, g) = unknown_tick_cases store cfg i ts s dark in
      let demoted = c.1 (own, rw since (omega (arith, late))) in
      apply_stops xcfg xi (tick store cfg i ts s).0 x ∙ rw demoted refl
