-- ===== src/RoleExec/Duties.antt =====
-- When the executor stops, and when it promotes, the local instance (`apply` of
-- crates/pg-agent-core/src/roleexec.rs).
use pg_agent_rs.Prelude.{
  ℕ, String, ◌≡◌, refl, Bool, true, false, not, Option, none, arith, any, Bool-cases, inl, inr,
  Result, ok, err,
}
use pg_agent_rs.Inflight.{OpId}
use pg_agent_rs.Ha.{
  HaDecision, is_paused, store_unknown, would_demote, retained_lease, awaiting_promotion, following,
  would_follow_new_holder, holder_unhealthy, detaching_from_deposed, stood_down, took_over,
  lost_takeover,
}
use pg_agent_rs.RoleExec.{
  InstanceState, primary, standby, down, unknown, Action, promote_and_wait, ensure_stopped,
  ExecConfig, ExecInput, RoleExecutor,
}
use pg_agent_rs.RoleExec.Actions.{IsForeground, any_duties, any_after_promotion}
use pg_agent_rs.RoleExec.Promote.{ensure_primary, promote_now, promote_ended, close_done}
use pg_agent_rs.RoleExec.QuorumCommit.{other_members, ensure_quorum_commit}
use pg_agent_rs.RoleExec.Follow.{
  converge_follow, fence, follow, follow_again, follow_known, is_confirmed,
}
use pg_agent_rs.RoleExec.Apply.{apply, steady}

abbrev pub is_stop : Action → Bool
is_stop ensure_stopped = true
is_stop _ = false

abbrev pub is_promotion : Action → Bool
is_promotion promote_and_wait = true
is_promotion _ = false

abbrev pub is_primary : InstanceState → Bool
is_primary primary = true
is_primary _ = false

-- the decisions that must not leave this instance serving as a primary
abbrev pub must_stop : HaDecision → InstanceState → Bool
must_stop (would_demote reason) s = true
must_stop (following holder) s = is_primary s
must_stop (would_follow_new_holder previous holder) s = is_primary s
must_stop _ s = false

-- the decisions of a node that holds the lease and has yet to serve
abbrev pub must_promote : HaDecision → InstanceState → Bool
must_promote (took_over term false) s = not (is_primary s)
must_promote (awaiting_promotion term held_for) s = not (is_primary s)
must_promote _ s = false

is_stop-IsForeground : IsForeground is_stop
is_stop-IsForeground = record { no_slot = λ n. refl; no_arm = λ ids. refl; no_probe = refl }

is_promotion-IsForeground : IsForeground is_promotion
is_promotion-IsForeground = record { no_slot = λ n. refl; no_arm = λ ids. refl; no_probe = refl }

module _ (cfg : ExecConfig) (i : ExecInput) where
  promote_ended-duties :
      (p : Action → Bool)
      → IsForeground p
      → (op : Option OpId) (answer : Result String (Unit {0})) (x : RoleExecutor)
      → any p (promote_ended cfg i op answer x).0 ≡ false
  unfolding promote_ended
  promote_ended-duties p fg op (err why) x = refl
  promote_ended-duties p fg op (ok u) x =
      let x1 = record x { confirmed_upstream = none; journal = close_done i op x.journal } in
      any_after_promotion p fg cfg i i.slot_made (other_members cfg) i.later x1
        (ensure_quorum_commit cfg i true i.later x1).1

  steady-duties :
      (p : Action → Bool) → IsForeground p → (x : RoleExecutor) → any p (steady cfg i x).0 ≡ false
  unfolding steady
  steady-duties p fg x =
      let x1 = record x {
        confirmed_upstream = none;
        follow_stalled_since = none;
        follow_wedged = false;
      } in
      any_duties p fg cfg i false i.now x1 (ensure_quorum_commit cfg i false i.now x1).1

  stops_promoting :
      (term : ℕ) (s : InstanceState) (x : RoleExecutor)
      → any is_stop (ensure_primary cfg i term s x).0 ≡ false
  unfolding ensure_primary promote_now
  stops_promoting term primary x = refl
  stops_promoting term (standby b) x =
      promote_ended-duties is_stop is_stop-IsForeground _ i.promoted _
  stops_promoting term down x = promote_ended-duties is_stop is_stop-IsForeground _ i.promoted _
  stops_promoting term unknown x = promote_ended-duties is_stop is_stop-IsForeground _ i.promoted _

  promotes_promoting :
      (term : ℕ) (s : InstanceState) (x : RoleExecutor)
      → any is_promotion (ensure_primary cfg i term s x).0 ≡ not (is_primary s)
  unfolding ensure_primary promote_now
  promotes_promoting term primary x = refl
  promotes_promoting term (standby b) x = refl
  promotes_promoting term down x = refl
  promotes_promoting term unknown x = refl

  follows :
      (holder : ℕ)
      → (any is_stop (follow cfg i holder).0 ≡ false)
        × (any is_promotion (follow cfg i holder).0 ≡ false)
  unfolding follow follow_known
  follows holder = ground arith

  stops_following :
      (holder : ℕ) (s : InstanceState) (x : RoleExecutor)
      → any is_stop (converge_follow cfg i holder s x).0 ≡ is_primary s
  unfolding converge_follow fence follow_again
  stops_following holder primary x = refl
  stops_following holder (standby b) x =
      elim (Bool-cases (is_confirmed x.confirmed_upstream holder)) [
        | inl e ↦ rw e refl
        | inr e ↦ rw e (follows holder).0
      ]
  stops_following holder down x = refl
  stops_following holder unknown x = refl

  promotes_following :
      (holder : ℕ) (s : InstanceState) (x : RoleExecutor)
      → any is_promotion (converge_follow cfg i holder s x).0 ≡ false
  unfolding converge_follow fence follow_again
  promotes_following holder primary x = refl
  promotes_following holder (standby b) x =
      elim (Bool-cases (is_confirmed x.confirmed_upstream holder)) [
        | inl e ↦ rw e refl
        | inr e ↦ rw e (follows holder).1
      ]
  promotes_following holder down x = refl
  promotes_following holder unknown x = refl

  -- Fencing is never gated: whatever the journal, the database, the peers and the executor's memory
  -- hold, the local instance is stopped exactly on a demotion, and when it runs as primary while the
  -- decision is to follow another holder.
  pub apply_stops :
      (d : HaDecision) (x : RoleExecutor) → any is_stop (apply cfg i d x).0 ≡ must_stop d i.state
  unfolding apply fence
  apply_stops (took_over term false) x = stops_promoting term i.state x
  apply_stops (awaiting_promotion term held_for) x = stops_promoting term i.state x
  apply_stops (would_demote reason) x = refl
  apply_stops (following holder) x = stops_following holder i.state x
  apply_stops (would_follow_new_holder previous holder) x = stops_following holder i.state x
  apply_stops (detaching_from_deposed holder) x = refl
  apply_stops (retained_lease term) x = steady-duties is_stop is_stop-IsForeground x
  apply_stops (took_over term true) x = steady-duties is_stop is_stop-IsForeground x
  apply_stops is_paused x = refl
  apply_stops (store_unknown d) x = refl
  apply_stops (holder_unhealthy holder d) x = refl
  apply_stops (stood_down why) x = refl
  apply_stops (lost_takeover current) x = refl

  -- The local instance is promoted exactly when it is not a primary and the decision is that this
  -- node took the lease over, or still waits for its promotion, whether or not the journal works.
  pub apply_promotes :
      (d : HaDecision) (x : RoleExecutor)
      → any is_promotion (apply cfg i d x).0 ≡ must_promote d i.state
  unfolding apply fence
  apply_promotes (took_over term false) x = promotes_promoting term i.state x
  apply_promotes (awaiting_promotion term held_for) x = promotes_promoting term i.state x
  apply_promotes (would_demote reason) x = refl
  apply_promotes (following holder) x = promotes_following holder i.state x
  apply_promotes (would_follow_new_holder previous holder) x = promotes_following holder i.state x
  apply_promotes (detaching_from_deposed holder) x = refl
  apply_promotes (retained_lease term) x = steady-duties is_promotion is_promotion-IsForeground x
  apply_promotes (took_over term true) x = steady-duties is_promotion is_promotion-IsForeground x
  apply_promotes is_paused x = refl
  apply_promotes (store_unknown d) x = refl
  apply_promotes (holder_unhealthy holder d) x = refl
  apply_promotes (stood_down why) x = refl
  apply_promotes (lost_takeover current) x = refl
