-- ===== src/Handoff/Whole.antt =====
-- A whole request of a handoff (crates/pg-agent-core/src/localserver.rs, `cluster_handoff`).
use mathlib.Core.Path.{subst}
use pg_agent_rs.Inflight.Phase.{op_at}
use pg_agent_rs.Prelude.{
  ℕ, String, ◌≡◌, ◌⊎◌, refl, Bool, true, false, not, ◌||◌, some, List, [], ◌∷◌, ◌==◌, inl, inr,
  Result, ok, err,
}
use pg_agent_rs.Inflight.{OpId, InflightOp}
use pg_agent_rs.Pool.{NodeConfig, NodePool}
use pg_agent_rs.Orchestration.{Env, World, Early, OpResult, Task, pure, continue, ◌>>=◌, ◌>>◌, when}
use pg_agent_rs.Orchestration.Rules.{Ends, Triple, Triple-pure, Triple-bind, continue-Ends}
use pg_agent_rs.Handoff.{run_handoff_from_phase, handoff_phase_index, climb}
use pg_agent_rs.Handoff.Rungs.{Safe, Sound, AllDone-nothing}
use pg_agent_rs.Handoff.Safe.{climb-Triple}
use pg_agent_rs.Handoff.Request.{begin_follow, fan_out_follow_primary, preflight, cluster_handoff}
use pg_agent_rs.Handoff.Accepted.{Declined, Accepted, preflight-Ends}

module _ (env : Env) (local : ℕ) (target : NodeConfig) where
  Calm : World → Type 0
  Calm w = Safe local target.id w.log

  -- the fan-out calls no one
  follow-Triple :
      (b : Bool) (m : NodeConfig)
      → Triple Calm (when b (begin_follow env m target)) (λ u w. Calm w) Calm
  unfolding begin_follow Calm
  follow-Triple true m = record { at = λ w h. h }
  follow-Triple false m = Triple-pure tt (λ w h. h)

  fan_out-Triple :
      (ms : List NodeConfig)
      → Triple Calm (fan_out_follow_primary env local target ms) (λ u w. Calm w) Calm
  unfolding fan_out_follow_primary
  fan_out-Triple [] = Triple-pure tt (λ w h. h)
  fan_out-Triple (m ∷ ms) =
      Triple-bind (when (not (m.id == local || m.id == target.id)) (begin_follow env m target))
        (λ u. fan_out_follow_primary env local target ms)
        (follow-Triple (not (m.id == local || m.id == target.id)) m) (λ u. fan_out-Triple ms)

  when-Triple :
      (b : Bool) (ms : List NodeConfig)
      → Triple Calm (when b (fan_out_follow_primary env local target ms)) (λ u w. Calm w) Calm
  when-Triple true ms = fan_out-Triple ms
  when-Triple false ms = Triple-pure tt (λ w h. h)

  weaker :
      (id : OpId) (r : Result Early OpResult × World)
      → Ends (λ a w. Sound local target.id id w) (Sound local target.id id) r
      → Ends (λ a w. Calm w) Calm r
  unfolding Calm
  weaker id (ok a, w) s = s.safe
  weaker id (err e, w) s = s.safe

  -- the run of an op that was begun, and the fan-out after it
  run : (id : OpId) (ms : List NodeConfig) → Task OpResult
  run id ms =
      run_handoff_from_phase env id local target.id "preflight_done"
      >>= (λ (a : OpResult). when a.ok (fan_out_follow_primary env local target ms) >> pure a)

  run-Ends :
      (id : OpId) (ms : List NodeConfig) (w : World)
      → Sound local target.id id w
      → Ends (λ a v. Calm v) Calm (run id ms w)
  unfolding run_handoff_from_phase handoff_phase_index run ◌>>=◌
  run-Ends id ms w s =
      let (r, v) = climb env id local target.id 0 w in
      continue-Ends r v
        (λ (a : OpResult). when a.ok (fan_out_follow_primary env local target ms) >> pure a)
        (λ a. Triple-bind _ _ (when-Triple a.ok ms) (λ u. Triple-pure a (λ u h. h)))
        (weaker id (r, v)
          ((climb-Triple local target.id env id 0).at w (s, AllDone-nothing local target.id w.log)))

-- A handoff begins only where it may: from an empty log, a request either declines, with no op
-- begun and no call that the log keeps but at most one dial (the questions about a status, a role or
-- a position, which change nothing, are not kept), or it was accepted. Then the local node is
-- the pool's local node and not in recovery; the target is the asked node, not the local one, answered
-- as running in recovery, and unless a lag is allowed both positions are known and it is at most
-- 16 MiB behind; no op whose file is read was in progress; and each call was made after all lower steps had succeeded.
pub cluster_handoff-Accepted :
    (slot_text : ℕ → String) (pool : NodePool) (env : Env) (to : ℕ) (allow_lag : Bool) (w : World)
    → w.log ≡ []
    → Declined w (cluster_handoff slot_text pool env to allow_lag w).1
      ⊎ ((id : OpId) × (local : NodeConfig) × (target : NodeConfig) × (begun : World) × Accepted
            slot_text pool env to allow_lag w id local target begun
          × Safe local.id target.id (cluster_handoff slot_text pool env to allow_lag w).1.log)
unfolding cluster_handoff Calm run handoff_phase_index ◌>>=◌
cluster_handoff-Accepted slot_text pool env to allow_lag w empty =
    let (r, u) = preflight slot_text pool env to allow_lag w in
    by_answer r u (preflight-Ends slot_text pool env to allow_lag w)
  where
    go : OpId × NodeConfig × NodeConfig → Task OpResult
    go (id, local, target) = run env local.id target id pool.members

    calm :
        (local : ℕ) (target : NodeConfig) (r : Result Early OpResult × World)
        → Ends (λ a v. Calm env local target v) (Calm env local target) r
        → Safe local target.id r.1.log
    calm local target (ok a, v) h = h
    calm local target (err e, v) h = h

    -- the op that was begun is at its first phase
    begun_Sound :
        (id : OpId) (local target : NodeConfig) (u : World)
        → Accepted slot_text pool env to allow_lag w id local target u
        → Sound local.id target.id id u
    begun_Sound id local target u a = record {
      safe = rw (a.dialled, empty) (AllDone-nothing local.id target.id [], tt);
      concerns = λ o h. rw (the_op o h, a.begins.asked) (refl, refl);
      behind = λ o k h i.
          let zero_phase : 0 ≡ k = cc (rw a.begins.first at (rw (the_op o h) at i)) in
          rw (← zero_phase) (AllDone-nothing local.id target.id u.log);
    }
      where
        the_op : (o : InflightOp) → op_at id u.journal ≡ some o → o ≡ a.op
        the_op o h =
            let f : op_at id u.journal ≡ some a.op =
              subst (λ k. op_at k u.journal ≡ some a.op) a.named a.begins.found in
            cc (f, h)

    by_answer :
        (r : Result Early (OpId × NodeConfig × NodeConfig)) (u : World)
        → Ends
            (λ (id, local, target) v. Accepted slot_text pool env to allow_lag w id local target v)
            (Declined w)
            (r, u)
        → Declined w (continue r go u).1
          ⊎ ((id : OpId) × (local : NodeConfig) × (target : NodeConfig) × (begun : World) × Accepted
                slot_text pool env to allow_lag w id local target begun
              × Safe local.id target.id (continue r go u).1.log)
    by_answer (err e) u d = inl d
    by_answer (ok (id, local, target)) u a = inr (
      id,
      local,
      target,
      u,
      a,
      calm local.id target (run env local.id target id pool.members u)
          (run-Ends env local.id target id pool.members u (begun_Sound id local target u a)),
    )
