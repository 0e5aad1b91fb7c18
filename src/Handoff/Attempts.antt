-- ===== src/Handoff/Attempts.antt =====
-- A resumed handoff goes on from what was done (crates/pg-agent-core/src/localserver.rs,
-- `resume_handoff`).
use mathlib.Core.Path.{subst}
use pg_agent_rs.Prelude
use pg_agent_rs.Prelude.{
  ℕ, String, ◌≡◌, refl, sym, ap, ◌∙◌, Bool, true, false, not, Option, none, some, List, [], ◌∷◌,
  arith, Bool-cases, Option-cases, inl, inr, ==_iff, find, Result, ok, err, if◌then◌else◌,
}
use text.Mathlib.Text.{◌==◌}
use pg_agent_rs.Inflight.{
  InflightPayload, handoff, follow_primary, recovery, allow_async, InflightOp, OpId,
}
use pg_agent_rs.Inflight
use pg_agent_rs.Inflight.Phase.{op_at, find_id}
use pg_agent_rs.Pool.{NodeConfig, NodePool, node_by_id, local_node}
use pg_agent_rs.Orchestration.{
  dial, get_status, Env, PeerStatus, World, Early, OpResult, internal, invalid_argument,
  action_failed, failed, replied, diverged, pure, ◌>>=◌, try, call, ask, status_or_fail,
  local_or_fail,
}
use pg_agent_rs.Orchestration.Rules.{
  Ends, Triple, Triple-pure, Triple-raise, Triple-before, Triple-bind,
}
use pg_agent_rs.Handoff.{handoff_phase_index, climb_from, run_handoff_from_phase}
use pg_agent_rs.Handoff.Rungs.{
  Concerns, AllDone, AllDone-nothing, AllDone-later, Safe, Sound, Sound-call, At,
}
use pg_agent_rs.Handoff.Safe.{climb-Triple}
use pg_agent_rs.Handoff.Resume.{
  Stretch, pre_stop, post_stop, post_start, other, stretch, local_diverged, judged,
  verify_handoff_state, unless_diverged, resume_at, resume_target, resume_handoff,
}

-- `node_by_id` finds the node of that id
node_by_id-id : (pool : NodePool) (i : ℕ) (n : NodeConfig) → node_by_id pool i ≡ some n → n.id ≡ i
unfolding node_by_id
node_by_id-id pool i n h = in_members pool.members h
  where
    in_members :
        (ns : List NodeConfig)
        → find (λ (m : NodeConfig). Prelude.◌==◌ m.id i) ns ≡ some n
        → n.id ≡ i
    in_members [] h = absurd (cc h)
    in_members (m ∷ ms) h = elim (Bool-cases (Prelude.◌==◌ m.id i)) [
      | inl e ↦
          let same : m ≡ n = cc (rw e at h) in
          ap (λ (x : NodeConfig). x.id) (sym same) ∙ (==_iff m.id i).0 e
      | inr e ↦ in_members ms (rw e at h)
    ]

module _ (local target : ℕ) (env : Env) (id : OpId) where
  -- the recorded phase, held along the checks before the run
  Ready : String → World → Type 0
  Ready phase w =
      At local target id 0 w
      × ((k : ℕ) → handoff_phase_index phase ≡ some k → AllDone local target k w.log)

  run-Triple :
      (phase : String)
      → Triple
          (Ready phase)
          (run_handoff_from_phase env id local target phase)
          (λ r w. Sound local target id w)
          (Sound local target id)
  unfolding run_handoff_from_phase Ready
  run-Triple phase = elim (Option-cases (handoff_phase_index phase)) [
    | inl e ↦ rw e (Triple-raise (failed invalid_argument) (λ w ((s, d), f). s))
    | inr (k, e) ↦ rw e (
        Triple-before (climb_from env id local target (some k)) (λ w ((s, d), f). (s, f k e))
          (climb-Triple local target env id k))
  ]

  Ready-Sound : (phase : String) (w : World) → Ready phase w → Sound local target id w
  unfolding Ready
  Ready-Sound phase w ((s, d), f) = s

  -- the checks change nothing
  asked-Triple :
      {A : Type 0} (phase : String) (r : Result String A)
      → Triple (Ready phase) (local_or_fail r) (λ a w. Ready phase w) (Sound local target id)
  asked-Triple phase (ok a) = Triple-pure a (λ w p. p)
  asked-Triple phase (err e) = Triple-raise (failed internal) (Ready-Sound phase)

  diverged-Triple :
      (phase : String) (s : Stretch) (running : Bool)
      → Triple
          (Ready phase)
          (local_diverged env s running)
          (λ b w. Ready phase w)
          (Sound local target id)
  unfolding local_diverged
  diverged-Triple phase pre_stop running = Triple-pure (not running) (λ w h. h)
  diverged-Triple phase post_stop running = Triple-pure running (λ w h. h)
  diverged-Triple phase post_start false = Triple-pure true (λ w h. h)
  diverged-Triple phase post_start true =
      Triple-bind (local_or_fail env.in_recovery) (λ b. pure (not b))
        (asked-Triple phase env.in_recovery) (λ b. Triple-pure (not b) (λ w h. h))
  diverged-Triple phase other running = Triple-pure false (λ w h. h)

  judged-Triple :
      (phase : String) (first running recovers : Bool)
      → Triple
          (Ready phase)
          (judged env phase first running recovers)
          (λ b w. Ready phase w)
          (Sound local target id)
  judged-Triple phase true running recovers = Triple-pure (not recovers) (λ w h. h)
  judged-Triple phase false false recovers = Triple-pure true (λ w h. h)
  judged-Triple phase false true true = Triple-pure true (λ w h. h)
  judged-Triple phase false true false =
      Triple-bind (local_or_fail env.server_running) (local_diverged env (stretch phase))
        (asked-Triple phase env.server_running) (diverged-Triple phase (stretch phase))

  status-Triple :
      (phase : String) (r : Result String PeerStatus)
      → Triple
          (Ready phase)
          (status_or_fail target r)
          (λ s w. Ready phase w)
          (Sound local target id)
  status-Triple phase (ok s) = Triple-pure s (λ w h. h)
  status-Triple phase (err e) =
      Triple-raise (failed (action_failed (get_status target) e)) (Ready-Sound phase)

  verify-Triple :
      (phase : String)
      → Triple
          (Ready phase)
          (verify_handoff_state env target phase)
          (λ b w. Ready phase w)
          (Sound local target id)
  unfolding verify_handoff_state ask
  verify-Triple phase =
      Triple-bind (ask env target) _ (status-Triple phase (env.status target)) (λ s.
        judged-Triple phase (phase == "preflight_done") s.is_postgres_running s.is_in_recovery)

  unless-Triple :
      (phase : String) (moved : Bool)
      → Triple
          (Ready phase)
          (unless_diverged env id local target phase moved)
          (λ r w. Sound local target id w)
          (Sound local target id)
  unless-Triple phase true =
      Triple-raise (replied (record { ok = false; message = diverged })) (Ready-Sound phase)
  unless-Triple phase false = run-Triple phase

  dial-Triple :
      (phase : String)
      → Triple (Ready phase) (call env (dial target)) (λ u w. Ready phase w) (Sound local target id)
  unfolding call try ◌>>=◌ Ready
  dial-Triple phase = record { at = λ w h. by_answer w h (env.act (dial target)) refl }
    where
      grown :
          (b : Bool) (w : World)
          → Ready phase w
          → Ready phase (record w { log = (dial target, b) ∷ w.log })
      grown b w ((s, d), f) = (
        (
          Sound-call local target id (dial target) b w d s,
          AllDone-later local target 0 (dial target, b) w.log d,
        ),
        λ k e. AllDone-later local target k (dial target, b) w.log (f k e),
      )

      by_answer :
          (w : World)
          → Ready phase w
          → (r : Result String (Unit {0})) → env.act (dial target) ≡ r
          → Ends (λ u v. Ready phase v) (Sound local target id) (call env (dial target) w)
      by_answer w h (ok tt) e = rw e (grown true w h)
      by_answer w h (err x) e = rw e (grown false w h).0.0

  resume_at-Triple :
      (phase : String)
      → Triple
          (Ready phase)
          (resume_at env id local target phase)
          (λ r w. Sound local target id w)
          (Sound local target id)
  unfolding resume_at
  resume_at-Triple phase = Triple-bind (call env (dial target)) _ (dial-Triple phase) (λ u.
      Triple-bind (verify_handoff_state env target phase) _ (verify-Triple phase)
        (unless-Triple phase))

  Sound-Ready :
      (op : InflightOp) (w : World)
      → op_at id w.journal ≡ some op
      → Sound local target id w
      → Ready op.phase w
  unfolding Ready
  Sound-Ready op w e s = ((s, AllDone-nothing local target w.log), λ k i. s.behind op k e i)

-- what is asked of the op's nodes before a resumption
resume_handoff-Sound :
    (pool : NodePool) (env : Env) (local target : ℕ) (op : InflightOp) (p : InflightPayload)
    (w : World)
    → Concerns local target p
    → op_at op.id w.journal ≡ some op
    → Sound local target op.id w
    → Sound local target op.id (resume_handoff pool env op p w).1
unfolding resume_handoff
resume_handoff-Sound pool env local target op (handoff from to host slot lag) w (e, f) at s =
    by_local (local_node pool) refl
  where
    ended :
        (r : Result Early OpResult × World)
        → Ends (λ a v. Sound local target op.id v) (Sound local target op.id) r
        → Sound local target op.id r.1
    ended (ok a, v) h = h
    ended (err x, v) h = h

    at_nodes :
        (l t : NodeConfig)
        → l.id ≡ local
        → t.id ≡ target
        → Sound local target op.id (resume_at env op.id l.id t.id op.phase w).1
    at_nodes l t p q =
        rw (p, q)
          (ended (resume_at env op.id local target op.phase w) (
            (resume_at-Triple local target env op.id op.phase).at w
              (Sound-Ready local target env op.id op w at s)))

    by_target :
        (l : NodeConfig) (o : Option NodeConfig)
        → l.id ≡ local
        → node_by_id pool to ≡ o
        → Sound local target op.id (resume_target env op l host o w).1
    by_target l none p q = s
    by_target l (some t) p q = elim (Bool-cases (t.hostname == host)) [
      | inl h ↦ rw h (at_nodes l t p (node_by_id-id pool to t q ∙ f))
      | inr h ↦ rw h s
    ]

    by_local :
        (o : Option NodeConfig)
        → local_node pool ≡ o
        → Sound local target op.id (resume_handoff pool env op (handoff from to host slot lag) w).1
    by_local none q = rw (q, resume_handoff) s
    by_local (some l) q = elim (Bool-cases (Prelude.◌==◌ l.id from)) [
      | inl h ↦
          rw (q, resume_handoff)
            (rw h (by_target l (node_by_id pool to) ((==_iff l.id from).0 h ∙ e) refl))
      | inr h ↦ rw (q, resume_handoff) (rw h s)
    ]
resume_handoff-Sound pool env local target op (follow_primary a b c d) w h at s = absurd h
resume_handoff-Sound pool env local target op (recovery a b c d) w h at s = absurd h
resume_handoff-Sound pool env local target op (Inflight.promote a b) w h at s = absurd h
resume_handoff-Sound pool env local target op (allow_async a) w h at s = absurd h

module _ (pool : NodePool) (local target : ℕ) (id : OpId) where
  -- one run over the recorded op, with any answers: a plain climb from the recorded phase, or a
  -- resumption with its checks
  pub data Attempt : World → World → Type 0 where
    climbs :
        {w : World} (env : Env) (op : InflightOp)
        → op_at id w.journal ≡ some op
        → Attempt w (run_handoff_from_phase env id local target op.phase w).1
    resumes :
        {w : World} (env : Env) (op : InflightOp)
        → op_at id w.journal ≡ some op
        → Attempt w (resume_handoff pool env op op.payload w).1

  pub data Attempts : World → World → Type 0 where
    none_yet : {w : World} → Attempts w w
    then_another : {u v w : World} → Attempts u v → Attempt v w → Attempts u w

  Attempt-Sound : {w v : World} → Attempt w v → Sound local target id w → Sound local target id v
  Attempt-Sound (climbs {w = w} env op e) s =
      ended (run_handoff_from_phase env id local target op.phase w)
        ((run-Triple local target env id op.phase).at w (Sound-Ready local target env id op w e s))
    where
      ended :
          (r : Result Early OpResult × World)
          → Ends (λ a v. Sound local target id v) (Sound local target id) r
          → Sound local target id r.1
      ended (ok a, v) h = h
      ended (err x, v) h = h
  Attempt-Sound (resumes {w = w} env op e) s =
      let same : op.id ≡ id = find_id id w.journal.ops op e in
      subst (λ k. Sound local target k (resume_handoff pool env op op.payload w).1) same
        (resume_handoff-Sound pool env local target op op.payload w (s.concerns op e)
          (subst (λ k. op_at k w.journal ≡ some op) (sym same) e)
          (subst (λ k. Sound local target k w) (sym same) s))

  Attempts-Sound : {w v : World} → Attempts w v → Sound local target id w → Sound local target id v
  Attempts-Sound none_yet s = s
  Attempts-Sound (then_another a b) s = Attempt-Sound b (Attempts-Sound a s)

  -- The old primary never comes back before its time: from a handoff that was just begun, over any
  -- number of runs and resumptions, each with any answers of its own and any failures of the journal, every
  -- call is made after the calls of all lower steps have succeeded. So the old primary
  -- is stopped only after the target was promoted and has its slot, and started only after it was
  -- stopped, a rewind or a base backup of it has succeeded, and it was configured as a standby. Which
  -- host the copy and the configuration name is not said.
  pub Attempts-Safe :
      (w v : World) (op : InflightOp)
      → w.log ≡ []
      → op_at id w.journal ≡ some op
      → op.phase ≡ "preflight_done"
      → Concerns local target op.payload
      → Attempts w v
      → Safe local target v.log
  unfolding handoff_phase_index
  Attempts-Safe w v op empty e p c a =
      (Attempts-Sound a (record {
        safe = rw empty tt;
        concerns = λ o h. let same : o ≡ op = cc (e, h) in rw same c;
        behind = λ o k h i.
            let same : o ≡ op = cc (e, h) in
            let zero_phase : 0 ≡ k = cc (rw p at (rw same at i)) in
            rw (← zero_phase) (AllDone-nothing local target w.log);
      })).safe
