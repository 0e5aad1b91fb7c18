-- ===== src/Failover/Drops.antt =====
-- When the failover hook drops a slot (crates/pg-agent-core/src/localserver.rs, `failover`).
use pg_agent_rs.Prelude.{
  ℕ, ℤ, negsuc, String, ◌≡◌, ◌⊎◌, refl, ap, Bool, true, false, ◌&&◌, Option, none, some, ◌∷◌, inl,
  inr, Bool-cases, Result, ok, err,
}
use pg_agent_rs.Inflight.{OpId, InflightOp}
use pg_agent_rs.Inflight.Journal.{seen, FileInflightOpStore}
use pg_agent_rs.Inflight.Owner.{owner_of_slot_observing}
use pg_agent_rs.Inflight.Owner.Found.{Busy, owner_of_slot-Busy}
use pg_agent_rs.Maintenance.{drop_slot_cleanup, node_slot}
use pg_agent_rs.Maintenance.Worker.{cross_op_grace}
use pg_agent_rs.Maintenance.Queue.{append}
use pg_agent_rs.Pool.{NodeConfig, NodePool, NodeRef, resolve_node}
use pg_agent_rs.ReplayMarkers.{int_eqb, MarkerName, failover_marker, ReplayError, has, mark_done}
use pg_agent_rs.Orchestration.{
  Action, slot_dropped, node_owned, dial, drop_slot, Env, PeerStatus, World, Early, OpResult,
  Message, Task, ◌>>=◌, ◌>>◌, try, succeeded, queue_drop,
}
use pg_agent_rs.Failover.{
  PreconditionOutcome, pass, refuse, unverifiable, judge, validate_cluster_preconditions,
  FailoverRequest, given, unless_no_candidates, unless_primary, unless_marked, look_for, ok_or_fail,
  write_replay_marker_then_ok, inflight_owner_of, unless_refused, queue_message,
  queued_unless_dropped, drop_standby_slot, unless_owned, standby_down, failover,
}

-- the answers of a peer that runs as a standby and streams
abbrev pub streams : PeerStatus → Bool
streams s = s.is_postgres_running && s.is_in_recovery && s.streaming

-- no slot was touched
abbrev pub Spared : World → World → Type 0
Spared w v = (v.log ≡ w.log) ⊎ ((n : ℕ) × (b : Bool) × (v.log ≡ (dial n, b) ∷ w.log))

-- The slot of the detached standby, and no other, was to be dropped on the agent's node: pgpool names a
-- candidate, and the detached node is not the primary it lost; the hook is not marked as done; the
-- look-up of an owner found none, and no op of a journal that is read was in progress on the node,
-- unless one that is done is in its grace window; and the node did not answer as one that streams.
pub record Dropped (id_leb : OpId → OpId → Bool) (here : ℕ) (pool : NodePool) (env : Env)
    (req : FailoverRequest) (w v : World) : Type 0 where
  pub detached : NodeRef
  pub new_main : NodeRef
  pub old_primary : NodeRef
  pub named :
      (req.detached ≡ some detached)
      × (req.new_main ≡ some new_main)
      × (req.old_primary ≡ some old_primary)
  pub node : NodeConfig
  pub resolved : resolve_node pool detached ≡ some node
  pub candidate : int_eqb new_main.id (negsuc 0) ≡ false
  pub standby : int_eqb detached.id old_primary.id ≡ false
  pub unmarked :
      has env.replay_io (failover_marker detached.id new_main.id old_primary.id) w.replay ≡ ok false
  pub unowned :
      (owner_of_slot_observing id_leb
        (env.io "discharge")
        (env.clock "discharge")
        (some node.id)
        cross_op_grace
        env.slot_active
        w.journal).0
      ≡ none
  pub idle :
      (env.io "discharge").reads ≡ true
      → Busy
          (env.clock "discharge")
          cross_op_grace
          node.id
          (seen (env.io "discharge") w.journal.ops)
      → ⊥
  pub not_streaming :
      (s : PeerStatus)
      → env.act (dial node.id) ≡ ok tt
      → env.status node.id ≡ ok s
      → streams s ≡ false
  pub calls :
      v.log
      ≡ (drop_slot here node.id, succeeded (env.act (drop_slot here node.id)))
        ∷ (dial node.id, succeeded (env.act (dial node.id)))
        ∷ w.log

-- an op in progress would have been found
free :
    (id_leb : OpId → OpId → Bool) (env : Env) (n : ℕ) (w : World)
    → (env.io "discharge").reads ≡ true
    → Busy (env.clock "discharge") cross_op_grace n (seen (env.io "discharge") w.journal.ops)
    → (owner_of_slot_observing id_leb
        (env.io "discharge")
        (env.clock "discharge")
        (some n)
        cross_op_grace
        env.slot_active
        w.journal).0
      ≡ none
    → ⊥
free id_leb env n w reads busy e =
    let (o, q) =
      owner_of_slot-Busy id_leb (env.io "discharge") (env.clock "discharge") n cross_op_grace
        env.slot_active w.journal reads busy in
    cc (ap (λ (x : Option InflightOp × FileInflightOpStore). x.0) q, e)

-- whatever the answer is
abbrev pub Leaves : (World → Type 0) → Result Early OpResult × World → Type 0
Leaves Q (r, w) = Q w

module _ (Q : World → Type 0) (w : World) where
  pub given-Leaves :
      {A : Type 0} (o : Option A) (f : A → Task OpResult)
      → Q w
      → ((a : A) → o ≡ some a → Leaves Q (f a w))
      → Leaves Q ((given o >>= f) w)
  unfolding ◌>>=◌
  given-Leaves none f d h = d
  given-Leaves (some a) f d h = h a refl

  candidate-Leaves :
      (id : ℤ) (m : Task OpResult)
      → Q w
      → (int_eqb id (negsuc 0) ≡ false → Leaves Q (m w))
      → Leaves Q ((unless_no_candidates id >> m) w)
  unfolding ◌>>=◌
  candidate-Leaves id m d h = elim (Bool-cases (int_eqb id (negsuc 0))) [
    | inl e ↦ rw e d
    | inr e ↦ rw e (h e)
  ]

  standby-Leaves :
      (a b : ℤ) (m : Task OpResult)
      → Q w
      → (int_eqb a b ≡ false → Leaves Q (m w))
      → Leaves Q ((unless_primary a b >> m) w)
  unfolding ◌>>=◌
  standby-Leaves a b m d h = elim (Bool-cases (int_eqb a b)) [ inl e ↦ rw e d | inr e ↦ rw e (h e) ]

  pub marked-Leaves :
      (r : Result ReplayError Bool) (m : Task OpResult)
      → Q w
      → (r ≡ ok false → Leaves Q (m w))
      → Leaves Q ((unless_marked r >> m) w)
  unfolding ◌>>=◌
  marked-Leaves (err e) m d h = d
  marked-Leaves (ok true) m d h = d
  marked-Leaves (ok false) m d h = h refl

  -- the marker is a file of its own
  write-Leaves :
      (env : Env) (name : MarkerName) (said : Message)
      → ((v : World) → v.log ≡ w.log → Q v)
      → Leaves Q (write_replay_marker_then_ok env name said w)
  unfolding write_replay_marker_then_ok
  write-Leaves env name said h =
      let (r, files) = mark_done env.replay_io env.replay_clock name w.replay in
      by_answer r (record w { replay = files }) (h (record w { replay = files }) refl)
    where
      by_answer :
          (r : Result ReplayError (Unit {0})) (v : World) → Q v → Leaves Q (ok_or_fail said r v)
      by_answer (ok u) v q = q
      by_answer (err e) v q = q

-- a judgement that does not refuse saw no streaming standby
judge-streams :
    (r : Result String (Unit {0})) (a : Result String PeerStatus)
    → ((judge r a ≡ refuse) ⊎ ((s : PeerStatus) → r ≡ ok tt → a ≡ ok s → streams s ≡ false))
judge-streams (err e) a = inr (λ s p q. absurd (cc p))
judge-streams (ok u) (err e) = inr (λ s p q. absurd (cc q))
judge-streams (ok u) (ok t) = elim (Bool-cases (streams t)) [
  | inl e ↦ inl (rw e refl)
  | inr e ↦ inr (λ s p q. let same : t ≡ s = cc q in rw (← same) e)
]

module _ (Q : World → Type 0) (here : ℕ) (env : Env) (name : MarkerName)
    (detached old_primary : NodeConfig) (w : World) where
  abbrev dialled : Action × Bool
  dialled = (dial detached.id, succeeded (env.act (dial detached.id)))

  abbrev dropped : Action × Bool
  dropped = (drop_slot here detached.id, succeeded (env.act (drop_slot here detached.id)))

  -- what follows the drop's answer
  finish : Result String (Unit {0}) → Task OpResult
  finish r =
      queued_unless_dropped env detached old_primary r >>= write_replay_marker_then_ok env name

  finish-Leaves :
      (r : Result String (Unit {0})) (v : World)
      → ((u : World) → u.log ≡ v.log → Q u)
      → Leaves Q (finish r v)
  unfolding finish queue_drop ◌>>=◌
  finish-Leaves (ok u) v h = write-Leaves Q v env name slot_dropped h
  finish-Leaves (err why) v h =
      write-Leaves Q
        (queue_drop env detached.id old_primary.hostname "standby_down_local_drop_error" why v).1
        env name
        (queue_message
          (elim (append env.queue_io env.queue_clock
            (drop_slot_cleanup (node_slot detached.id) old_primary.hostname
              "standby_down_local_drop_error" why)
            v.queue).0 [ ok i ↦ ok tt | err e ↦ err e ]))
        h

  drop_standby_slot-Leaves :
      ((v : World) → v.log ≡ dialled ∷ w.log → Q v)
      → (((s : PeerStatus)
            → env.act (dial detached.id) ≡ ok tt
            → env.status detached.id ≡ ok s
            → streams s ≡ false)
          → (v : World) → v.log ≡ dropped ∷ dialled ∷ w.log
          → Q v)
      → Leaves Q (drop_standby_slot here env name detached old_primary w)
  unfolding drop_standby_slot validate_cluster_preconditions try finish ◌>>=◌
  drop_standby_slot-Leaves d h =
      by_outcome (judge (env.act (dial detached.id)) (env.status detached.id))
        (judge-streams (env.act (dial detached.id)) (env.status detached.id))
    where
      after : World
      after = record w { log = dialled ∷ w.log }

      rest : Task OpResult
      rest = try env (drop_slot here detached.id) >>= finish

      by_outcome :
          (o : PreconditionOutcome)
          → ((o ≡ refuse)
              ⊎ ((s : PeerStatus)
                  → env.act (dial detached.id) ≡ ok tt
                  → env.status detached.id ≡ ok s
                  → streams s ≡ false))
          → Leaves Q ((unless_refused o >> rest) after)
      by_outcome refuse c = d after refl
      by_outcome pass (inl e) = absurd (cc e)
      by_outcome pass (inr n) =
          finish-Leaves (env.act (drop_slot here detached.id))
            (record after { log = dropped ∷ after.log }) (h n)
      by_outcome unverifiable (inl e) = absurd (cc e)
      by_outcome unverifiable (inr n) =
          finish-Leaves (env.act (drop_slot here detached.id))
            (record after { log = dropped ∷ after.log }) (h n)

-- When the failover hook drops a slot: whatever it answers, it touched no slot, or
-- it asked once to drop the slot of the detached node on the agent's own node. Then pgpool named a
-- candidate and the detached node is not the old primary, no marker of the same hook was there, the
-- node did not answer as a streaming standby, and the look-up of an owner found none: where the journal
-- was read, no op whose file is read was in progress on the node, unless one that is done is still in
-- its grace window. A journal or a file that is not read has no owners, so there the hook goes on.
pub failover-Drops :
    (id_leb : OpId → OpId → Bool) (here : ℕ) (pool : NodePool) (env : Env) (req : FailoverRequest)
    (w : World)
    → Spared w (failover id_leb here pool env req w).1
      ⊎ Dropped id_leb here pool env req w (failover id_leb here pool env req w).1
unfolding failover look_for standby_down inflight_owner_of ◌>>=◌
failover-Drops id_leb here pool env req w = given-Leaves Q w req.detached _ spared (λ detached e0.
    given-Leaves Q w req.new_main _ spared (λ new_main e1.
      given-Leaves Q w req.old_primary _ spared (λ old_primary e2.
        candidate-Leaves Q w new_main.id _ spared (λ e3.
          standby-Leaves Q w detached.id old_primary.id _ spared (λ e4.
            marked-Leaves Q w
              (has env.replay_io (failover_marker detached.id new_main.id old_primary.id) w.replay)
              _ spared
              (λ e5. given-Leaves Q w (resolve_node pool detached) _ spared (λ d e6.
                given-Leaves Q w (resolve_node pool new_main) _ spared (λ n e7.
                  given-Leaves Q w (resolve_node pool old_primary) _ spared (λ o e8.
                    let name : MarkerName =
                      failover_marker detached.id new_main.id old_primary.id in
                    let (owner, j) =
                      owner_of_slot_observing id_leb (env.io "discharge") (env.clock "discharge")
                        (some d.id) cross_op_grace env.slot_active w.journal in
                    by_owner name d o j owner (λ e f v g. inr (record {
                      detached = detached;
                      new_main = new_main;
                      old_primary = old_primary;
                      named = (e0, e1, e2);
                      node = d;
                      resolved = e6;
                      candidate = e3;
                      standby = e4;
                      unmarked = e5;
                      unowned = e;
                      idle = λ r b. free id_leb env d.id w r b e;
                      not_streaming = f;
                      calls = g;
                    })))))))))))
  where
    Q : World → Type 0
    Q v = Spared w v ⊎ Dropped id_leb here pool env req w v

    spared : Q w
    spared = inl (inl refl)

    by_owner :
        (name : MarkerName) (d o : NodeConfig) (j : FileInflightOpStore) (owner : Option InflightOp)
        → (owner ≡ none
            → ((s : PeerStatus)
                → env.act (dial d.id) ≡ ok tt
                → env.status d.id ≡ ok s
                → streams s ≡ false)
            → (v : World)
            → v.log ≡ dropped Q here env name d o w ∷ dialled Q here env name d o w ∷ w.log
            → Q v)
        → Leaves Q (unless_owned here env name d o owner (record w { journal = j }))
    by_owner name d o j (some op) h =
        write-Leaves Q (record w { journal = j }) env name node_owned (λ v e. inl (inl e))
    by_owner name d o j none h =
        drop_standby_slot-Leaves Q here env name d o (record w { journal = j })
          (λ v e. inl (inr (d.id, succeeded (env.act (dial d.id)), e))) (h refl)
