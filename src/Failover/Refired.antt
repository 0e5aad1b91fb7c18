-- ===== src/Failover/Refired.antt =====
-- A failover hook that is fired again (crates/pg-agent-core/src/localserver.rs, `failover`).
use pg_agent_rs.Prelude.{
  ℕ, negsuc, String, ◌∷◌, ◌≡◌, refl, Bool, true, false, Option, none, some, List, inl, inr,
  Bool-cases, Result-cases, Result, ok, err,
}
use pg_agent_rs.Inflight.{OpId, InflightOp}
use pg_agent_rs.Inflight.Journal.{Io}
use pg_agent_rs.Inflight.Owner.{owner_of_slot_observing}
use pg_agent_rs.Maintenance.{drop_slot_cleanup, node_slot}
use pg_agent_rs.Maintenance.Worker.{cross_op_grace}
use pg_agent_rs.Maintenance.Queue.{append}
use pg_agent_rs.Pool.{NodeConfig, NodePool, NodeRef, resolve_node}
use pg_agent_rs.ReplayMarkers.{
  int_eqb, MarkerName, failover_marker, ReplayFile, has, mark_done, has-put_file,
}
use pg_agent_rs.Orchestration.{
  node_owned, slot_dropped, dial, drop_slot, Env, World, Early, replied, failed, OpResult, Message,
  Task, ◌>>=◌, ◌>>◌, try, succeeded, queue_drop,
}
use pg_agent_rs.Failover.{
  PreconditionOutcome, pass, refuse, unverifiable, judge, validate_cluster_preconditions,
  FailoverRequest, given, look_for, write_replay_marker_then_ok, inflight_owner_of, unless_refused,
  queue_message, queued_unless_dropped, drop_standby_slot, unless_owned, standby_down, failover,
}

-- the hook answered that all is well
abbrev pub Succeeded : Result Early OpResult → Type 0
Succeeded (ok a) = a.ok ≡ true
Succeeded (err (replied a)) = a.ok ≡ true
Succeeded (err (failed s)) = ⊥

-- whether a file of the name is there does not rest on the answers, once the directory is read
has_again :
    (io io' : Io) (name : MarkerName) (files : List ReplayFile)
    → io'.reads ≡ true
    → has io name files ≡ ok true
    → has io' name files ≡ ok true
unfolding has
has_again io io' name files r h = elim (Bool-cases io.reads) [
  | inl e ↦ rw r (rw e at h)
  | inr e ↦ absurd (cc (rw e at h))
]

module _ (io : Io) (name : MarkerName) (reads : io.reads ≡ true) where
  -- a good answer leaves the marker
  Marks : Result Early OpResult × World → Type 0
  Marks (r, v) = Succeeded r → has io name v.replay ≡ ok true

  given-Marks :
      {A : Type 0} (o : Option A) (f : A → Task OpResult) (w : World)
      → ((a : A) → Marks (f a w))
      → Marks ((given o >>= f) w)
  unfolding Marks ◌>>=◌
  given-Marks none f w h = λ a. absurd a
  given-Marks (some a) f w h = h a

  write-Marks :
      (env : Env) (said : Message) (w : World) → Marks (write_replay_marker_then_ok env name said w)
  unfolding Marks write_replay_marker_then_ok mark_done
  write-Marks env said w = elim (Bool-cases env.replay_io.writes) [
    | inl e ↦ rw e (λ a. has-put_file io name env.replay_clock w.replay reads)
    | inr e ↦ rw e (λ a. absurd a)
  ]

  module _ (here : ℕ) (env : Env) (detached old_primary : NodeConfig) where
    finish : Result String (Unit {0}) → Task OpResult
    finish r =
        queued_unless_dropped env detached old_primary r >>= write_replay_marker_then_ok env name

    finish-Marks : (r : Result String (Unit {0})) (v : World) → Marks (finish r v)
    unfolding finish queue_drop ◌>>=◌
    finish-Marks (ok u) v = write-Marks env slot_dropped v
    finish-Marks (err why) v =
        write-Marks env
          (queue_message
            (elim (append env.queue_io env.queue_clock
              (drop_slot_cleanup (node_slot detached.id) old_primary.hostname
                "standby_down_local_drop_error" why)
              v.queue).0 [ ok i ↦ ok tt | err e ↦ err e ]))
          (queue_drop env detached.id old_primary.hostname "standby_down_local_drop_error" why v).1

    drop_standby_slot-Marks :
        (w : World) → Marks (drop_standby_slot here env name detached old_primary w)
    unfolding drop_standby_slot validate_cluster_preconditions try finish Marks ◌>>=◌
    drop_standby_slot-Marks w =
        by_outcome (judge (env.act (dial detached.id)) (env.status detached.id))
      where
        after : World
        after = record w {
          log = (dial detached.id, succeeded (env.act (dial detached.id))) ∷ w.log;
        }

        rest : Task OpResult
        rest = try env (drop_slot here detached.id) >>= finish

        dropping : Marks (rest after)
        dropping = finish-Marks (env.act (drop_slot here detached.id)) (record after {
          log =
              (drop_slot here detached.id, succeeded (env.act (drop_slot here detached.id)))
              ∷ after.log;
        })

        by_outcome : (o : PreconditionOutcome) → Marks ((unless_refused o >> rest) after)
        by_outcome refuse = λ a. absurd (cc a)
        by_outcome pass = dropping
        by_outcome unverifiable = dropping

    unless_owned-Marks :
        (owner : Option InflightOp) (w : World)
        → Marks (unless_owned here env name detached old_primary owner w)
    unless_owned-Marks (some op) w = write-Marks env node_owned w
    unless_owned-Marks none w = drop_standby_slot-Marks w

  standby_down-Marks :
      (id_leb : OpId → OpId → Bool) (here : ℕ) (pool : NodePool) (env : Env)
      (detached new_main old_primary : NodeRef) (w : World)
      → Marks (standby_down id_leb here pool env name detached new_main old_primary w)
  unfolding standby_down inflight_owner_of ◌>>=◌
  standby_down-Marks id_leb here pool env detached new_main old_primary w =
      given-Marks (resolve_node pool detached) _ w (λ d.
        given-Marks (resolve_node pool new_main) _ w (λ n.
          given-Marks (resolve_node pool old_primary) _ w (λ o.
            let (owner, j) =
              owner_of_slot_observing id_leb (env.io "discharge") (env.clock "discharge")
                (some d.id) cross_op_grace env.slot_active w.journal in
            unless_owned-Marks here env d o owner (record w { journal = j }))))

module _ (id_leb : OpId → OpId → Bool) (here : ℕ) (pool : NodePool) (env' : Env)
    (reads : env'.replay_io.reads ≡ true) where
  -- fired once more, the hook answers well and changes nothing
  Again : FailoverRequest → World → Type 0
  Again req v =
      Succeeded (failover id_leb here pool env' req v).0
      × ((failover id_leb here pool env' req v).1 ≡ v)

  module _ (env : Env) (detached new_main old_primary : NodeRef) where
    request : FailoverRequest
    request = record {
      detached = some detached;
      new_main = some new_main;
      old_primary = some old_primary;
    }

    name : MarkerName
    name = failover_marker detached.id new_main.id old_primary.id

    request-Again :
        (w : World)
        → Succeeded (failover id_leb here pool env request w).0
        → Again request (failover id_leb here pool env request w).1
    unfolding Again request name failover look_for Marks ◌>>=◌
    request-Again w = elim (Bool-cases (int_eqb new_main.id (negsuc 0))) [
      | inl c ↦ rw c (λ h. absurd (cc h))
      | inr c ↦ elim (Bool-cases (int_eqb detached.id old_primary.id)) [
        | inl p ↦ rw (c, p) (λ h. (refl, refl))
        | inr p ↦ elim (Result-cases (has env.replay_io name w.replay)) [
          | inr (e, q) ↦ rw (c, p, q) (λ h. absurd h)
          | inl (true, q) ↦
              rw (c, p, q)
                (λ h.
                  rw (has_again env.replay_io env'.replay_io name w.replay reads q) (refl, refl))
          | inl (false, q) ↦
              rw (c, p, q)
                (λ h.
                  rw
                    (standby_down-Marks env'.replay_io name reads id_leb here pool env detached
                      new_main old_primary w h)
                    (refl, refl))
        ]
      ]
    ]

  -- The failover hook may be fired again: after a call that answered well, the same request, whatever
  -- the other answers are as long as the marker's file can be looked for, answers well and changes
  -- nothing: no call is made, and journal, queue, markers and log stay as they are.
  pub failover-Again :
      (env : Env) (req : FailoverRequest) (w : World)
      → Succeeded (failover id_leb here pool env req w).0
      → Succeeded (failover id_leb here pool env' req (failover id_leb here pool env req w).1).0
        × ((failover id_leb here pool env' req (failover id_leb here pool env req w).1).1
            ≡ (failover id_leb here pool env req w).1)
  unfolding Again request failover ◌>>=◌
  failover-Again env req w = by_refs req.detached req.new_main req.old_primary
    where
      by_refs :
          (d n o : Option NodeRef)
          → Succeeded
              (failover id_leb here pool env
                (record { detached = d; new_main = n; old_primary = o })
                w).0
          → Again
              (record { detached = d; new_main = n; old_primary = o })
              (failover id_leb here pool env
                (record { detached = d; new_main = n; old_primary = o })
                w).1
      by_refs none n o h = absurd h
      by_refs (some d) none o h = absurd h
      by_refs (some d) (some n) none h = absurd h
      by_refs (some d) (some n) (some o) h = request-Again env d n o w h
