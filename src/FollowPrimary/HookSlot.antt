-- ===== src/FollowPrimary/HookSlot.antt =====
-- What the hook does to the slot (crates/pg-agent-core/src/localserver.rs, `follow_primary`).
use pg_agent_rs.Prelude.{
  ℕ, ◌≡◌, ◌⊎◌, refl, Bool, true, false, some, List, [], inl, inr, Result, ok, err,
}
use pg_agent_rs.Inflight.{no_id}
use pg_agent_rs.Maintenance.Queue.{FileMaintenanceStore}
use pg_agent_rs.Pool.{NodeConfig, NodePool, NodeRef, resolve_node}
use pg_agent_rs.ReplayMarkers.{
  MarkerName, follow_primary_marker, ReplayFile, ReplayError, has, mark_done,
}
use pg_agent_rs.Orchestration.{
  dial, stop, checkpoint, create_slot, rewind, configure, start, Env, World, Early, OpResult,
  Message, ◌>>=◌, ◌>>◌, try, call, ask, followed,
}
use pg_agent_rs.Orchestration.Rules.{Ends, Triple, Triple-bind}
use pg_agent_rs.Failover.{look_for, ok_or_fail, write_replay_marker_then_ok}
use pg_agent_rs.Failover.Drops.{Leaves, given-Leaves, marked-Leaves}
use pg_agent_rs.FollowPrimary.{clone_unless_rewound}
use pg_agent_rs.FollowPrimary.Slot.{
  Before, Before-Kept, Kept, GivenUp, Unstarted-Fine, call-Triple, try-Triple, clone-Triple,
  guarded-Triple, attach_call-Triple, asked-Triple,
}
use pg_agent_rs.FollowPrimary.Hook.{
  FollowPrimaryRequest, slot_host, rebase_standby, rebase_if_running, follow_primary_hook,
}

module _ (here : ℕ) (env : Env) (detached new_primary : NodeConfig) (q : FileMaintenanceStore) where
  abbrev host : NodeConfig
  host = slot_host here new_primary

  abbrev Over : World → Type 0
  Over w = Kept env no_id detached host q w ⊎ GivenUp env no_id detached host q w

  rebase_standby-Triple :
      Triple
        (Before env no_id detached host q)
        (rebase_standby here env detached new_primary)
        (λ u w. Kept env no_id detached host q w)
        Over
  unfolding rebase_standby
  rebase_standby-Triple =
      Triple-bind _ _ (call-Triple env no_id detached host q (stop detached.id) refl refl refl)
        (λ u.
          Triple-bind _ _ (call-Triple env no_id detached host q (checkpoint here) refl refl refl)
            (λ u.
              Triple-bind _ _
                (call-Triple env no_id detached host q (create_slot here detached.id) refl refl
                  refl)
                (λ u.
                  Triple-bind _ _
                    (Triple-bind (try env (rewind detached.id))
                      (clone_unless_rewound env no_id detached host)
                      (try-Triple env no_id detached host q (rewind detached.id) refl refl refl)
                      (clone-Triple env no_id detached host q))
                    (λ u.
                      Triple-bind _ _
                        (guarded-Triple env no_id detached host q (Before env no_id detached host q)
                          (configure detached.id) "follow_primary_configure_standby_failed" refl
                          (λ w (u, e). (((refl, refl), u), e)))
                        (λ u.
                          Triple-bind _ _
                            (guarded-Triple env no_id detached host q
                              (Kept env no_id detached host q) (start detached.id)
                              "follow_primary_start_failed" refl
                              (λ w (u, e). ((refl, Unstarted-Fine w.log u), e)))
                            (λ u. attach_call-Triple env no_id detached host q))))))

  write-Triple :
      (name : MarkerName) (said : Message)
      → Triple
          (Kept env no_id detached host q)
          (write_replay_marker_then_ok env name said)
          (λ a w. Kept env no_id detached host q w)
          Over
  unfolding write_replay_marker_then_ok
  write-Triple name said = record {
    at = λ w h.
        let (r, files) = mark_done env.replay_io env.replay_clock name w.replay in
        by_answer w h files r;
  }
    where
      by_answer :
          (w : World)
          → Kept env no_id detached host q w
          → (files : List ReplayFile) (r : Result ReplayError (Unit {0}))
          → Ends
              (λ a v. Kept env no_id detached host q v)
              Over
              (ok_or_fail said r (record w { replay = files }))
      by_answer w h files (ok u) = h
      by_answer w h files (err e) = inl h

  run-Triple :
      (name : MarkerName) (running : Bool)
      → Triple
          (Before env no_id detached host q)
          (rebase_if_running here env detached new_primary name running)
          (λ a w. Kept env no_id detached host q w)
          Over
  run-Triple name false = record { at = λ w h. inl (Before-Kept env no_id detached host q w h) }
  run-Triple name true = Triple-bind _ _ rebase_standby-Triple (λ u. write-Triple name followed)

  asked_run-Triple :
      (name : MarkerName)
      → Triple
          (Before env no_id detached host q)
          (call env (dial detached.id)
            >> (ask env detached.id
                >>= (λ s. rebase_if_running here env detached new_primary name s.is_running)))
          (λ a w. Kept env no_id detached host q w)
          Over
  unfolding ask
  asked_run-Triple name =
      Triple-bind _ _ (call-Triple env no_id detached host q (dial detached.id) refl refl refl)
        (λ u.
          Triple-bind _ _ (asked-Triple env no_id detached host q (env.status detached.id))
            (λ s. run-Triple name s.is_running))

  either :
      (r : Result Early OpResult × World)
      → Ends (λ a w. Kept env no_id detached host q w) Over r
      → Leaves Over r
  either (ok a, w) h = inl h
  either (err e, w) h = h

-- from an empty log, nothing changes, or the slot of the request's node is kept or given up
pub follow_primary_hook_slot :
    (here : ℕ) (pool : NodePool) (env : Env) (req : FollowPrimaryRequest) (w : World)
    → w.log ≡ []
    → ((follow_primary_hook here pool env req w).1 ≡ w)
      ⊎ ((r : NodeRef) × (d : NodeConfig) × (n : NodeConfig) × (req.detached ≡ some r)
          × (resolve_node pool r ≡ some d)
          × (Kept env no_id d (slot_host here n) w.queue (follow_primary_hook here pool env req w).1
              ⊎ GivenUp env no_id d
                  (slot_host here n)
                  w.queue
                  (follow_primary_hook here pool env req w).1))
unfolding follow_primary_hook look_for ◌>>=◌
follow_primary_hook_slot here pool env req w e = given-Leaves Q w req.detached _ (inl refl) (λ d p.
    given-Leaves Q w req.new_primary _ (inl refl) (λ n p'.
      marked-Leaves Q w (has env.replay_io (follow_primary_marker d.id n.id) w.replay) _ (inl refl)
        (λ p''. given-Leaves Q w (resolve_node pool d) _ (inl refl) (λ detached r.
          given-Leaves Q w (resolve_node pool n) _ (inl refl) (λ new_primary r'. inr (
            d,
            detached,
            new_primary,
            p,
            r,
            either here env detached new_primary w.queue _ (
                (asked_run-Triple here env detached new_primary w.queue
                    (follow_primary_marker d.id n.id)).at
                  w (rw e tt, refl)),
          ))))))
  where
    Q : World → Type 0
    Q v =
        (v ≡ w)
        ⊎ ((r : NodeRef) × (d : NodeConfig) × (n : NodeConfig) × (req.detached ≡ some r)
            × (resolve_node pool r ≡ some d)
            × (Kept env no_id d (slot_host here n) w.queue v
                ⊎ GivenUp env no_id d (slot_host here n) w.queue v))
