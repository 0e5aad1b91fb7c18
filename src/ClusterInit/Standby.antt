-- ===== src/ClusterInit/Standby.antt =====
-- The ladder of one standby of an initialisation (crates/pg-agent-core/src/localserver.rs,
-- `init_standby`).
use pg_agent_rs.Prelude.{ℕ, String, ◌≡◌, refl, Bool, true, false, ◌∷◌, In, inr, Result, ok, err}
use pg_agent_rs.Orchestration.{
  Action, dial, stop, basebackup, configure, start, create_slot, drop_slot, Env, World, Task, pure,
  ◌>>=◌, ◌>>◌, try, succeeded, queue_drop, queue_unless_dropped, cleanup_slot_after_failure,
}
use pg_agent_rs.Orchestration.Order.{Calls, Did, try-Ordered}
use pg_agent_rs.Orchestration.Rules.{Ends, Triple, Triple-pure, Triple-before, Triple-bind}
use pg_agent_rs.Recovery.Order.{RebuildFirst, Tidy}
use pg_agent_rs.ClusterInit.{
  staged, start_standby, configure_standby, copy_standby, stop_standby, reach_standby, once_made,
  init_standby,
}

-- one standby, with a condition on the log that later calls keep
module _ (env : Env) (here s : ℕ) (host : String) (K : Calls → Type 0)
    (grows : (a : Action) (b : Bool) (older : Calls) → K older → K ((a, b) ∷ older)) where
  abbrev Good : Bool → World → Type 0
  Good done w = K w.log × Tidy w × (done ≡ true → In (start s, true) w.log)

  -- the slot was made, and `P` holds as well
  abbrev Made : (Calls → Type 0) → Calls → Type 0
  Made P older = K older × In (create_slot here s, true) older × P older

  abbrev Nothing : Calls → Type 0
  Nothing older = Unit

  dropped-Triple :
      (P : Calls → Type 0) (cause : String)
      → Triple
          (λ w. Made P w.log × Tidy w)
          (cleanup_slot_after_failure env here s host cause >> pure false)
          (λ b w. Good b w)
          Tidy
  unfolding cleanup_slot_after_failure try queue_drop ◌>>=◌
  dropped-Triple P cause = record {
    at = λ w ((k, m, p), o). by_answer (env.act (drop_slot here s)) w k m o;
  }
    where
      by_answer :
          (r : Result String (Unit {0})) (w : World)
          → K w.log
          → In (create_slot here s, true) w.log
          → Tidy w
          → Ends {A = Bool}
              (λ b v. Good b v)
              Tidy
              ((queue_unless_dropped env s host cause r >> pure false)
                (record w { log = (drop_slot here s, succeeded r) ∷ w.log }))
      by_answer (ok u) w k m o = (grows (drop_slot here s) true w.log k, (m, o), λ q. absurd (cc q))
      by_answer (err why) w k m o =
          (grows (drop_slot here s) false w.log k, (m, o), λ q. absurd (cc q))

  -- one stage: the call may be made where `P` holds, and the next stage starts from `N`
  staged-Triple :
      (P N : Calls → Type 0) (a : Action) (cause : String) (next : Task Bool)
      → ((older : Calls) → Made P older → RebuildFirst a older)
      → ((b : Bool) (older : Calls) → P older → P ((a, b) ∷ older))
      → ((older : Calls) → P older → In (a, true) older → N older)
      → Triple (λ w. Made N w.log × Tidy w) next (λ b w. Good b w) Tidy
      → Triple
          (λ w. Made P w.log × Tidy w)
          (try env a >>= staged env here s host cause next)
          (λ b w. Good b w)
          Tidy
  staged-Triple P N a cause next first keeps then_next t =
      Triple-bind (try env a) (staged env here s host cause next)
        (try-Ordered RebuildFirst env a (Made P)
          (λ b older (k, m, p). (grows a b older k, inr m, keeps b older p)) first)
        by_answer
    where
      by_answer :
          (r : Result String (Unit {0}))
          → Triple
              (λ w. Made P w.log × Tidy w × (r ≡ ok tt → Did a w))
              (staged env here s host cause next r)
              (λ b w. Good b w)
              Tidy
      by_answer (ok u) =
          Triple-before next (λ w ((k, m, p), o, d). ((k, m, then_next w.log p (d refl)), o)) t
      by_answer (err why) =
          Triple-before (cleanup_slot_after_failure env here s host cause >> pure false)
            (λ w (h, o, d). (h, o)) (dropped-Triple P cause)

  start-Triple :
      Triple
        (λ w. Made (λ c. In (configure s, true) c) w.log × Tidy w)
        (start_standby env here s host)
        (λ b w. Good b w)
        Tidy
  unfolding start_standby
  start-Triple =
      staged-Triple (λ c. In (configure s, true) c) (λ c. In (start s, true) c) (start s)
        "cluster_init_start_failed" (pure true) (λ older (k, m, p). p) (λ b older p. inr p)
        (λ older p d. d) (Triple-pure true (λ w ((k, m, d), o). (k, o, λ q. d)))

  configure-Triple :
      Triple
        (λ w. Made (λ c. In (basebackup s, true) c) w.log × Tidy w)
        (configure_standby env here s host)
        (λ b w. Good b w)
        Tidy
  unfolding configure_standby
  configure-Triple =
      staged-Triple (λ c. In (basebackup s, true) c) (λ c. In (configure s, true) c) (configure s)
        "cluster_init_configure_standby_failed" (start_standby env here s host)
        (λ older (k, m, p). p) (λ b older p. inr p) (λ older p d. d) start-Triple

  copy-Triple :
      Triple
        (λ w. Made Nothing w.log × Tidy w)
        (copy_standby env here s host)
        (λ b w. Good b w)
        Tidy
  unfolding copy_standby
  copy-Triple =
      staged-Triple Nothing (λ c. In (basebackup s, true) c) (basebackup s)
        "cluster_init_basebackup_failed" (configure_standby env here s host)
        (λ older (k, m, p). (here, m)) (λ b older p. tt) (λ older p d. d) configure-Triple

  stop-Triple :
      Triple
        (λ w. Made Nothing w.log × Tidy w)
        (stop_standby env here s host)
        (λ b w. Good b w)
        Tidy
  unfolding stop_standby
  stop-Triple =
      staged-Triple Nothing Nothing (stop s) "cluster_init_stop_failed"
        (copy_standby env here s host) (λ older h. tt) (λ b older p. tt) (λ older p d. tt)
        copy-Triple

  reach-Triple :
      Triple
        (λ w. Made Nothing w.log × Tidy w)
        (reach_standby env here s host)
        (λ b w. Good b w)
        Tidy
  unfolding reach_standby
  reach-Triple =
      staged-Triple Nothing Nothing (dial s) "cluster_init_peer_client_failed"
        (stop_standby env here s host) (λ older h. tt) (λ b older p. tt) (λ older p d. tt)
        stop-Triple

  made-Triple :
      (r : Result String (Unit {0}))
      → Triple
          (λ w. K w.log × Tidy w × (r ≡ ok tt → Did (create_slot here s) w))
          (once_made env here s host r)
          (λ b w. Good b w)
          Tidy
  made-Triple (ok u) =
      Triple-before (reach_standby env here s host) (λ w (k, o, d). ((k, d refl, tt), o))
        reach-Triple
  made-Triple (err e) = Triple-pure false (λ w (k, o, d). (k, o, λ q. absurd (cc q)))

  pub init_standby-Triple :
      Triple
        (λ w. K w.log × Tidy w)
        (init_standby env here s host)
        (λ r w. (r.node_id ≡ s) × Good r.ok w)
        Tidy
  unfolding init_standby
  init_standby-Triple =
      Triple-bind _ _
        (Triple-bind (try env (create_slot here s)) (once_made env here s host)
          (try-Ordered RebuildFirst env (create_slot here s) K
            (λ b older k. grows (create_slot here s) b older k) (λ older k. tt))
          made-Triple)
        (λ b. Triple-pure _ (λ w h. (refl, h)))
